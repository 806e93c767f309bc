-- ===== src/Bot/Server.antt =====
-- The WebSocket hub (ws.go): the registered clients, the channel of each, and the channel of control
-- messages. A broadcast is under way from its snapshot of the clients until the last send.
use zev_bot.Prelude.{
  ℕ, suc, ◌≡◌, Option, none, some, List, [], ◌∷◌, ◌++◌, Bool, true, false, length, ltb,
  if◌then◌else◌, ℕ_discrete,
}
use zev_bot.Table.{Table, lookup, upsert, delete}
use mathlib.Core.List.{Perm}
use zev_bot.Bot.Messages.{ControlMessage, EventMessage, ack_event}

-- The capacity of every channel.
abbrev pub capacity : ℕ
capacity = 64

pub record Channel : Type 0 where
  pub queue : List EventMessage
  pub closed : Bool

pub record Hub : Type 0 where
  pub clients : Table ℕ (Unit {0})  -- the registered clients, by number
  pub channels : Table ℕ Channel  -- the channel `send` of every client so far
  pub control : List ControlMessage
  pub broadcasts : List (EventMessage × List ℕ)  -- those under way, with the clients still to serve
  pub next : ℕ
  pub panicked : Bool

-- `newHub`
abbrev pub new_hub : Hub
new_hub = record {
  clients = [];
  channels = [];
  control = [];
  broadcasts = [];
  next = 0;
  panicked = false;
}

unfoldable pub offer : ℕ → EventMessage → Option Channel → Hub → Hub
offer c evt none h = h
offer c evt (some ch) h =
    if ch.closed
    then record h { panicked = true }
    else (if ltb (length ch.queue) capacity
        then record h {
          channels =
              upsert ℕ_discrete c (record { queue = ch.queue ++ evt ∷ []; closed = false })
                h.channels;
        }
        else h)

-- `select { case c.send <- evt: default: }`: a send to a closed channel panics, and a full channel
-- drops the event.
unfoldable pub send_or_drop : ℕ → EventMessage → Hub → Hub
unfolding offer
send_or_drop c evt h = offer c evt (lookup ℕ_discrete c h.channels) h

-- `ServeWS` up to its first loop
unfoldable pub register : Hub → Hub
register h = record h {
  clients = upsert ℕ_discrete h.next tt h.clients;
  channels = upsert ℕ_discrete h.next (record { queue = []; closed = false }) h.channels;
  next = suc h.next;
}

abbrev pub close_channel : Channel → Channel
close_channel ch = record ch { closed = true }

abbrev pub update : ℕ → (Channel → Channel) → Option Channel → Table ℕ Channel → Table ℕ Channel
update c g none t = t
update c g (some ch) t = upsert ℕ_discrete c (g ch) t

abbrev pub drop_client : ℕ → Option (Unit {0}) → Hub → Hub
drop_client c none h = h
drop_client c (some u) h = record h {
  clients = delete ℕ_discrete c h.clients;
  channels = update c close_channel (lookup ℕ_discrete c h.channels) h.channels;
}

-- The deferred function of `ServeWS`.
unfoldable pub unregister : ℕ → Hub → Hub
unregister c h = drop_client c (lookup ℕ_discrete c h.clients) h

-- The reader's loop at a control message: it is queued, or its client is told that the queue is full.
unfoldable pub read_control : ℕ → ControlMessage → Hub → Hub
unfolding send_or_drop
read_control c ctrl h =
    if ltb (length h.control) capacity
    then record h { control = h.control ++ ctrl ∷ [] }
    else send_or_drop c (ack_event ctrl.id false "server busy") h

abbrev pub pop : {A : Type 0} → List A → List A
pop [] = []
pop (x ∷ xs) = xs

abbrev pub pop_queue : Channel → Channel
pop_queue ch = record ch { queue = pop ch.queue }

-- The writer takes an event of its channel, closed or not.
unfoldable pub write_event : ℕ → Hub → Hub
write_event c h = record h {
  channels = update c pop_queue (lookup ℕ_discrete c h.channels) h.channels;
}

-- `ctrl := <-b.hub.Control`
unfoldable pub take_control : Hub → Hub
take_control h = record h { control = pop h.control }

unfoldable pub keys : Table ℕ (Unit {0}) → List ℕ
keys [] = []
keys ((c, u) ∷ t) = c ∷ keys t

unfoldable pub send_all : List ℕ → EventMessage → Hub → Hub
unfolding send_or_drop
send_all [] evt h = h
send_all (c ∷ cs) evt h = send_all cs evt (send_or_drop c evt h)

-- `Broadcast` with nothing in between
unfoldable pub broadcast : EventMessage → Hub → Hub
unfolding send_all keys
broadcast evt h = send_all (keys h.clients) evt h

-- The steps of the goroutines: those that serve the clients, and those that broadcast.
pub data Step (h : Hub) : Hub → Type 0 where
  connects : Step h (register h)
  disconnects : (c : ℕ) → lookup ℕ_discrete c h.clients ≡ some tt → Step h (unregister c h)
  reads :
      (c : ℕ) (ctrl : ControlMessage)
      → lookup ℕ_discrete c h.clients ≡ some tt
      → Step h (read_control c ctrl h)
  writes : (c : ℕ) → Step h (write_event c h)
  takes : Step h (take_control h)
  -- The snapshot that a broadcast takes under the lock, in some order.
  snapshots :
      (evt : EventMessage) (cs : List ℕ)
      → Perm cs (keys h.clients)
      → Step h (record h { broadcasts = (evt, cs) ∷ h.broadcasts })
  -- Its next send.
  sends :
      (before after : List (EventMessage × List ℕ)) (evt : EventMessage) (c : ℕ) (cs : List ℕ)
      → h.broadcasts ≡ before ++ (evt, c ∷ cs) ∷ after
      → Step h (record (send_or_drop c evt h) { broadcasts = before ++ (evt, cs) ∷ after })

-- The states that a running server gets to.
pub data Reachable : Hub → Type 0 where
  initial : Reachable new_hub
  goes_on : {h h' : Hub} → Reachable h → h.panicked ≡ false → Step h h' → Reachable h'
