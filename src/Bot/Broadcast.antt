-- ===== src/Bot/Broadcast.antt =====
-- What `Broadcast` of ws.go delivers when no client leaves in between.
use zev_bot.Prelude.{
  ℕ, ◌≡◌, refl, Option, none, some, [], ◌∷◌, ◌++◌, false, ℕ_discrete, arith, ltb, length,
  if◌then◌else◌, ite,
}
use zev_bot.Table.{Table, Distinct, lookup, lookup-upsert}
use zev_bot.Bot.Messages.{EventMessage}
use zev_bot.Bot.Server.{
  Channel, Hub, capacity, offer, send_or_drop, send_all, keys, broadcast, Reachable,
}
use zev_bot.Bot.Reach.{Sound, Reachable-Sound}

-- A channel after an event: at its end, or dropped where the channel is full.
abbrev pub receive : EventMessage → Channel → Channel
receive evt ch =
    if ltb (length ch.queue) capacity then record ch { queue = ch.queue ++ evt ∷ [] } else ch

abbrev pub received : EventMessage → Option (Unit {0}) → Option Channel → Option Channel
received evt (some u) (some ch) = some (receive evt ch)
received evt _ o = o

-- The channels of the clients in `t` are open.
abbrev pub Open : Table ℕ (Unit {0}) → Hub → Type 0
Open t h =
    (c : ℕ)
    → lookup ℕ_discrete c t ≡ some tt
    → (ch : Channel) × (lookup ℕ_discrete c h.channels ≡ some ch) × (ch.closed ≡ false)

pub opened_for : (h : Hub) → Sound h → Open h.clients h
opened_for h s c q = of_client (lookup ℕ_discrete c h.channels) refl
  where
    of_client :
        (o : Option Channel)
        → lookup ℕ_discrete c h.channels ≡ o
        → (ch : Channel) × (lookup ℕ_discrete c h.channels ≡ some ch) × (ch.closed ≡ false)
    of_client none e = ground (arith, s.served c, e, q)
    of_client (some ch) e = (ch, e, ground (arith, s.served c, e, q))

module _ (evt : EventMessage) where
  offered :
      (c d : ℕ) (h : Hub) (ch : Channel)
      → lookup ℕ_discrete c h.channels ≡ some ch
      → ch.closed ≡ false
      → (lookup ℕ_discrete d (send_or_drop c evt h).channels
          ≡ ite (ℕ_discrete c d) (some (receive evt ch)) (lookup ℕ_discrete d h.channels))
        × ((send_or_drop c evt h).panicked ≡ h.panicked)
        × ((send_or_drop c evt h).clients ≡ h.clients)
  unfolding send_or_drop offer
  offered c d h ch e o = ground (
    arith,
    e,
    o,
    lookup-upsert ℕ_discrete d c (record { queue = ch.queue ++ evt ∷ []; closed = false })
        h.channels,
  )

  Open-send_or_drop :
      (c : ℕ) (u : Unit {0}) (t : Table ℕ (Unit {0})) (h : Hub)
      → Distinct ℕ_discrete ((c, u) ∷ t)
      → Open ((c, u) ∷ t) h
      → Open t (send_or_drop c evt h)
  unfolding lookup
  Open-send_or_drop c u t h dis open_all d q =
      let (ch, is, opened) = open_all c (ground arith) in
      let (ch', is', opened') = open_all d (ground (arith, dis, q)) in
      (ch', ground (arith, offered c d h ch is opened, is', dis, q), opened')

  pub delivered :
      (t : Table ℕ (Unit {0})) (h : Hub)
      → Distinct ℕ_discrete t
      → Open t h
      → (d : ℕ)
      → (lookup ℕ_discrete d (send_all (keys t) evt h).channels
          ≡ received evt (lookup ℕ_discrete d t) (lookup ℕ_discrete d h.channels))
        × ((send_all (keys t) evt h).panicked ≡ h.panicked)
        × ((send_all (keys t) evt h).clients ≡ h.clients)
  unfolding send_all keys lookup
  delivered [] h dis open_all d = (refl, refl, refl)
  delivered ((c, u) ∷ t) h dis open_all d =
      let (ch, is, opened) = open_all c (ground arith) in
      ground (
        arith,
        dis,
        offered c d h ch is opened,
        delivered t (send_or_drop c evt h) dis.1 (Open-send_or_drop c u t h dis open_all) d,
        is,
        opened,
      )

  -- In every state that the server gets to, a broadcast that is not interrupted appends its event to the
  -- channel of each registered client that has room, drops it for the others, and changes no other
  -- channel, no registration, and does not panic.
  pub broadcast-received :
      {h : Hub}
      → Reachable h
      → (d : ℕ)
      → (lookup ℕ_discrete d (broadcast evt h).channels
          ≡ received evt (lookup ℕ_discrete d h.clients) (lookup ℕ_discrete d h.channels))
        × ((broadcast evt h).panicked ≡ h.panicked)
        × ((broadcast evt h).clients ≡ h.clients)
  unfolding broadcast
  broadcast-received {h} r d =
      delivered h.clients h (Reachable-Sound r).distinct (opened_for h (Reachable-Sound r)) d
