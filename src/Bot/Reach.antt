-- ===== src/Bot/Reach.antt =====
-- What holds in every state of the hub (ws.go).
use zev_bot.Prelude.{
  ℕ, ◌≤◌, ◌≡◌, refl, Option, none, some, List, [], ◌∷◌, ◌++◌, Bool, true, false, length, ltb, ite,
  if◌then◌else◌, ℕ_discrete, arith, length-append,
}
use zev_bot.Table.{
  Table, Distinct, upsert-Distinct, delete-Distinct, lookup, lookup-upsert, lookup-delete,
}
use mathlib.Core.Option
use zev_bot.Bot.Messages.{ack_event, ControlMessage, EventMessage}
use zev_bot.Bot.Server.{
  capacity, Channel, close_channel, pop, pop_queue, update, drop_client, Hub, new_hub, offer,
  send_or_drop, register, unregister, read_control, write_event, take_control, Step, connects,
  disconnects, reads, writes, takes, snapshots, sends, Reachable, initial, goes_on,
}

-- A channel that holds its capacity at most, and is open exactly for a registered client.
abbrev pub Served : Option (Unit {0}) → Option Channel → Type 0
Served none none = Unit
Served (some u) none = ⊥
Served none (some ch) = (length ch.queue ≤ capacity) × (ch.closed ≡ true)
Served (some u) (some ch) = (length ch.queue ≤ capacity) × (ch.closed ≡ false)

pub record Sound (h : Hub) : Type 0 where
  pub served : (c : ℕ) → Served (lookup ℕ_discrete c h.clients) (lookup ℕ_discrete c h.channels)
  pub fresh : (c : ℕ) → h.next ≤ c → lookup ℕ_discrete c h.channels ≡ none
  pub control : length h.control ≤ capacity
  pub distinct : Distinct ℕ_discrete h.clients

pub new_hub-Sound : Sound new_hub
unfolding lookup
new_hub-Sound = record {
  served = λ c. tt;
  fresh = λ c l. refl;
  control = omega arith;
  distinct = tt;
}

length-pop : {A : Type 0} (xs : List A) → length (pop xs) ≤ length xs
length-pop [] = omega arith
length-pop (x ∷ xs) = omega arith

pub lookup-update :
    (d c : ℕ) (g : Channel → Channel) (t : Table ℕ Channel)
    → lookup ℕ_discrete d (update c g (lookup ℕ_discrete c t) t)
      ≡ ite (ℕ_discrete c d) (Option.map g (lookup ℕ_discrete c t)) (lookup ℕ_discrete d t)
lookup-update d c g t = at (lookup ℕ_discrete c t) refl
  where
    at :
        (o : Option Channel)
        → lookup ℕ_discrete c t ≡ o
        → lookup ℕ_discrete d (update c g o t)
          ≡ ite (ℕ_discrete c d) (Option.map g o) (lookup ℕ_discrete d t)
    at none e = ground (arith, e)
    at (some ch) e = lookup-upsert ℕ_discrete d c (g ch) t

module _ (h : Hub) (s : Sound h) where
  open s use {served, fresh, control, distinct}

  pub register-Sound : Sound (register h)
  unfolding register
  register-Sound = record {
    served = λ c. ground (
      arith,
      served c,
      fresh h.next,
      lookup-upsert ℕ_discrete c h.next tt h.clients,
      lookup-upsert ℕ_discrete c h.next (record { queue = []; closed = false }) h.channels,
    );
    fresh = λ c l. ground (
      arith,
      fresh c,
      lookup-upsert ℕ_discrete c h.next (record { queue = []; closed = false }) h.channels,
    );
    control = control;
    distinct = upsert-Distinct ℕ_discrete h.next tt h.clients distinct;
  }

  pub send_or_drop-Sound : (c : ℕ) (evt : EventMessage) → Sound (send_or_drop c evt h)
  unfolding send_or_drop offer
  send_or_drop-Sound c evt = offer-Sound (lookup ℕ_discrete c h.channels) refl
    where
      offer-Sound :
          (o : Option Channel) → lookup ℕ_discrete c h.channels ≡ o → Sound (offer c evt o h)
      offer-Sound none e = s
      offer-Sound (some ch) e = record {
        served = λ d. ground (
          arith,
          e,
          served d,
          served c,
          length-append ch.queue (evt ∷ []),
          lookup-upsert ℕ_discrete d c (record { queue = ch.queue ++ evt ∷ []; closed = false })
              h.channels,
        );
        fresh = λ d l. ground (
          arith,
          e,
          fresh d,
          fresh c,
          lookup-upsert ℕ_discrete d c (record { queue = ch.queue ++ evt ∷ []; closed = false })
              h.channels,
        );
        control = ground (arith, control);
        distinct = ground (arith, distinct);
      }

  pub unregister-Sound : (c : ℕ) → Sound (unregister c h)
  unfolding unregister
  unregister-Sound c = record {
    served = λ d. ground (
      arith,
      served d,
      served c,
      lookup-delete ℕ_discrete d c h.clients,
      lookup-update d c close_channel h.channels,
    );
    fresh = λ d l.
        ground (arith, fresh d, fresh c, served c, lookup-update d c close_channel h.channels);
    control = ground (arith, control);
    distinct = unregistered (lookup ℕ_discrete c h.clients);
  }
    where
      unregistered : (o : Option (Unit {0})) → Distinct ℕ_discrete (drop_client c o h).clients
      unregistered none = distinct
      unregistered (some u) = delete-Distinct ℕ_discrete c h.clients distinct

  pub write_event-Sound : (c : ℕ) → Sound (write_event c h)
  unfolding write_event
  write_event-Sound c = record {
    served = λ d. after d (lookup ℕ_discrete c h.channels) refl;
    fresh = λ d l. ground (arith, fresh d, fresh c, lookup-update d c pop_queue h.channels);
    control = control;
    distinct = distinct;
  }
    where
      after :
          (d : ℕ) (o : Option Channel)
          → lookup ℕ_discrete c h.channels ≡ o
          → Served
              (lookup ℕ_discrete d h.clients)
              (lookup ℕ_discrete d (update c pop_queue o h.channels))
      after d none e = served d
      after d (some ch) e = ground (
        arith,
        e,
        served d,
        served c,
        length-pop ch.queue,
        lookup-upsert ℕ_discrete d c (pop_queue ch) h.channels,
      )

  pub read_control-Sound : (c : ℕ) (ctrl : ControlMessage) → Sound (read_control c ctrl h)
  unfolding read_control
  read_control-Sound c ctrl = at (ltb (length h.control) capacity) refl
    where
      at :
          (b : Bool)
          → ltb (length h.control) capacity ≡ b
          → Sound (
              if b
              then record h { control = h.control ++ ctrl ∷ [] }
              else send_or_drop c (ack_event ctrl.id false "server busy") h)
      at true e = record {
        served = served;
        fresh = fresh;
        control = ground (arith, e, length-append h.control (ctrl ∷ []));
        distinct = distinct;
      }
      at false e = send_or_drop-Sound c _

  pub take_control-Sound : Sound (take_control h)
  unfolding take_control
  take_control-Sound = record {
    served = served;
    fresh = fresh;
    control = omega (arith, control, length-pop h.control);
    distinct = distinct;
  }

Step-Sound : {h h' : Hub} → Sound h → Step h h' → Sound h'
Step-Sound {h} s connects = register-Sound h s
Step-Sound {h} s (disconnects c r) = unregister-Sound h s c
Step-Sound {h} s (reads c ctrl r) = read_control-Sound h s c ctrl
Step-Sound {h} s (writes c) = write_event-Sound h s c
Step-Sound {h} s takes = take_control-Sound h s
Step-Sound {h} s (snapshots evt cs p) = record {
  served = s.served;
  fresh = s.fresh;
  control = s.control;
  distinct = s.distinct;
}
Step-Sound {h} s (sends before after evt c cs e) =
    let t = send_or_drop-Sound h s c evt in
    record { served = t.served; fresh = t.fresh; control = t.control; distinct = t.distinct }

-- In every state that a running server gets to, each channel holds at most its 64 events and control
-- messages, a channel is open exactly while its client is registered, no client is registered twice, and no channel stands under a
-- number that is not yet given out.
pub Reachable-Sound : {h : Hub} → Reachable h → Sound h
Reachable-Sound initial = new_hub-Sound
Reachable-Sound (goes_on r run step) = Step-Sound (Reachable-Sound r) step
