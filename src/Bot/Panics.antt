-- ===== src/Bot/Panics.antt =====
-- When the server panics: the sends of ws.go against the channels that it closes.
use zev_bot.Prelude.{ℕ, ◌≡◌, sym, ◌∙◌, none, some, List, ◌∷◌, ◌++◌, true, false, ℕ_discrete, arith}
use zev_bot.Table.{lookup}
use zev_bot.Bot.Messages.{ControlMessage, EventMessage}
use zev_bot.Bot.Server.{
  Hub, close_channel, send_or_drop, register, unregister, read_control, write_event, take_control,
  Step, connects, disconnects, reads, writes, takes, snapshots, sends, Reachable, goes_on,
}
use zev_bot.Bot.Reach.{Sound, Reachable-Sound, lookup-update}

-- A broadcast is about to send to a client that is gone.
pub data Stale (h : Hub) : Type 0 where
  stale :
      (before after : List (EventMessage × List ℕ)) (evt : EventMessage) (c : ℕ) (cs : List ℕ)
      → h.broadcasts ≡ before ++ (evt, c ∷ cs) ∷ after
      → lookup ℕ_discrete c h.clients ≡ none
      → Stale h

-- A send panics for a client that is gone, and for no other.
send_or_drop-panicked :
    (c : ℕ) (evt : EventMessage) (h : Hub)
    → Sound h
    → h.panicked ≡ false
    → (send_or_drop c evt h).panicked ≡ true
    → lookup ℕ_discrete c h.clients ≡ none
unfolding send_or_drop
send_or_drop-panicked c evt h s e p = ground (arith, s.served c, e, p)

panicked-unregister : (c : ℕ) (h : Hub) → (unregister c h).panicked ≡ h.panicked
unfolding unregister
panicked-unregister c h = ground arith

broadcasts-unregister : (c : ℕ) (h : Hub) → (unregister c h).broadcasts ≡ h.broadcasts
unfolding unregister
broadcasts-unregister c h = ground arith

unregistered-panics :
    (c : ℕ) (evt : EventMessage) (h : Hub)
    → Sound h
    → lookup ℕ_discrete c h.clients ≡ some tt
    → (send_or_drop c evt (unregister c h)).panicked ≡ true
unfolding send_or_drop unregister
unregistered-panics c evt h s q =
    ground (arith, s.served c, q, lookup-update c c close_channel h.channels)

read_control-runs :
    (c : ℕ) (ctrl : ControlMessage) (h : Hub)
    → Sound h
    → h.panicked ≡ false
    → lookup ℕ_discrete c h.clients ≡ some tt
    → (read_control c ctrl h).panicked ≡ false
unfolding read_control send_or_drop
read_control-runs c ctrl h s e q = ground (arith, s.served c, e, q)

-- A running server panics in a step of a broadcast to a client that is gone, and in no other step: the
-- answer that a reader gives when the control queue is full is never sent to a closed channel.
pub panics-Stale :
    {h h' : Hub} → Reachable h → h.panicked ≡ false → Step h h' → h'.panicked ≡ true → Stale h
unfolding register write_event take_control
panics-Stale {h} {h'} r e step p = by_step step p
  where
    impossible : h.panicked ≡ true → Stale h
    impossible p = ground (arith, e, p)

    by_step : {h' : Hub} → Step h h' → h'.panicked ≡ true → Stale h
    by_step connects p = impossible p
    by_step (disconnects c q) p = impossible (sym (panicked-unregister c h) ∙ p)
    by_step (reads c ctrl q) p =
        ground (arith, read_control-runs c ctrl h (Reachable-Sound r) e q, p)
    by_step (writes c) p = impossible p
    by_step takes p = impossible p
    by_step (snapshots evt cs q) p = impossible p
    by_step (sends before after evt c cs q) p =
        stale before after evt c cs q (send_or_drop-panicked c evt h (Reachable-Sound r) e p)

-- A client leaves between the snapshot of a broadcast and the send to it: both are steps of the server, the
-- hub runs until the client has left, and the send to its closed channel is the step that panics.
pub panics_when_gone :
    {h : Hub} (before after : List (EventMessage × List ℕ)) (evt : EventMessage) (c : ℕ)
    (cs : List ℕ)
    → Reachable h
    → h.panicked ≡ false
    → lookup ℕ_discrete c h.clients ≡ some tt
    → h.broadcasts ≡ before ++ (evt, c ∷ cs) ∷ after
    → let gone = unregister c h in
      let sent = record (send_or_drop c evt gone) { broadcasts = before ++ (evt, cs) ∷ after } in
      Step h gone
      × (gone.panicked ≡ false)
      × Step gone sent
      × (sent.panicked ≡ true)
      × Reachable sent
panics_when_gone {h} before after evt c cs r e q b =
    (disconnects c q, left_runs, sending, panic, goes_on left left_runs sending)
  where
    left : Reachable (unregister c h)
    left = goes_on r e (disconnects c q)

    left_runs : (unregister c h).panicked ≡ false
    left_runs = panicked-unregister c h ∙ e

    sending :
        Step (unregister c h) (record (send_or_drop c evt (unregister c h)) {
          broadcasts = before ++ (evt, cs) ∷ after;
        })
    sending = sends before after evt c cs (broadcasts-unregister c h ∙ b)

    panic : (send_or_drop c evt (unregister c h)).panicked ≡ true
    panic = unregistered-panics c evt h (Reachable-Sound r) q
