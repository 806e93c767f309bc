-- ===== src/Bot/Started.antt =====
-- What a session of the bot broadcasts (`run` of session.go), and what a client of the hub receives of it.
use zev_bot.Prelude.{
  ℕ, ◌+◌, ◌≡◌, ◌≢◌, refl, sym, ap, subst, arith, none, some, List, [], ◌∷◌, ◌++◌, true, length,
  length-append, leb, ℕ_discrete,
}
use mathlib.Core.List.{append-nil, append_assoc}
use zev_bot.Table.{Distinct, lookup}
use zev_bot.Cli.{CliArgs}
use zev_bot.Bot.Messages.{ControlMessage, EventMessage}
use zev_bot.Bot.Control.{Client, handle_control}
use zev_bot.Bot.Asked.{Replied}
use zev_bot.Bot.Replies.{handle_control-Replied}
use zev_bot.Bot.Server.{Channel, Hub, capacity, broadcast, Reachable}
use zev_bot.Bot.Reach.{Reachable-Sound}
use zev_bot.Bot.Broadcast.{Open, delivered, opened_for, receive}
use zev_bot.Bot.Session.{
  QrItem, Pairing, Arrivals, Ran, qr_codes, connected_then, device_props, run_qr, begin, start,
  serve, started, run,
}

-- The broadcasts one after the other, with nothing in between.
unfoldable pub broadcast_all : List EventMessage → Hub → Hub
unfolding broadcast
broadcast_all [] h = h
broadcast_all (evt ∷ evts) h = broadcast_all evts (broadcast evt h)

module _ (evt : EventMessage) (h : Hub) where
  Open-broadcast :
      Distinct ℕ_discrete h.clients
      → Open h.clients h
      → Open (broadcast evt h).clients (broadcast evt h)
  unfolding broadcast
  Open-broadcast dis open_all d q =
      let (ch, is, opened) =
        open_all d (ground (arith, q, delivered evt h.clients h dis open_all d)) in
      (
        receive evt ch,
        ground (arith, q, is, delivered evt h.clients h dis open_all d),
        ground (arith, opened),
      )

module _ (d : ℕ) where
  all_received :
      (evts : List EventMessage) (h : Hub) (ch : Channel)
      → Distinct ℕ_discrete h.clients
      → Open h.clients h
      → lookup ℕ_discrete d h.clients ≡ some tt
      → lookup ℕ_discrete d h.channels ≡ some ch
      → leb (length ch.queue + length evts) capacity ≡ true
      → lookup ℕ_discrete d (broadcast_all evts h).channels
        ≡ some (record ch { queue = ch.queue ++ evts })
  unfolding broadcast_all
  all_received [] h ch dis open_all at is room = ground (arith, is, append-nil ch.queue)
  all_received (evt ∷ evts) h ch dis open_all at is room =
      let after = delivered evt h.clients h dis open_all d in
      let next = record ch { queue = ch.queue ++ evt ∷ [] } in
      subst
        (λ q.
          lookup ℕ_discrete d (broadcast_all evts (broadcast evt h)).channels
          ≡ some (record ch { queue = q }))
        (append_assoc ch.queue (evt ∷ []) evts)
        (all_received evts (broadcast evt h) next (ground (arith, dis, after))
          (Open-broadcast evt h dis open_all) (ground (arith, at, after))
          (ground (arith, room, at, is, after))
          (ground (arith, room, length-append ch.queue (evt ∷ []))))

other_item :
    (before after : List QrItem) (x : QrItem)
    → x.event ≢ "code"
    → qr_codes (before ++ x ∷ after) ≡ qr_codes (before ++ after)
unfolding qr_codes
other_item [] after x n = ground (arith, n)
other_item (y ∷ before) after x n = ground (arith, other_item before after x n)

-- The answers to the control messages, each on the client as the one before left it.
module _ (client : Client) where
  open client use {World}

  pub data Answered : List ControlMessage → World → List EventMessage → World → Type 0 where
    finished : (w : World) → Answered [] w [] w
    answered :
        (ctrl : ControlMessage) (ctrls : List ControlMessage) (evt : EventMessage)
        (evts : List EventMessage) (w w' end : World)
        → Replied client ctrl.kind ctrl.payload ctrl.id w (evt, w')
        → Answered ctrls w' evts end
        → Answered (ctrl ∷ ctrls) w (evt ∷ evts) end

  module _ (pairing : Pairing client) where
    serve-Answered :
        (ctrls : List ControlMessage) (w : World)
        → Answered ctrls w
            (serve client pairing ctrls w).broadcasts
            (serve client pairing ctrls w).world
    unfolding serve
    serve-Answered [] w = finished w
    serve-Answered (ctrl ∷ ctrls) w =
        answered ctrl ctrls _ _ w _ _ (handle_control-Replied client ctrl w)
          (serve-Answered ctrls (handle_control client ctrl w).1)

    run_qr-same :
        (items items' : List QrItem)
        → qr_codes items ≡ qr_codes items'
        → (w : World) → run_qr client pairing items w ≡ run_qr client pairing items' w
    unfolding run_qr
    run_qr-same items items' e w =
        ap
          (λ codes.
            connected_then client pairing (pairing.connect (pairing.get_qr_channel w))
              (λ w'. record { error = none; broadcasts = codes; world = w' }))
          e

    serve-error :
        (ctrls : List ControlMessage) (w : World) → (serve client pairing ctrls w).error ≡ none
    unfolding serve
    serve-error [] w = refl
    serve-error (ctrl ∷ ctrls) w = serve-error ctrls (handle_control client ctrl w).1

    -- A session that has begun as `r`, and gone on to `r'`.
    abbrev GoesOn : List ControlMessage → Ran World → Ran World → Type 0
    GoesOn ctrls r r' =
        (evts : List EventMessage) × (r'.error ≡ none)
        × (r'.broadcasts ≡ r.broadcasts ++ evts)
        × Answered ctrls r.world evts r'.world

    started-GoesOn :
        (ctrls : List ControlMessage) (r : Ran World)
        → r.error ≡ none
        → GoesOn ctrls r (started client pairing ctrls r)
    started-GoesOn ctrls r e =
        let rest = serve client pairing ctrls r.world in
        let same : started client pairing ctrls r
            ≡ record rest { broadcasts = r.broadcasts ++ rest.broadcasts } =
          ground (arith, e) in
        subst (GoesOn ctrls r) (sym same)
          (_, serve-error ctrls r.world, refl, serve-Answered ctrls r.world)

    -- A session that has begun without an error handles the control messages in order until its context is
    -- done, and ends without an error. Of its broadcasts, a client that is registered at the hub and has
    -- room in its channel for all receives those of the pairing and then one answer to each control
    -- message, in order, when no other step of the hub comes in between.
    pub run-received :
        (cli : CliArgs) (a : Arrivals) (w : World) {h : Hub} (d : ℕ) (ch : Channel)
        → (begin client pairing cli a w).error ≡ none
        → Reachable h
        → lookup ℕ_discrete d h.clients ≡ some tt
        → lookup ℕ_discrete d h.channels ≡ some ch
        → leb (length ch.queue + length (run client pairing cli a w).broadcasts) capacity ≡ true
        → (evts : List EventMessage) × ((run client pairing cli a w).error ≡ none)
          × (lookup ℕ_discrete d (broadcast_all (run client pairing cli a w).broadcasts h).channels
              ≡ some (record ch {
                queue = ch.queue ++ ((begin client pairing cli a w).broadcasts ++ evts);
              }))
          × Answered a.controls
              (begin client pairing cli a w).world
              evts
              (run client pairing cli a w).world
    unfolding run
    run-received cli a w {h} d ch e r at is room =
        let (evts, fine, all, answers) =
          started-GoesOn a.controls (begin client pairing cli a w) e in
        (
          evts,
          fine,
          subst
              (λ es.
                lookup ℕ_discrete d
                  (broadcast_all (run client pairing cli a w).broadcasts h).channels
                ≡ some (record ch { queue = ch.queue ++ es }))
              all
              (all_received d _ h ch (Reachable-Sound r).distinct (opened_for h (Reachable-Sound r))
                at is room),
          answers,
        )

    -- Whatever the QR channel tells but its codes changes nothing: the session goes on as after a pairing,
    -- also when the channel ends with an error or a timeout.
    pub run-other_item :
        (cli : CliArgs) (a : Arrivals) (w : World) (before after : List QrItem) (x : QrItem)
        → x.event ≢ "code"
        → run client pairing cli (record a { items = before ++ x ∷ after }) w
          ≡ run client pairing cli (record a { items = before ++ after }) w
    unfolding run begin start run_qr
    run-other_item cli a w before after x n =
        let (platform, os) = device_props cli.client in
        let same =
          run_qr-same (before ++ x ∷ after) (before ++ after) (other_item before after x n)
            (pairing.set_device_props platform os w) in
        ground (arith, same)
