-- ===== src/Tests/Hubs.antt =====
-- The theorems on the WebSocket hub, at a hub with two clients and a broadcast under way.
use zev_bot.Prelude.{ℕ, ◌≡◌, refl, [], ◌∷◌, true, false, ℕ_discrete, List}
use zev_bot.Table.{lookup, upsert}
use mathlib.Core.List.Perm
use zev_bot.Bot.{
  Hub, new_hub, register, unregister, keys, EventMessage, simple_event, connected, Reachable, Step,
  initial, goes_on, connects, snapshots, sends, send_or_drop, offer, broadcast, disconnects,
}
use zev_bot.Bot.Reach.{Sound, Reachable-Sound}
use zev_bot.Bot.Broadcast.{received, broadcast-received}
use zev_bot.Bot.Panics.{Stale, panics-Stale, panics_when_gone}

abbrev up : EventMessage
up = simple_event connected

abbrev pub two : Hub
two = register (register new_hub)

pub two-Reachable : Reachable two
unfolding register
two-Reachable = goes_on (goes_on initial refl connects) refl connects

abbrev to_send : List (EventMessage × List ℕ)
to_send = (up, keys two.clients) ∷ []

abbrev sending : Hub
sending = record two { broadcasts = to_send }

sending-Reachable : Reachable sending
unfolding register
sending-Reachable =
    goes_on two-Reachable refl (snapshots up (keys two.clients) (Perm.refl (keys two.clients)))

Reachable-Sound_example : Sound sending
Reachable-Sound_example = Reachable-Sound sending-Reachable

broadcast-received_example :
    (lookup ℕ_discrete 1 (broadcast up two).channels
      ≡ received up (lookup ℕ_discrete 1 two.clients) (lookup ℕ_discrete 1 two.channels))
    × ((broadcast up two).panicked ≡ two.panicked)
    × ((broadcast up two).clients ≡ two.clients)
broadcast-received_example = broadcast-received up two-Reachable 1

-- The hub after the client 0 has left, and the send to it.
abbrev left : Hub
left = unregister 0 sending

abbrev sent_to_left : Hub
sent_to_left = record (send_or_drop 0 up left) { broadcasts = (up, 1 ∷ []) ∷ [] }

panics_when_gone_example :
    Step sending left
    × (left.panicked ≡ false)
    × Step left sent_to_left
    × (sent_to_left.panicked ≡ true)
    × Reachable sent_to_left
unfolding register keys upsert lookup ℕ_discrete
panics_when_gone_example = panics_when_gone [] [] up 0 (1 ∷ []) sending-Reachable refl refl refl

left-Reachable : Reachable left
unfolding register lookup upsert ℕ_discrete
left-Reachable = goes_on sending-Reachable refl (disconnects 0 refl)

panics-Stale_example : Stale left
unfolding register keys lookup upsert unregister send_or_drop offer ℕ_discrete
panics-Stale_example = panics-Stale left-Reachable refl (sends [] [] up 0 (1 ∷ []) refl) refl
