-- ===== src/Tests/Starts.antt =====
-- The theorems on a session of the bot, with a client that pairs by a QR code.
use zev_bot.Prelude.{
  ◌≡◌, refl, ne_text, none, some, inr, List, [], ◌∷◌, ◌++◌, true, false, ℕ_discrete,
  string_discrete,
}
use zev_bot.Table.{lookup, upsert}
use zev_bot.Cli.{CliArgs, client_ios}
use zev_bot.Bot.{
  Pairing, QrItem, Arrivals, Channel, EventMessage, register, ControlMessage, get_status, begin,
  run,
}
use zev_bot.Bot.Started.{broadcast_all, Answered, run-received, run-other_item}
use zev_bot.Tests.Bots.{log, request}
use zev_bot.Tests.Hubs.{two, two-Reachable}

abbrev pairing : Pairing log
pairing = record {
  set_device_props = λ platform os w. os ∷ w;
  has_id = λ w. false;
  connect = λ w. (none, "connected" ∷ w);
  pair_phone = λ phone kind display w. (inr "1234", w);
  get_qr_channel = λ w. w;
}

abbrev cli : CliArgs
cli = record {
  session = "1";
  pair = false;
  port = "3000";
  auth_dir = "auth";
  qr_code = true;
  logout = false;
  debug = false;
  dev = false;
  client = client_ios;
}

abbrev qr_code_item : QrItem
qr_code_item = record { event = "code"; qr = "2@x" }

abbrev timed_out : QrItem
timed_out = record { event = "timeout"; qr = "" }

abbrev question : ControlMessage
question = record { kind = get_status; id = "9"; payload = none }

abbrev arrivals : Arrivals
arrivals = record {
  events = [];
  items = qr_code_item ∷ timed_out ∷ [];
  controls = request ∷ question ∷ [];
}

abbrev empty_channel : Channel
empty_channel = record { queue = []; closed = false }

run-received_example :
    (evts : List EventMessage) × ((run log pairing cli arrivals []).error ≡ none)
    × (lookup ℕ_discrete 1 (broadcast_all (run log pairing cli arrivals []).broadcasts two).channels
        ≡ some (record {
          queue = (begin log pairing cli arrivals []).broadcasts ++ evts;
          closed = false;
        }))
    × Answered log arrivals.controls
        (begin log pairing cli arrivals []).world
        evts
        (run log pairing cli arrivals []).world
unfolding run begin register lookup upsert ℕ_discrete string_discrete
run-received_example =
    run-received log pairing cli arrivals [] 1 empty_channel refl two-Reachable refl refl refl

run-other_item_example :
    run log pairing cli arrivals []
    ≡ run log pairing cli (record arrivals { items = qr_code_item ∷ [] }) []
run-other_item_example =
    run-other_item log pairing cli arrivals [] (qr_code_item ∷ []) [] timed_out
      (ne_text "timeout" "code" refl)
