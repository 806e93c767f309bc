-- ===== src/Bot/Session.antt =====
-- The session of the bot (`run`, `runPairCode` and `runQR` of session.go): pairing, the connection, and the
-- loop over the control messages. The handler that `run` adds first is `handle_wa_event`, which broadcasts
-- on a goroutine of its own.
use Prim.Native.String.{◌++◌ as append}
use zev_bot.Prelude.{
  String, Option, none, some, ◌⊎◌, inl, inr, List, [], ◌∷◌, ◌++◌, Bool, str_eq, if◌then◌else◌,
}
use zev_bot.Cli.{CliArgs, ClientType, client_chrome, client_android, client_ios}
use zev_bot.Bot.Messages.{ControlMessage, EventMessage, EventType, pair_qr, pair_code, code}
use zev_bot.Bot.Control.{Client, WaEvent, pair_succeeded, pair_failed, handle_control}

-- The values of `waCompanionReg.DeviceProps_PlatformType` and `whatsmeow.PairClientType` that are used.
pub data PlatformType : Type 0 where
  android_phone ios_phone chrome_browser : PlatformType

pub data PairClientType : Type 0 where
  pair_client_android pair_client_chrome : PairClientType

unfoldable pub device_props : ClientType → PlatformType × String
device_props client_android = (android_phone, "Android")
device_props client_ios = (ios_phone, "iOS")
device_props client_chrome = (chrome_browser, "Linux")

-- The kind of client that is paired, and the name that the phone displays.
unfoldable pub pair_client : ClientType → PairClientType × String
pair_client client_android = (pair_client_android, "Chrome (Android)")
pair_client client_ios = (pair_client_chrome, "Chrome (iOS)")
pair_client client_chrome = (pair_client_chrome, "Chrome (Linux)")

-- `whatsmeow.QRChannelItem`
pub record QrItem : Type 0 where
  pub event : String
  pub qr : String

-- What `whatsmeow.Client` does before the loop. `PairPhone` answers with an error or a code.
pub record Pairing (client : Client) : Type 0 where
  pub set_device_props : PlatformType → String → client.World → client.World
  pub has_id : client.World → Bool  -- `client.Store.ID != nil`
  pub connect : client.World → Option String × client.World
  pub pair_phone :
      String → PairClientType → String → client.World → (String ⊎ String) × client.World
  pub get_qr_channel : client.World → client.World

-- What reaches the session until its context is done: the events after the request for a code, the items
-- of the QR channel until it is closed, and the control messages in the order they are taken.
pub record Arrivals : Type 0 where
  pub events : List WaEvent
  pub items : List QrItem
  pub controls : List ControlMessage

-- The error it ends with, if any, the events it broadcasts in order, and the client after it.
pub record Ran (W : Type 0) : Type 0 where
  pub error : Option String
  pub broadcasts : List EventMessage
  pub world : W

abbrev pub code_event : EventType → String → EventMessage
code_event kind c = record { kind = kind; id = none; payload = code c }

-- The error of the first event on the pairing; none where the context is done first, which is no error
-- either.
unfoldable pub wait_paired : List WaEvent → Option String
wait_paired [] = none
wait_paired (pair_succeeded ∷ evts) = none
wait_paired (pair_failed why ∷ evts) = some (append "pair error: " why)
wait_paired (evt ∷ evts) = wait_paired evts

-- `for evt := range qrChan`
unfoldable pub qr_codes : List QrItem → List EventMessage
qr_codes [] = []
qr_codes (x ∷ xs) =
    let rest = qr_codes xs in if str_eq x.event "code" then code_event pair_qr x.qr ∷ rest else rest

module _ (client : Client) (pairing : Pairing client) where
  open client use {World}

  abbrev pub stopped : Option String → World → Ran World
  stopped e w = record { error = e; broadcasts = []; world = w }

  -- `if err := b.client.Connect(); err != nil { return err }`
  abbrev pub connected_then : Option String × World → (World → Ran World) → Ran World
  connected_then (some e, w) k = stopped (some e) w
  connected_then (none, w) k = k w

  abbrev pub code_issued : List WaEvent → (String ⊎ String) × World → Ran World
  code_issued evts (inl e, w) = stopped (some (append "pair code failed: " e)) w
  code_issued evts (inr c, w) = record {
    error = wait_paired evts;
    broadcasts = code_event pair_code c ∷ [];
    world = w;
  }

  unfoldable pub run_pair_code : CliArgs → List WaEvent → World → Ran World
  unfolding pair_client wait_paired
  run_pair_code cli evts w = connected_then (pairing.connect w) (λ w.
      let (kind, display) = pair_client cli.client in
      code_issued evts (pairing.pair_phone cli.session kind display w))

  unfoldable pub run_qr : List QrItem → World → Ran World
  unfolding qr_codes
  run_qr items w =
      connected_then (pairing.connect (pairing.get_qr_channel w))
        (λ w. record { error = none; broadcasts = qr_codes items; world = w })

  -- The pairing where the store has no ID, else the connection alone.
  unfoldable pub start : CliArgs → Arrivals → World → Ran World
  unfolding run_pair_code run_qr
  start cli a w =
      if pairing.has_id w
      then connected_then (pairing.connect w) (stopped none)
      else if cli.pair
      then run_pair_code cli a.events w
      else run_qr a.items w

  -- The loop of `run`, until its context is done
  unfoldable pub serve : List ControlMessage → World → Ran World
  serve [] w = stopped none w
  serve (ctrl ∷ ctrls) w =
      let (evt, w') = handle_control client ctrl w in
      let rest = serve ctrls w' in record rest { broadcasts = evt ∷ rest.broadcasts }

  -- What `run` does after its start.
  abbrev pub started : List ControlMessage → Ran World → Ran World
  started ctrls r = elim r.error [
    | some e ↦ r
    | none ↦
        let rest = serve ctrls r.world in
        record rest { broadcasts = r.broadcasts ++ rest.broadcasts }
  ]

  -- `run` up to its loop
  unfoldable pub begin : CliArgs → Arrivals → World → Ran World
  unfolding device_props start
  begin cli a w =
      let (platform, os) = device_props cli.client in
      start cli a (pairing.set_device_props platform os w)

  unfoldable pub run : CliArgs → Arrivals → World → Ran World
  unfolding begin serve
  run cli a w = started a.controls (begin cli a w)
