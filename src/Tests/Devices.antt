-- ===== src/Tests/Devices.antt =====
-- The theorems on devices, at a device that is saved for the first time.
use zev_bot.Prelude.{
  List, false, ite, zero, suc, string_discrete, ℕ_discrete, ◌≡◌, ◌≢◌, refl, none, some, [], ◌∷◌, ℕ,
  String, true, ◌==◌, if◌then◌else◌,
}
use zev_bot.Table.{lookup}
use zev_bot.Sql.{wrap, ok, err, device_deleted, Conn, Faults}
use zev_bot.Sql.Post.{Post}
use zev_bot.Jid.{Jid}
use zev_bot.Lid.Many.{jid_discrete}
use zev_bot.Chats.{pos}
use zev_bot.Signal.{Bytes}
use zev_bot.Device.{
  KeyPair, Keys, Account, Device, DeviceDb, DeviceRow, new_device, initialize_device, accepted,
  row_of, put_device, get_device, device_save, device_delete, after_delete, device_of,
}
use zev_bot.Device.{all_stores, noop_store, save_identity, device_trusts}
use zev_bot.Device.Trust.{save_identity-device_trusts}
use zev_bot.Signal.{SignalDb, key_discrete, bytes_discrete}
use zev_bot.Device.RoundTrip.{Paired, saved_row, put_device-get_device, put_device-Kept}
use zev_bot.Device.Outcome.{Provided, device_save-Post}
use zev_bot.Device.Erasure.{Erased, Keyed, deleted_of, device_delete-Post}
use zev_bot.Device.Refusal.{SqlStores, AllRefuse}
use zev_bot.Sql.{invalid_call}
use zev_bot.Device.{
  noop_identities, noop_sessions, noop_pre_keys, noop_sender_keys, noop_app_state_keys,
  noop_app_state, noop_contacts, noop_chat_settings, noop_msg_secrets, noop_privacy_tokens,
  noop_nct_salt, noop_event_buffer,
}
use zev_bot.Device.Life.{
  Stage, dead, Steps, start, next, pairs, saves, Steps-Stage, new_device-Stage, deleted_device,
}
use zev_bot.Tests.LidMaps.{wa, one_row, one_row-InStep}
use zev_bot.Device.Alternate.{alt_jid, get_alt_jid-get_alt_jid}

abbrev byte_run : ℕ → Bytes
byte_run zero = []
byte_run (suc n) = 7 ∷ byte_run n

abbrev plain_keys : Keys
plain_keys = record {
  from_private = λ b. record { private_key = b; public_key = b };
  from_private_lem = λ b. refl;
}

abbrev pair : KeyPair
pair = record { private_key = byte_run 32; public_key = byte_run 32 }

abbrev account : Account
account = record {
  details = [];
  account_signature = byte_run 64;
  account_signature_key = byte_run 32;
  device_signature = byte_run 64;
}

abbrev me : Jid
me = record { user = "31"; device = 2; server = "s.whatsapp.net" }

abbrev blank : Device
blank =
    new_device pair pair 77 (byte_run 32)
      (record { key_pair = pair; key_id = 1; signature = byte_run 64 })

abbrev paired : Device
paired = record blank { id = some me; account = some account; push_name = "zev" }

abbrev at_first : Conn DeviceDb Device
at_first = record {
  db = record {
    devices = [];
    signal = record {
      identity_keys = [];
      sessions = (("31", "4:1"), 1 ∷ []) ∷ [];
      sender_keys = [];
    };
    pre_keys = [];
    app_state = record {
      sync_keys = [];
      versions = (("31", "regular"), (3, byte_run 128)) ∷ [];
      macs = (("31", "regular", 3, byte_run 32), byte_run 32) ∷ [];
    };
    contacts = [];
    chats = [];
    secrets = [];
    salts = ("31", byte_run 4) ∷ ("32", byte_run 4) ∷ [];
    buffers = record { events = []; retries = [] };
    tokens = [];
  };
  mem = paired;
  clock = 0;
}

abbrev quiet : Faults
quiet n = none

paired-accepted : accepted (row_of paired account) ≡ true
unfolding accepted
paired-accepted = refl

paired-Paired : Paired plain_keys paired
paired-Paired = record { noise = refl; identity = refl; signed = refl }

put_device-get_device_example :
    ((put_device quiet at_first).0 ≡ ok tt)
    × ((get_device plain_keys me quiet (put_device quiet at_first).1).0
        ≡ ok (some (initialize_device me paired)))
unfolding lookup
put_device-get_device_example =
    put_device-get_device plain_keys me account quiet at_first refl refl refl paired-Paired
      paired-accepted refl (λ n. refl)

-- The same device over a row with another registration ID.
abbrev other_row : DeviceRow
other_row = record (row_of paired account) { registration_id = 5; push_name = "old" }

abbrev at_second : Conn DeviceDb Device
at_second = record at_first { db = record at_first.db { devices = (me, other_row) ∷ [] } }

other_row-accepted : accepted other_row ≡ true
unfolding accepted
other_row-accepted = refl

put_device-Kept_example :
    (get_device plain_keys me quiet (put_device quiet at_second).1).0
    ≡ ok (
        some (record (initialize_device me (device_of plain_keys me other_row)) {
          lid = paired.lid;
          platform = "";
          business_name = "";
          push_name = "zev";
          lid_migration_timestamp = pos 0;
        }))
unfolding lookup jid_discrete string_discrete ℕ_discrete
put_device-Kept_example =
    put_device-Kept plain_keys me account other_row quiet at_second refl refl paired-accepted
      other_row-accepted refl (λ n. refl)

abbrev first_fails : Faults
first_fails n = if n == 0 then some (record { code = 1; rows = 0 }) else none

device_save-Post_example :
    Post
      (λ u c.
        (lookup jid_discrete me c.db.devices ≡ some (saved_row me account at_first))
        × Provided me paired c.mem)
      (λ c. (c.db ≡ at_first.db) × Provided me paired c.mem)
      (device_save first_fails at_first)
device_save-Post_example = device_save-Post me account first_fails at_first refl refl refl refl

abbrev text_of : Jid → String
text_of j = j.user

at_first-Keyed : Keyed at_first.db
unfolding lookup string_discrete
at_first-Keyed = record {
  identity_keys = tt;
  sessions = (refl, tt);
  sender_keys = tt;
  pre_keys = tt;
  sync_keys = tt;
  versions = (refl, tt);
  macs = (refl, tt);
  contacts = tt;
  chats = tt;
  secrets = tt;
  salts = (refl, (refl, tt));
  events = tt;
  retries = tt;
}

device_delete-Post_example :
    Post
      (λ u c. Erased "31" me at_first.db c.db × (c.mem ≡ deleted_of paired))
      (λ c. (c.db ≡ at_first.db) × (c.mem ≡ paired))
      (device_delete text_of quiet at_first)
unfolding lookup
device_delete-Post_example =
    device_delete-Post text_of me quiet at_first refl refl refl at_first-Keyed

-- Paired, saved and deleted.
abbrev unpaired : Conn DeviceDb Device
unpaired = record at_first { mem = blank }

abbrev to_saved :
    Steps text_of unpaired
      (device_save quiet (record at_first { mem = record paired { push_name = "" } })).1
to_saved =
    next unpaired _ _
      (next unpaired unpaired _ (start unpaired)
        (pairs me paired.lid account "" "" unpaired refl refl))
      (saves quiet _)

Steps-Stage_example :
    Stage (device_save quiet (record at_first { mem = record paired { push_name = "" } })).1.mem
Steps-Stage_example =
    Steps-Stage text_of unpaired _ to_saved
      (new_device-Stage pair pair 77 (byte_run 32) blank.signed_pre_key)

abbrev gone : Conn DeviceDb Device
gone = record at_first { mem = after_delete paired }

gone-Stage : Stage gone.mem
gone-Stage = dead refl refl refl refl

-- Stores that refuse with another error, and a connection to a database.
abbrev refusing : SqlStores (List ℕ) (Unit {0})
refusing = record {
  identities = λ j. noop_identities invalid_call;
  sessions = λ j. noop_sessions invalid_call;
  pre_keys = λ j. noop_pre_keys invalid_call;
  sender_keys = λ j. noop_sender_keys invalid_call;
  app_state_keys = λ j. noop_app_state_keys invalid_call;
  app_state = λ j. noop_app_state invalid_call;
  contacts = λ j. noop_contacts invalid_call;
  chat_settings = λ j. noop_chat_settings invalid_call;
  msg_secrets = λ j. noop_msg_secrets invalid_call;
  privacy_tokens = λ j. noop_privacy_tokens invalid_call;
  nct_salt = λ j. noop_nct_salt invalid_call;
  event_buffer = λ j. noop_event_buffer invalid_call;
}

abbrev some_rows : Conn (List ℕ) (Unit {0})
some_rows = record { db = 1 ∷ []; mem = tt; clock = 4 }

deleted_device_example :
    (gone ≡ gone)
    × (device_save quiet gone ≡ (err device_deleted, gone))
    × (device_delete text_of quiet gone ≡ (ok tt, gone))
    × AllRefuse quiet some_rows refusing gone.mem.stores
deleted_device_example =
    deleted_device text_of quiet gone gone refusing quiet some_rows gone-Stage refl (start gone)

abbrev in_use_device : Device
in_use_device = initialize_device me paired

get_alt_jid-get_alt_jid_example :
    Post
      (λ alt c.
        alt.user ≢ ""
        → Post
            (λ back c'. back ≡ me)
            (λ c'. first_fails c.clock ≢ none)
            (alt_jid wa in_use_device alt first_fails c))
      (λ c. quiet one_row.clock ≢ none)
      (alt_jid wa in_use_device me quiet one_row)
get_alt_jid-get_alt_jid_example =
    get_alt_jid-get_alt_jid wa in_use_device me quiet first_fails one_row refl one_row-InStep

abbrev no_rows_yet : Conn SignalDb (List String)
no_rows_yet = record {
  db = record { identity_keys = []; sessions = []; sender_keys = [] };
  mem = [];
  clock = 0;
}

save_identity-device_trusts_example :
    ((device_trusts text_of in_use_device "4:1"
        (byte_run 31)
        quiet
        (save_identity text_of in_use_device "4:1" (byte_run 32) quiet no_rows_yet).1).0
      ≡ ok (ite (bytes_discrete (byte_run 32) (byte_run 31)) true false))
    × (lookup key_discrete ("31", "4:1") no_rows_yet.db.identity_keys ≡ none
        → (device_trusts text_of in_use_device "4:1" (byte_run 31) quiet no_rows_yet).0 ≡ ok true)
    × ((gone : Device)
        → gone.stores ≡ all_stores (noop_store device_deleted)
        → device_trusts text_of gone "4:1" (byte_run 31) quiet no_rows_yet
          ≡ (err (wrap "failed to check if identity is trusted" device_deleted), no_rows_yet))
save_identity-device_trusts_example =
    save_identity-device_trusts text_of in_use_device me "4:1" (byte_run 32) (byte_run 31) quiet
      no_rows_yet refl (λ n. refl) refl
