-- ===== src/Device/Container.antt =====
-- The methods of `Container` on devices (store/sqlstore/container.go). `text` is `JID.String`.
use zev_bot.Prelude.{
  ℕ, ◌^◌, String, Option, none, some, List, [], ◌∷◌, Bool, true, false, length, str_eq, ◌==◌, ltb,
  ◌&&◌, value_or, if◌then◌else◌,
}
use zev_bot.Table.{Table, lookup, upsert, delete, delete_where}
use zev_bot.Sql.{
  Error, Result, ok, err, invalid_length, constraint, device_id_must_be_set, nil_pointer,
  is_no_rows, Prog, pure, raise, query, query_rows, exec, wrapping, one_row, ◌>>=◌,
}
use zev_bot.Jid.{Jid, empty_jid}
use zev_bot.Lid.Many.{jid_discrete}
use zev_bot.Signal.{Bytes}
use zev_bot.Chats.{pos}
use zev_bot.Device.Types.{
  KeyPair, Keys, PreKey, Account, Store, unset, sql_store, unshared, of_container, Stores, Device,
  DeviceRow, DeviceDb, DeviceProg,
}

-- `SetAllStores` of store/store.go
abbrev pub all_stores : Store → Stores
all_stores s = record {
  identities = s;
  sessions = s;
  pre_keys = s;
  sender_keys = s;
  app_state_keys = s;
  app_state = s;
  contacts = s;
  chat_settings = s;
  msg_secrets = s;
  privacy_tokens = s;
  nct_salt = s;
  event_buffer = s;
}

abbrev pub set_all_stores : Store → Device → Device
set_all_stores s d = record d { stores = all_stores s }

abbrev pub initialize_device : Jid → Device → Device
initialize_device id d = record (set_all_stores (sql_store id) d) {
  lids = of_container;
  container = of_container;
  initialized = true;
}

-- The key pairs, the registration ID, the secret and the signature are drawn at random.
abbrev pub new_device : KeyPair → KeyPair → ℕ → Bytes → PreKey → Device
new_device noise identity registration_id secret signed_pre_key = record {
  noise_key = noise;
  identity_key = identity;
  signed_pre_key = signed_pre_key;
  registration_id = registration_id;
  adv_secret_key = secret;
  id = none;
  lid = empty_jid;
  account = none;
  platform = "";
  business_name = "";
  push_name = "";
  lid_migration_timestamp = pos 0;
  facebook_uuid = 0;
  initialized = false;
  deleted = false;
  stores = all_stores unset;
  lids = unshared;
  container = of_container;
}

-- `uuid.NullUUID{UUID: u, Valid: u != uuid.Nil}`
abbrev pub null_uuid : ℕ → Option ℕ
null_uuid u = if u == 0 then none else some u

-- The row that PutDevice writes.
abbrev pub row_of : Device → Account → DeviceRow
row_of d a = record {
  lid = d.lid;
  registration_id = d.registration_id;
  noise_key = d.noise_key.private_key;
  identity_key = d.identity_key.private_key;
  signed_pre_key = d.signed_pre_key.key_pair.private_key;
  signed_pre_key_id = d.signed_pre_key.key_id;
  signed_pre_key_sig = d.signed_pre_key.signature;
  adv_key = d.adv_secret_key;
  adv_details = a.details;
  adv_account_sig = a.account_signature;
  adv_account_sig_key = a.account_signature_key;
  adv_device_sig = a.device_signature;
  platform = d.platform;
  business_name = d.business_name;
  push_name = d.push_name;
  facebook_uuid = null_uuid d.facebook_uuid;
  lid_migration_ts = d.lid_migration_timestamp;
}

-- The CHECK constraints of the table.
unfoldable pub accepted : DeviceRow → Bool
accepted r =
    ltb r.registration_id (2 ^ 32)
    && length r.noise_key == 32
    && length r.identity_key == 32
    && length r.signed_pre_key == 32
    && ltb r.signed_pre_key_id (2 ^ 24)
    && length r.signed_pre_key_sig == 64
    && length r.adv_account_sig == 64
    && length r.adv_account_sig_key == 32
    && length r.adv_device_sig == 64

-- `ON CONFLICT (jid) DO UPDATE SET …`: the keys of a row that is there stay.
abbrev pub merged : Option DeviceRow → DeviceRow → DeviceRow
merged none r = r
merged (some old) r = record old {
  lid = r.lid;
  platform = r.platform;
  business_name = r.business_name;
  push_name = r.push_name;
  lid_migration_ts = r.lid_migration_ts;
}

abbrev pub insert_device : Jid → DeviceRow → DeviceDb → Result DeviceDb
insert_device id r db =
    if accepted r
    then ok (record db {
      devices = upsert jid_discrete id (merged (lookup jid_discrete id db.devices) r) db.devices;
    })
    else err constraint

-- The device as the method leaves it: its stores are set even where the statement failed.
abbrev pub ensure_initialized : Jid → Device → Device
ensure_initialized id d = if d.initialized then d else initialize_device id d

unfoldable pub put_row : Option Jid → Option Account → DeviceProg (Unit {0})
unfolding accepted
put_row none a = raise device_id_must_be_set
put_row (some id) none = raise nil_pointer
put_row (some id) (some a) = λ f s.
    let (r, c) = exec (insert_device id (row_of s.mem a)) f s in
    (r, record c { mem = ensure_initialized id c.mem })

unfoldable pub put_device : DeviceProg (Unit {0})
unfolding put_row
put_device f s = put_row s.mem.id s.mem.account f s

-- The rows of other owners.
abbrev pub without_owner : {K V : Type 0} → (K → String) → String → Table K V → Table K V
without_owner owner_of owner = delete_where (λ k v. str_eq (owner_of k) owner)

module _ (text : Jid → String) where
  -- `DELETE`, and what `ON DELETE CASCADE` takes with the row: the MACs go with their versions.
  abbrev pub without_device : Jid → DeviceDb → DeviceDb
  without_device id db = record {
    devices = delete jid_discrete id db.devices;
    signal = record {
      identity_keys = without_owner (λ k. k.0) (text id) db.signal.identity_keys;
      sessions = without_owner (λ k. k.0) (text id) db.signal.sessions;
      sender_keys = without_owner (λ k. k.0) (text id) db.signal.sender_keys;
    };
    pre_keys = without_owner (λ k. k.0) (text id) db.pre_keys;
    app_state = record {
      sync_keys = without_owner (λ k. k.0) (text id) db.app_state.sync_keys;
      versions = without_owner (λ k. k.0) (text id) db.app_state.versions;
      macs = without_owner (λ k. k.0) (text id) db.app_state.macs;
    };
    contacts = without_owner (λ k. k.0) (text id) db.contacts;
    chats = without_owner (λ k. k.0) (text id) db.chats;
    secrets = without_owner (λ k. k.0) (text id) db.secrets;
    salts = without_owner (λ k. k) (text id) db.salts;
    buffers = record {
      events = without_owner (λ k. k.0) (text id) db.buffers.events;
      retries = without_owner (λ k. k.0) (text id) db.buffers.retries;
    };
    tokens = db.tokens;
  }

  unfoldable pub delete_row : Option Jid → DeviceProg (Unit {0})
  delete_row none = raise device_id_must_be_set
  delete_row (some id) = exec (λ db. ok (without_device id db))

  unfoldable pub delete_device : DeviceProg (Unit {0})
  unfolding delete_row
  delete_device f s = delete_row s.mem.id f s

-- What the caller of `GetDevice` gets: nothing where there is no row.
abbrev pub no_device : Result Device → Result (Option Device)
no_device (ok d) = ok (some d)
no_device (err e) = if is_no_rows e then ok none else err e

abbrev pub first_or : Device → List Device → Device
first_or fresh [] = fresh
first_or fresh (d ∷ ds) = d

module _ (keys : Keys) where
  -- The device that a row spells, before its stores are set.
  abbrev pub device_of : Jid → DeviceRow → Device
  device_of id r = record {
    noise_key = keys.from_private r.noise_key;
    identity_key = keys.from_private r.identity_key;
    signed_pre_key = record {
      key_pair = keys.from_private r.signed_pre_key;
      key_id = r.signed_pre_key_id;
      signature = r.signed_pre_key_sig;
    };
    registration_id = r.registration_id;
    adv_secret_key = r.adv_key;
    id = some id;
    lid = r.lid;
    account = some (record {
      details = r.adv_details;
      account_signature = r.adv_account_sig;
      account_signature_key = r.adv_account_sig_key;
      device_signature = r.adv_device_sig;
    });
    platform = r.platform;
    business_name = r.business_name;
    push_name = r.push_name;
    lid_migration_timestamp = r.lid_migration_ts;
    facebook_uuid = value_or 0 r.facebook_uuid;
    initialized = false;
    deleted = false;
    stores = all_stores unset;
    lids = unshared;
    container = unshared;
  }

  unfoldable pub scan_device : Jid → DeviceRow → Result Device
  scan_device id r =
      if length r.noise_key == 32
        && length r.identity_key == 32
        && length r.signed_pre_key == 32
        && length r.signed_pre_key_sig == 64
      then ok (initialize_device id (device_of id r))
      else err invalid_length

  unfoldable pub scan_all : Table Jid DeviceRow → Result (List Device)
  unfolding scan_device
  scan_all [] = ok []
  scan_all ((id, r) ∷ rows) = elim (scan_device id r) [
    | err e ↦ err e
    | ok d ↦ elim (scan_all rows) [ err e ↦ err e | ok ds ↦ ok (d ∷ ds) ]
  ]

  module _ {C : Type 0} where
    abbrev lift : {A : Type 0} → Result A → Prog DeviceDb C A
    lift (ok a) = pure a
    lift (err e) = raise e

    unfoldable pub get_device : Jid → Prog DeviceDb C (Option Device)
    unfolding scan_device is_no_rows
    get_device jid f s =
        let (r, c) =
          (wrapping "failed to scan session"
                (query (λ db. one_row (lookup jid_discrete jid db.devices)))
              >>= λ row. lift (scan_device jid row))
            f s in
        (no_device r, c)

    abbrev end_of_devices : Table Jid DeviceRow × Option Error → Prog DeviceDb C (List Device)
    end_of_devices (rows, none) = lift (scan_all rows)
    end_of_devices (rows, some e) = elim (scan_all rows) [ err x ↦ raise x | ok ds ↦ raise e ]

    unfoldable pub get_all_devices : Prog DeviceDb C (List Device)
    unfolding scan_all
    get_all_devices = query_rows (λ db. db.devices) >>= end_of_devices

    unfoldable pub get_first_device : Device → Prog DeviceDb C Device
    unfolding get_all_devices
    get_first_device fresh = do ds ← get_all_devices; pure (first_or fresh ds)
