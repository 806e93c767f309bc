-- ===== src/Device/Outcome.antt =====
-- What `Save` (store/store.go) leaves behind, when it returns and when it fails.
use zev_bot.Prelude.{
  ◌≡◌, refl, ap₂, sym, subst, ◌∙◌, some, Bool, true, if◌then◌else◌, false, arith, if_pos,
}
use zev_bot.Table.{upsert, lookup, lookup-upsert}
use zev_bot.Sql.{ok-injective, Result, ok, err, constraint, Conn, Faults, exec}
use zev_bot.Sql.Post.{Post, exec-Post}
use zev_bot.Jid.{Jid}
use zev_bot.Lid.Many.{jid_discrete}
use zev_bot.Device.Types.{Account, Store, sql_store, Stores, Device, DeviceDb, of_container}
use zev_bot.Device.Container.{
  accepted, row_of, insert_device, ensure_initialized, put_row, put_device,
}
use zev_bot.Device.Methods.{call_shared, device_save}
use zev_bot.Device.RoundTrip.{saved_row}

-- All stores of a device are `st`.
abbrev pub stores_of : Store → Stores
stores_of st = record {
  identities = st;
  sessions = st;
  pre_keys = st;
  sender_keys = st;
  app_state_keys = st;
  app_state = st;
  contacts = st;
  chat_settings = st;
  msg_secrets = st;
  privacy_tokens = st;
  nct_salt = st;
  event_buffer = st;
}

-- A device that was not initialized has got its stores, and one that was has not changed.
abbrev pub Provided : Jid → Device → Device → Type 0
Provided id before after =
    (before.initialized ≡ false
      → after ≡ record before {
        initialized = true;
        stores = stores_of (sql_store id);
        lids = of_container;
        container = of_container;
      })
    × (before.initialized ≡ true → after ≡ before)

provided :
    (id : Jid) (before d : Device) → d ≡ before → Provided id before (ensure_initialized id d)
provided id before d e =
    subst (λ x. Provided id before (ensure_initialized id x)) (sym e)
      (λ i. ground (arith, i), λ i. ground (arith, i))

module _ (id : Jid) (a : Account) (f : Faults) (s : Conn DeviceDb Device) where
  Stored : DeviceDb → Type 0
  Stored d = lookup jid_discrete id d.devices ≡ some (saved_row id a s)

  insert_device-Stored : (d : DeviceDb) → insert_device id (row_of s.mem a) s.db ≡ ok d → Stored d
  unfolding Stored
  insert_device-Stored d = at (accepted (row_of s.mem a))
    where
      new : DeviceDb
      new = record s.db { devices = upsert jid_discrete id (saved_row id a s) s.db.devices }

      at : (b : Bool) → (if b then ok new else err constraint) ≡ ok d → Stored d
      at false e = ground (arith, e)
      at true e = subst Stored (ok-injective e) (
          lookup-upsert jid_discrete id id (saved_row id a s) s.db.devices
          ∙ if_pos (jid_discrete id id) refl _ _)

  -- A save returns with the row that the constraint left in the table, or fails with the tables as
  -- they were. Either way a device that was not initialized has all its stores of its JID, the LID map
  -- and the container, and is as it was otherwise, and one that was initialized is as it was. The device
  -- is not deleted, and has its JID, its account and its container.
  pub device_save-Post :
      s.mem.deleted ≡ false
      → s.mem.id ≡ some id
      → s.mem.account ≡ some a
      → s.mem.container ≡ of_container
      → Post
          (λ u c.
            (lookup jid_discrete id c.db.devices ≡ some (saved_row id a s))
            × Provided id s.mem c.mem)
          (λ c. (c.db ≡ s.db) × Provided id s.mem c.mem)
          (device_save f s)
  unfolding Stored device_save put_device put_row call_shared
  device_save-Post alive e h k =
      subst (Post Q E) (sym (saved alive k ∙ ap₂ (λ o b. put_row o b f s) e h)) (
        set (exec (insert_device id (row_of s.mem a)) f s) (
          exec-Post (λ u c. Stored c.db × (c.mem ≡ s.mem)) (λ c. (c.db ≡ s.db) × (c.mem ≡ s.mem))
            (insert_device id (row_of s.mem a)) f s (refl, refl)
            (λ d e. (insert_device-Stored d e, refl))))
    where
      Q : Unit {0} → Conn DeviceDb Device → Type 0
      Q u c = Stored c.db × Provided id s.mem c.mem

      E : Conn DeviceDb Device → Type 0
      E c = (c.db ≡ s.db) × Provided id s.mem c.mem

      saved :
          s.mem.deleted ≡ false
          → s.mem.container ≡ of_container
          → device_save f s ≡ put_row s.mem.id s.mem.account f s
      saved alive k = ground (arith, alive, k)

      set :
          (r : Result (Unit {0}) × Conn DeviceDb Device)
          → Post (λ u c. Stored c.db × (c.mem ≡ s.mem)) (λ c. (c.db ≡ s.db) × (c.mem ≡ s.mem)) r
          → Post Q E (r.0, record r.1 { mem = ensure_initialized id r.1.mem })
      set (ok u, c) (row, mem) = (row, provided id s.mem c.mem mem)
      set (err x, c) (db, mem) = (db, provided id s.mem c.mem mem)
