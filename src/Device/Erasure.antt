-- ===== src/Device/Erasure.antt =====
-- What `Delete` (store/store.go) leaves behind, when it returns and when it fails.
use zev_bot.Prelude.{
  ite, ◌≡◌, refl, sym, subst, String, none, some, true, false, string_discrete, arith, ap, str_eq,
}
use zev_bot.Table.{Table, Distinct, lookup, lookup-delete, lookup-delete_where}
use zev_bot.Sql.{◌>>=◌, ok-injective, device_deleted, ok, Conn, Faults, exec}
use zev_bot.Sql.Post.{Post, exec-Post, bind-Post}
use zev_bot.Jid.{Jid}
use zev_bot.Lid.Many.{jid_discrete}
use zev_bot.Signal.{key_discrete, sender_key_id_discrete}
use zev_bot.PreKeys.{pre_key_id_discrete}
use zev_bot.AppState.{sync_key_id_discrete, mac_id_discrete}
use zev_bot.Events.{secret_id_discrete, retry_id_discrete}
use zev_bot.Device.Types.{noop_store, Device, DeviceDb, DeviceProg, of_container}
use zev_bot.Device.Container.{without_device, without_owner, delete_device, delete_row}
use zev_bot.Device.Methods.{call_shared, device_delete, mark_deleted, after_delete}
use zev_bot.Device.Outcome.{stores_of}

-- The rows of one owner, in a table keyed by the owner and a name.
module _ {K V : Type 0} (dec : Discrete K) (owner_of : K → String) where
  -- The rows of `owner` are gone, and those of others are what they were.
  abbrev pub Purged : String → Table K V → Table K V → Type 0
  Purged owner before after =
      (k : K)
      → lookup dec k after ≡ ite (string_discrete (owner_of k) owner) none (lookup dec k before)

  without_owner-Purged :
      (owner : String) (t : Table K V)
      → Distinct dec t
      → Purged owner t (without_owner owner_of owner t)
  without_owner-Purged owner t d k =
      ground (arith, lookup-delete_where dec (λ k v. str_eq (owner_of k) owner) k t d)

-- The tables with no row of the device left and the rows of the others as they were; the privacy tokens,
-- which do not refer to the device, all stay.
pub record Erased (owner : String) (id : Jid) (before after : DeviceDb) : Type 0 where
  pub device :
      (j : Jid)
      → lookup jid_discrete j after.devices
        ≡ ite (jid_discrete id j) none (lookup jid_discrete j before.devices)
  pub identity_keys :
      Purged key_discrete (λ k. k.0) owner before.signal.identity_keys after.signal.identity_keys
  pub sessions : Purged key_discrete (λ k. k.0) owner before.signal.sessions after.signal.sessions
  pub sender_keys :
      Purged sender_key_id_discrete
        (λ k. k.0)
        owner
        before.signal.sender_keys
        after.signal.sender_keys
  pub pre_keys : Purged pre_key_id_discrete (λ k. k.0) owner before.pre_keys after.pre_keys
  pub sync_keys :
      Purged sync_key_id_discrete
        (λ k. k.0)
        owner
        before.app_state.sync_keys
        after.app_state.sync_keys
  pub versions :
      Purged key_discrete (λ k. k.0) owner before.app_state.versions after.app_state.versions
  pub macs : Purged mac_id_discrete (λ k. k.0) owner before.app_state.macs after.app_state.macs
  pub contacts : Purged key_discrete (λ k. k.0) owner before.contacts after.contacts
  pub chats : Purged key_discrete (λ k. k.0) owner before.chats after.chats
  pub secrets : Purged secret_id_discrete (λ k. k.0) owner before.secrets after.secrets
  pub salts : Purged string_discrete (λ k. k) owner before.salts after.salts
  pub events :
      Purged sync_key_id_discrete (λ k. k.0) owner before.buffers.events after.buffers.events
  pub retries :
      Purged retry_id_discrete (λ k. k.0) owner before.buffers.retries after.buffers.retries
  pub tokens : after.tokens ≡ before.tokens

-- The primary keys of the tables.
pub record Keyed (d : DeviceDb) : Type 0 where
  pub identity_keys : Distinct key_discrete d.signal.identity_keys
  pub sessions : Distinct key_discrete d.signal.sessions
  pub sender_keys : Distinct sender_key_id_discrete d.signal.sender_keys
  pub pre_keys : Distinct pre_key_id_discrete d.pre_keys
  pub sync_keys : Distinct sync_key_id_discrete d.app_state.sync_keys
  pub versions : Distinct key_discrete d.app_state.versions
  pub macs : Distinct mac_id_discrete d.app_state.macs
  pub contacts : Distinct key_discrete d.contacts
  pub chats : Distinct key_discrete d.chats
  pub secrets : Distinct secret_id_discrete d.secrets
  pub salts : Distinct string_discrete d.salts
  pub events : Distinct sync_key_id_discrete d.buffers.events
  pub retries : Distinct retry_id_discrete d.buffers.retries

-- What a delete makes of the device: it has no JID and no LID, and all its stores are the one that answers
-- with `ErrDeviceDeleted`. The LID map and the container, which all devices share, stay.
abbrev pub deleted_of : Device → Device
deleted_of d = record d {
  id = none;
  lid = record { user = ""; device = 0; server = "" };
  deleted = true;
  stores = stores_of (noop_store device_deleted);
}

module _ (text : Jid → String) (id : Jid) (f : Faults) (s : Conn DeviceDb Device) where
  without_device-Erased :
      (d : DeviceDb) → Keyed d → Erased (text id) id d (without_device text id d)
  without_device-Erased d k = record {
    device = λ j. lookup-delete jid_discrete j id d.devices;
    identity_keys =
        without_owner-Purged key_discrete (λ k. k.0) (text id) d.signal.identity_keys
          k.identity_keys;
    sessions = without_owner-Purged key_discrete (λ k. k.0) (text id) d.signal.sessions k.sessions;
    sender_keys =
        without_owner-Purged sender_key_id_discrete (λ k. k.0) (text id) d.signal.sender_keys
          k.sender_keys;
    pre_keys = without_owner-Purged pre_key_id_discrete (λ k. k.0) (text id) d.pre_keys k.pre_keys;
    sync_keys =
        without_owner-Purged sync_key_id_discrete (λ k. k.0) (text id) d.app_state.sync_keys
          k.sync_keys;
    versions =
        without_owner-Purged key_discrete (λ k. k.0) (text id) d.app_state.versions k.versions;
    macs = without_owner-Purged mac_id_discrete (λ k. k.0) (text id) d.app_state.macs k.macs;
    contacts = without_owner-Purged key_discrete (λ k. k.0) (text id) d.contacts k.contacts;
    chats = without_owner-Purged key_discrete (λ k. k.0) (text id) d.chats k.chats;
    secrets = without_owner-Purged secret_id_discrete (λ k. k.0) (text id) d.secrets k.secrets;
    salts = without_owner-Purged string_discrete (λ k. k) (text id) d.salts k.salts;
    events =
        without_owner-Purged sync_key_id_discrete (λ k. k.0) (text id) d.buffers.events k.events;
    retries =
        without_owner-Purged retry_id_discrete (λ k. k.0) (text id) d.buffers.retries k.retries;
    tokens = refl;
  }

  -- A delete that returns has taken the row of the device and its rows in the thirteen other tables that
  -- refer to it, and no row of another; the privacy tokens, which do not refer to it, all stay. It has left
  -- the device without its JID and LID, and with stores that are all NoopStores with ErrDeviceDeleted. One
  -- that fails has changed nothing. The device is not deleted, and has its JID and its container.
  pub device_delete-Post :
      s.mem.deleted ≡ false
      → s.mem.id ≡ some id
      → s.mem.container ≡ of_container
      → Keyed s.db
      → Post
          (λ u c. Erased (text id) id s.db c.db × (c.mem ≡ deleted_of s.mem))
          (λ c. (c.db ≡ s.db) × (c.mem ≡ s.mem))
          (device_delete text f s)
  unfolding device_delete delete_device delete_row call_shared
  device_delete-Post alive e k keyed = subst (Post Q E) (sym (runs alive k)) (
      bind-Post Q' Q E delete mark f s
        (subst (Post Q' E) (sym (deletes e)) (
          exec-Post Q' E (λ db. ok (without_device text id db)) f s (refl, refl)
            (λ d r. (
              subst (Erased (text id) id s.db) (ok-injective r) (without_device-Erased s.db keyed),
              refl,
            ))))
        (λ u c (gone, mem). (gone, ap after_delete mem)))
    where
      Q : Unit {0} → Conn DeviceDb Device → Type 0
      Q u c = Erased (text id) id s.db c.db × (c.mem ≡ deleted_of s.mem)

      Q' : Unit {0} → Conn DeviceDb Device → Type 0
      Q' u c = Erased (text id) id s.db c.db × (c.mem ≡ s.mem)

      E : Conn DeviceDb Device → Type 0
      E c = (c.db ≡ s.db) × (c.mem ≡ s.mem)

      delete : DeviceProg (Unit {0})
      delete = delete_device text

      mark : Unit {0} → DeviceProg (Unit {0})
      mark = mark_deleted

      runs :
          s.mem.deleted ≡ false
          → s.mem.container ≡ of_container
          → device_delete text f s ≡ (delete_device text >>= mark_deleted) f s
      runs alive k = ground (arith, alive, k)

      deletes :
          s.mem.id ≡ some id
          → delete_device text f s ≡ exec (λ db. ok (without_device text id db)) f s
      deletes e = ground (arith, e)
