-- ===== src/Device/Methods.antt =====
-- The methods of `Device` (store/store.go), and a method of one of its stores.
use zev_bot.Prelude.{String, Option, none, some, true, if◌then◌else◌, value_or, str_eq}
use zev_bot.Sql.{Error, ok, err, device_deleted, nil_pointer, Prog, pure, raise, ◌>>=◌}
use zev_bot.Jid.{Jid, Types, empty_jid}
use zev_bot.Device.Types.{
  Store, unset, sql_store, noop_store, Shared, unshared, of_container, noop_shared, Device,
  DeviceProg,
}
use zev_bot.Device.Noop.{noop_container, noop_lids}
use zev_bot.Device.Container.{set_all_stores, put_device, delete_device}

-- The device may be nil.
abbrev pub get_jid : Option Device → Jid
get_jid none = empty_jid
get_jid (some d) = value_or empty_jid d.id

abbrev pub get_lid : Option Device → Jid
get_lid none = empty_jid
get_lid (some d) = d.lid

-- A method of the interface that a field holds: the `SQLStore`'s, or the `NoopStore`'s.
module _ {D C A : Type 0} where
  unfoldable pub call : (Jid → Prog D C A) → (Error → Prog D C A) → Store → Prog D C A
  call sql noop unset = raise nil_pointer
  call sql noop (sql_store j) = sql j
  call sql noop (noop_store e) = noop e

  unfoldable pub call_shared : Prog D C A → (Error → Prog D C A) → Shared → Prog D C A
  call_shared sql noop unshared = raise nil_pointer
  call_shared sql noop of_container = sql
  call_shared sql noop (noop_shared e) = noop e

unfoldable pub device_save : DeviceProg (Unit {0})
unfolding call_shared put_device
device_save f s =
    if s.mem.deleted
    then (err device_deleted, s)
    else call_shared put_device (λ e. (noop_container e).put_device) s.mem.container f s

-- What `Delete` makes of the device once its row is gone.
abbrev pub after_delete : Device → Device
after_delete d =
    set_all_stores (noop_store device_deleted)
      (record d { id = none; lid = empty_jid; deleted = true })

abbrev pub mark_deleted : Unit {0} → DeviceProg (Unit {0})
mark_deleted u f s = (ok tt, record s { mem = after_delete s.mem })

module _ (text : Jid → String) where
  unfoldable pub device_delete : DeviceProg (Unit {0})
  unfolding call_shared delete_device
  device_delete f s =
      if s.mem.deleted
      then (ok tt, s)
      else (call_shared (delete_device text) (λ e. (noop_container e).delete_device) s.mem.container
            >>= mark_deleted)
          f s

-- `GetAltJID`, by the two lookups of the LID map that the device holds.
module _ {D C : Type 0} (types : Types) where
  unfoldable pub get_alt_jid :
      (Jid → Prog D C Jid) → (Jid → Prog D C Jid) → Option Device → Jid → Prog D C Jid
  unfolding call_shared
  get_alt_jid get_lid_for_pn get_pn_for_lid none jid = pure empty_jid
  get_alt_jid get_lid_for_pn get_pn_for_lid (some d) jid =
      if str_eq jid.server types.default_user_server
      then call_shared (get_lid_for_pn jid) (λ e. (noop_lids e).get_lid_for_pn jid) d.lids
      else if str_eq jid.server types.hidden_user_server
      then call_shared (get_pn_for_lid jid) (λ e. (noop_lids e).get_pn_for_lid jid) d.lids
      else pure empty_jid
