-- ===== src/Device/RoundTrip.antt =====
-- `PutDevice` and then `GetDevice` (store/sqlstore/container.go).
use zev_bot.Prelude.{
  if_pos, ℕ, ◌+◌, ◌≡◌, refl, ap, ap₂, ◌∙◌, none, some, true, false, ◌==◌, arith, value_or, length,
  ◌&&◌,
}
use zev_bot.Table.{lookup, lookup-upsert, upsert}
use zev_bot.Sql.{ok, Conn, Faults, exec-quiet, query, wrapping, ◌>>=◌, one_row}
use zev_bot.Jid.{Jid}
use zev_bot.Lid.Many.{jid_discrete}
use zev_bot.Device.Types.{Keys, Account, Device, DeviceRow, DeviceDb}
use zev_bot.Device.Container.{
  null_uuid, row_of, accepted, merged, insert_device, ensure_initialized, put_row, put_device,
  device_of, initialize_device, scan_device, get_device,
}

value_or-null_uuid : (u : ℕ) → value_or 0 (null_uuid u) ≡ u
value_or-null_uuid u = ground arith

-- The lengths that `scanDevice` asks for are among the constraints of the table.
accepted-lengths :
    (r : DeviceRow)
    → accepted r ≡ true
    → (length r.noise_key == 32
        && length r.identity_key == 32
        && length r.signed_pre_key == 32
        && length r.signed_pre_key_sig == 64)
      ≡ true
unfolding accepted
accepted-lengths r e = ground (arith, e)

-- The key pairs of a device are those of their private keys.
pub record Paired (keys : Keys) (d : Device) : Type 0 where
  pub noise : keys.from_private d.noise_key.private_key ≡ d.noise_key
  pub identity : keys.from_private d.identity_key.private_key ≡ d.identity_key
  pub signed : keys.from_private d.signed_pre_key.key_pair.private_key ≡ d.signed_pre_key.key_pair

module _ (keys : Keys) where
  device_of-row_of :
      (d : Device) (a : Account) (id : Jid)
      → d.id ≡ some id
      → d.account ≡ some a
      → d.deleted ≡ false
      → Paired keys d
      → initialize_device id (device_of keys id (row_of d a)) ≡ initialize_device id d
  device_of-row_of d a id e h alive p =
      rw (p.noise, p.identity, p.signed, value_or-null_uuid d.facebook_uuid, e, h, alive) refl

  pub get_device-accepted :
      {C : Type 0} (id : Jid) (r : DeviceRow) (f : Faults) (s : Conn DeviceDb C)
      → f s.clock ≡ none
      → lookup jid_discrete id s.db.devices ≡ some r
      → accepted r ≡ true
      → (get_device keys id f s).0 ≡ ok (some (initialize_device id (device_of keys id r)))
  unfolding get_device scan_device query
  get_device-accepted id r f s quiet e good =
      rw
        (
          quiet,
          e,
          accepted-lengths r good,
          get_device,
          query,
          wrapping,
          ◌>>=◌,
          scan_device,
          one_row,
        )
        refl

-- The row that `PutDevice` leaves.
abbrev pub saved_row : Jid → Account → Conn DeviceDb Device → DeviceRow
saved_row id a s = merged (lookup jid_discrete id s.db.devices) (row_of s.mem a)

module _ (id : Jid) (a : Account) (f : Faults) (s : Conn DeviceDb Device) where
  pub put_device-quiet :
      s.mem.id ≡ some id
      → s.mem.account ≡ some a
      → f s.clock ≡ none
      → accepted (row_of s.mem a) ≡ true
      → put_device f s ≡ (
        ok tt,
        record {
          db = record s.db { devices = upsert jid_discrete id (saved_row id a s) s.db.devices };
          mem = ensure_initialized id s.mem;
          clock = s.clock + 1;
        },
      )
  unfolding put_device put_row
  put_device-quiet e h quiet good =
      ap₂ (λ o b. put_row o b f s) e h
      ∙ ap (λ r. (r.0, record r.1 { mem = ensure_initialized id r.1.mem }))
          (exec-quiet (insert_device id (row_of s.mem a)) f s
            (record s.db { devices = upsert jid_discrete id (saved_row id a s) s.db.devices }) quiet
            (rw (good) refl))

  -- The row that GetDevice then finds.
  saved-get_device :
      (keys : Keys) (r : DeviceRow)
      → s.mem.id ≡ some id
      → s.mem.account ≡ some a
      → accepted (row_of s.mem a) ≡ true
      → saved_row id a s ≡ r
      → accepted r ≡ true
      → ((n : ℕ) → f n ≡ none)
      → (get_device keys id f (put_device f s).1).0
        ≡ ok (some (initialize_device id (device_of keys id r)))
  saved-get_device keys r e h good same good' quiet =
      ap (λ c. (get_device keys id f c.1).0) (put_device-quiet e h (quiet s.clock) good)
      ∙ get_device-accepted keys id r f _ (quiet (s.clock + 1))
          (lookup-upsert jid_discrete id id (saved_row id a s) s.db.devices
            ∙ if_pos (jid_discrete id id) refl _ _
            ∙ ap some same)
          good'

-- A device that is saved for the first time, or again over its own row, is what GetDevice returns:
-- initialized, with every other field as it was saved. `d` is a device that is not deleted, with its
-- JID and its account, whose row the constraints of the table accept; neither statement fails.
pub put_device-get_device :
    (keys : Keys) (id : Jid) (a : Account) (f : Faults) (s : Conn DeviceDb Device)
    → s.mem.id ≡ some id
    → s.mem.account ≡ some a
    → s.mem.deleted ≡ false
    → Paired keys s.mem
    → accepted (row_of s.mem a) ≡ true
    → saved_row id a s ≡ row_of s.mem a
    → ((n : ℕ) → f n ≡ none)
    → ((put_device f s).0 ≡ ok tt)
      × ((get_device keys id f (put_device f s).1).0 ≡ ok (some (initialize_device id s.mem)))
put_device-get_device keys id a f s e h alive paired good same quiet = (
  ap (λ c. c.0) (put_device-quiet id a f s e h (quiet s.clock) good),
  saved-get_device id a f s keys (row_of s.mem a) e h good same good quiet
      ∙ ap (λ d. ok (some d)) (device_of-row_of keys s.mem a id e h alive paired),
)

-- Over a row that is there, `PutDevice` keeps the registration ID, the keys, the account and the UUID
-- of the row, whatever the device has.
pub put_device-Kept :
    (keys : Keys) (id : Jid) (a : Account) (old : DeviceRow) (f : Faults) (s : Conn DeviceDb Device)
    → s.mem.id ≡ some id
    → s.mem.account ≡ some a
    → accepted (row_of s.mem a) ≡ true
    → accepted old ≡ true
    → lookup jid_discrete id s.db.devices ≡ some old
    → ((n : ℕ) → f n ≡ none)
    → (get_device keys id f (put_device f s).1).0
      ≡ ok (
          some (record (initialize_device id (device_of keys id old)) {
            lid = s.mem.lid;
            platform = s.mem.platform;
            business_name = s.mem.business_name;
            push_name = s.mem.push_name;
            lid_migration_timestamp = s.mem.lid_migration_timestamp;
          }))
unfolding accepted
put_device-Kept keys id a old f s e h good good' found quiet =
    saved-get_device id a f s keys (merged (some old) (row_of s.mem a)) e h good
      (ap (λ o. merged o (row_of s.mem a)) found) good' quiet
