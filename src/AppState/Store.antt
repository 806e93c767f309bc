-- ===== src/AppState/Store.antt =====
-- The tables `app_state_sync_keys`, `app_state_version` and `app_state_mutation_macs`, and their methods
-- of `SQLStore` (store/sqlstore/store.go). `jid` is the device's own JID.
use zev_bot.Prelude.{
  ℕ, String, Option, none, some, List, [], ◌∷◌, Bool, true, false, ◌&&◌, ltb, ◌==◌, ite, length,
  str_eq, string_discrete, ℕ_discrete, if◌then◌else◌,
}
use mathlib.Core.Option
use zev_bot.Table.{Table, lookup, upsert, delete, delete_where}
use zev_bot.Sql.{
  Error, Result, ok, err, invalid_length, constraint, external, Prog, pure, raise, query_or,
  query_rows, exec, ◌>>=◌, ◌>>◌, Txn,
}
use zev_bot.Signal.{Bytes, Key, key_discrete, bytes_discrete}
use zev_bot.Chats.{ℤ, pos, negsuc}
use zev_bot.Contacts.{chunks}

-- (jid, key_id)
abbrev pub SyncKeyId : Type 0
SyncKeyId = String × Bytes

unfoldable pub sync_key_id_discrete : Discrete SyncKeyId
sync_key_id_discrete = hlevel (string_discrete, ℕ_discrete)

-- (jid, name, version, index_mac)
abbrev pub MacId : Type 0
MacId = String × String × ℕ × Bytes

unfoldable pub mac_id_discrete : Discrete MacId
mac_id_discrete = hlevel (string_discrete, ℕ_discrete)

-- `store.AppStateSyncKey`
pub record SyncKey : Type 0 where
  pub data_bytes : Bytes
  pub fingerprint : Bytes
  pub timestamp : ℤ

-- `store.AppStateMutationMAC`
pub record Mutation : Type 0 where
  pub index_mac : Bytes
  pub value_mac : Bytes

pub record AppStateDb : Type 0 where
  pub sync_keys : Table SyncKeyId SyncKey
  pub versions : Table Key (ℕ × Bytes)
  pub macs : Table MacId Bytes

-- `<` of BIGINT
unfoldable pub less : ℤ → ℤ → Bool
less (pos a) (pos b) = ltb a b
less (pos a) (negsuc b) = false
less (negsuc a) (pos b) = true
less (negsuc a) (negsuc b) = ltb b a

-- `ON CONFLICT … DO UPDATE … WHERE excluded.timestamp > app_state_sync_keys.timestamp`
unfoldable pub newer : Option SyncKey → SyncKey → SyncKey
unfolding less
newer none key = key
newer (some old) key = if less old.timestamp key.timestamp then key else old

-- The key with the greatest timestamp: `ORDER BY timestamp DESC LIMIT 1`
abbrev later : SyncKeyId × SyncKey → Option (SyncKeyId × SyncKey) → Option (SyncKeyId × SyncKey)
later row none = some row
later row (some best) = if less row.1.timestamp best.1.timestamp then some best else some row

unfoldable pub latest : String → Table SyncKeyId SyncKey → Option (SyncKeyId × SyncKey)
unfolding less
latest jid [] = none
latest jid ((k, v) ∷ t) =
    let rest = latest jid t in if str_eq k.0 jid then later (k, v) rest else rest

-- `ORDER BY timestamp DESC`, of the keys of the device
unfoldable pub insert_by_time : SyncKey → List SyncKey → List SyncKey
unfolding less
insert_by_time key [] = key ∷ []
insert_by_time key (x ∷ xs) =
    let rest = insert_by_time key xs in
    if less key.timestamp x.timestamp then x ∷ rest else key ∷ x ∷ xs

unfoldable pub keys_by_time : String → Table SyncKeyId SyncKey → List SyncKey
unfolding insert_by_time
keys_by_time jid [] = []
keys_by_time jid ((k, v) ∷ t) =
    let rest = keys_by_time jid t in if str_eq k.0 jid then insert_by_time v rest else rest

-- The row with the greatest version for an index MAC, and its version.
abbrev better : ℕ × Bytes → Option (ℕ × Bytes) → Option (ℕ × Bytes)
better row none = some row
better row (some best) = if ltb row.0 best.0 then some best else some row

abbrev pub is_mac : String → String → Bytes → MacId → Bool
is_mac jid name index k =
    str_eq k.0 jid && str_eq k.1 name && ite (bytes_discrete k.3 index) true false

unfoldable pub newest : String → String → Bytes → Table MacId Bytes → Option (ℕ × Bytes)
newest jid name index [] = none
newest jid name index ((k, v) ∷ t) =
    let rest = newest jid name index t in
    if is_mac jid name index k then better (k.2, v) rest else rest

-- One row of the INSERT: the lengths are checked, a row of the version must be there, and the primary
-- key must be new.
unfoldable pub insert_mac : String → String → ℕ → Mutation → AppStateDb → Result AppStateDb
insert_mac jid name version m d =
    if length m.index_mac == 32 && length m.value_mac == 32
    then elim (lookup key_discrete (jid, name) d.versions) [
      | none ↦ err constraint
      | some v ↦ elim (lookup mac_id_discrete (jid, name, version, m.index_mac) d.macs) [
        | some w ↦ err constraint
        | none ↦ ok (record d { macs = ((jid, name, version, m.index_mac), m.value_mac) ∷ d.macs })
      ]
    ]
    else err constraint

unfoldable pub insert_macs : String → String → ℕ → List Mutation → AppStateDb → Result AppStateDb
unfolding insert_mac
insert_macs jid name version [] d = ok d
insert_macs jid name version (m ∷ ms) d = elim (insert_mac jid name version m d) [
  | err e ↦ err e
  | ok d' ↦ insert_macs jid name version ms d'
]

abbrev pub mutation_batch_size : ℕ
mutation_batch_size = 400

unfoldable pub among : List Bytes → Bytes → Bool
among [] b = false
among (a ∷ as₁) b = let rest = among as₁ b in ite (bytes_discrete a b) true rest

module _ {C : Type 0} (jid : String) where
  unfoldable pub put_app_state_sync_key : Bytes → SyncKey → Prog AppStateDb C (Unit {0})
  unfolding newer
  put_app_state_sync_key id key = exec (λ d. ok (record d {
    sync_keys =
        upsert sync_key_id_discrete (jid, id)
          (newer (lookup sync_key_id_discrete (jid, id) d.sync_keys) key) d.sync_keys;
  }))

  abbrev all_keys : List SyncKey × Option Error → Prog AppStateDb C (List SyncKey)
  all_keys (keys, none) = pure keys
  all_keys (keys, some e) = raise e

  unfoldable pub get_all_app_state_sync_keys : Prog AppStateDb C (List SyncKey)
  unfolding keys_by_time
  get_all_app_state_sync_keys = query_rows (λ d. keys_by_time jid d.sync_keys) >>= all_keys

  unfoldable pub get_app_state_sync_key : Bytes → Prog AppStateDb C (Option SyncKey)
  get_app_state_sync_key id =
      query_or none (λ d. Option.map some (lookup sync_key_id_discrete (jid, id) d.sync_keys))

  unfoldable pub get_latest_app_state_sync_key_id : Prog AppStateDb C (Option Bytes)
  unfolding latest
  get_latest_app_state_sync_key_id =
      query_or none (λ d. Option.map (λ row. some row.0.1) (latest jid d.sync_keys))

  unfoldable pub put_app_state_version : String → ℕ → Bytes → Prog AppStateDb C (Unit {0})
  put_app_state_version name version hash = exec (λ d.
      if length hash == 128
      then ok (record d { versions = upsert key_discrete (jid, name) (version, hash) d.versions })
      else err constraint)

  -- No row is version 0 with the empty hash; a stored version 0 is an error.
  abbrev checked_version : Option (ℕ × Bytes) → Prog AppStateDb C (ℕ × Option Bytes)
  checked_version none = pure (0, none)
  checked_version (some (version, hash)) =
      if length hash == 128
      then if version == 0 then raise (external 1) else pure (version, some hash)
      else raise invalid_length

  unfoldable pub get_app_state_version : String → Prog AppStateDb C (ℕ × Option Bytes)
  get_app_state_version name =
      query_or none (λ d. Option.map some (lookup key_discrete (jid, name) d.versions))
      >>= checked_version

  -- `ON DELETE CASCADE` takes the MACs of the version.
  unfoldable pub delete_app_state_version : String → Prog AppStateDb C (Unit {0})
  delete_app_state_version name = exec (λ d. ok (record d {
    versions = delete key_discrete (jid, name) d.versions;
    macs = delete_where (λ k v. str_eq k.0 jid && str_eq k.1 name) d.macs;
  }))

  unfoldable pub put_mac_batches : String → ℕ → List (List Mutation) → Prog AppStateDb C (Unit {0})
  unfolding insert_macs
  put_mac_batches name version [] = pure tt
  put_mac_batches name version (b ∷ bs) = do
    exec (insert_macs jid name version b)
    put_mac_batches name version bs

  unfoldable pub put_app_state_mutation_macs :
      Txn AppStateDb C → String → ℕ → List Mutation → Prog AppStateDb C (Unit {0})
  unfolding put_mac_batches chunks
  put_app_state_mutation_macs txn name version [] = pure tt
  put_app_state_mutation_macs txn name version (m ∷ ms) =
      txn.run (put_mac_batches name version (chunks (length (m ∷ ms)) mutation_batch_size (m ∷ ms)))

  unfoldable pub delete_app_state_mutation_macs : String → List Bytes → Prog AppStateDb C (Unit {0})
  unfolding among
  delete_app_state_mutation_macs name [] = pure tt
  delete_app_state_mutation_macs name (i ∷ is₁) = exec (λ d. ok (record d {
    macs = delete_where (λ k v. str_eq k.0 jid && str_eq k.1 name && among (i ∷ is₁) k.3) d.macs;
  }))

  unfoldable pub get_app_state_mutation_mac : String → Bytes → Prog AppStateDb C (Option Bytes)
  unfolding newest
  get_app_state_mutation_mac name index =
      query_or none (λ d. Option.map (λ best. some best.1) (newest jid name index d.macs))
