-- ===== src/Signal/Store.antt =====
-- `SQLStore`'s identity, session and sender key methods (store/sqlstore/store.go). `jid` is the
-- device's own JID, and `like pattern text` the database's LIKE.
use Prim.Native.String.{◌++◌ as append}
use zev_bot.Prelude.{
  String, ite, Option, none, some, List, [], ◌∷◌, Bool, true, false, ◌&&◌, ◌||◌, length, str_eq,
  string_discrete, ◌==◌, if◌then◌else◌,
}
use zev_bot.Table.{Table, lookup, upsert, delete, delete_where}
use zev_bot.Sql.{
  Error, ok, invalid_length, Prog, pure, raise, query_or, query_rows, exec, ◌>>=◌, ◌>>◌, Txn,
}
use zev_bot.Signal.Tables.{
  Bytes, Key, SenderKeyId, SignalDb, key_discrete, sender_key_id_discrete, bytes_discrete,
}
use mathlib.Core.Option

-- `WHERE our_jid=$1 AND their_id LIKE $2`
abbrev pub matches : String → (String → String → Bool) → String → Key → Bytes → Bool
matches jid like pattern k v = str_eq k.0 jid && like pattern k.1

-- `WHERE our_jid=$1 AND sender_id LIKE $2`
abbrev pub sender_matches : String → (String → String → Bool) → String → SenderKeyId → Bytes → Bool
sender_matches jid like pattern k v = str_eq k.0 jid && like pattern k.2

-- `their_id = ANY($2)`, `their_id IN (…)`
unfoldable pub contains : List String → String → Bool
contains [] a = false
contains (b ∷ bs) a = str_eq b a || contains bs a

-- `SELECT their_id, session FROM sessions WHERE our_jid=$1 AND their_id IN (…)`
unfoldable pub select_many : String → List String → Table Key Bytes → List (String × Bytes)
unfolding contains
select_many jid addresses [] = []
select_many jid addresses ((k, v) ∷ t) =
    let rest = select_many jid addresses t in
    if str_eq k.0 jid && contains addresses k.1 then (k.1, v) ∷ rest else rest

-- `result[addr] = nil` for every address
unfoldable pub all_missing : List String → Table String (Option Bytes)
all_missing [] = []
all_missing (a ∷ as₁) = upsert string_discrete a none (all_missing as₁)

-- `result[tuple.Address] = tuple.Session` for every row
unfoldable pub found_rows :
    List (String × Bytes) → Table String (Option Bytes) → Table String (Option Bytes)
found_rows [] m = m
found_rows ((a, v) ∷ rows) m = found_rows rows (upsert string_discrete a (some v) m)

module _ {C : Type 0} (jid : String) where
  module _ (like : String → String → Bool) where
    unfoldable pub delete_all_identities : String → Prog SignalDb C (Unit {0})
    delete_all_identities phone = exec (λ d. ok (record d {
      identity_keys = delete_where (matches jid like (append phone ":%")) d.identity_keys;
    }))

    -- The statement is the one of `DeleteAllIdentities`, with the address for its pattern.
    unfoldable pub delete_identity : String → Prog SignalDb C (Unit {0})
    delete_identity address = exec (λ d.
        ok (record d { identity_keys = delete_where (matches jid like address) d.identity_keys }))

    unfoldable pub delete_all_sessions : String → Prog SignalDb C (Unit {0})
    delete_all_sessions phone = exec (λ d.
        ok (record d { sessions = delete_where (matches jid like (append phone ":%")) d.sessions }))

    unfoldable pub delete_all_sender_keys : String → Prog SignalDb C (Unit {0})
    delete_all_sender_keys phone = exec (λ d. ok (record d {
      sender_keys = delete_where (sender_matches jid like (append phone ":%")) d.sender_keys;
    }))

  unfoldable pub put_identity : String → Bytes → Prog SignalDb C (Unit {0})
  put_identity address key = exec (λ d.
      ok (record d { identity_keys = upsert key_discrete (jid, address) key d.identity_keys }))

  -- An identity that is not stored is trusted; a stored one must be the same key.
  unfoldable pub check_identity : Bytes → Option Bytes → Prog SignalDb C Bool
  check_identity key none = pure true
  check_identity key (some stored) =
      if length stored == 32
      then pure (ite (bytes_discrete stored key) true false)
      else raise invalid_length

  unfoldable pub is_trusted_identity : String → Bytes → Prog SignalDb C Bool
  unfolding check_identity
  is_trusted_identity address key = do
    stored ←
        query_or none (λ d. Option.map some (lookup key_discrete (jid, address) d.identity_keys))
    check_identity key stored

  unfoldable pub get_session : String → Prog SignalDb C (Option Bytes)
  get_session address =
      query_or none (λ d. Option.map some (lookup key_discrete (jid, address) d.sessions))

  unfoldable pub has_session : String → Prog SignalDb C Bool
  has_session address =
      query_or false (λ d. Option.map (λ _. true) (lookup key_discrete (jid, address) d.sessions))

  unfoldable pub put_session : String → Bytes → Prog SignalDb C (Unit {0})
  put_session address session =
      exec (λ d. ok (record d { sessions = upsert key_discrete (jid, address) session d.sessions }))

  unfoldable pub delete_session : String → Prog SignalDb C (Unit {0})
  delete_session address =
      exec (λ d. ok (record d { sessions = delete key_discrete (jid, address) d.sessions }))

  abbrev collect :
      List String
      → List (String × Bytes) × Option Error
      → Prog SignalDb C (Table String (Option Bytes))
  collect addresses (rows, none) = pure (found_rows rows (all_missing addresses))
  collect addresses (rows, some e) = raise e

  -- The error of the query and of the rows is the same to the caller.
  unfoldable pub get_many_sessions : List String → Prog SignalDb C (Table String (Option Bytes))
  unfolding select_many found_rows all_missing
  get_many_sessions [] = pure []
  get_many_sessions (a ∷ as₁) =
      query_rows (λ d. select_many jid (a ∷ as₁) d.sessions) >>= collect (a ∷ as₁)

  unfoldable pub put_each_session : List (String × Bytes) → Prog SignalDb C (Unit {0})
  unfolding put_session
  put_each_session [] = pure tt
  put_each_session ((a, v) ∷ rest) = do put_session a v; put_each_session rest

  unfoldable pub put_many_sessions :
      Txn SignalDb C → List (String × Bytes) → Prog SignalDb C (Unit {0})
  put_many_sessions txn sessions = txn.run (put_each_session sessions)

  unfoldable pub put_sender_key : String → String → Bytes → Prog SignalDb C (Unit {0})
  put_sender_key group user session = exec (λ d. ok (record d {
    sender_keys = upsert sender_key_id_discrete (jid, group, user) session d.sender_keys;
  }))

  unfoldable pub get_sender_key : String → String → Prog SignalDb C (Option Bytes)
  get_sender_key group user =
      query_or none
        (λ d. Option.map some (lookup sender_key_id_discrete (jid, group, user) d.sender_keys))
