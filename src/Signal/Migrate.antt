-- ===== src/Signal/Migrate.antt =====
-- `MigratePNToLID` (store/sqlstore/store.go): the rows of the addresses of a phone number move to those
-- of its LID. The memory is `migratedPNSessionsCache`. `pn` and `lid` are what `SignalAddressUser`
-- gives, `like` is the database's LIKE and `replace` its function of that name.
use Prim.Native.String.{◌++◌ as append}
use zev_bot.Prelude.{String, List, ◌∷◌, Bool, str_eq, ◌&&◌, if◌then◌else◌}
use zev_bot.Table.Move.{moved, upsert_all}
use zev_bot.Sql.{ok, Prog, pure, gets, modify, exec, wrapping, ◌>>=◌, ◌>>◌, Txn}
use zev_bot.Signal.Tables.{Key, SenderKeyId, SignalDb, key_discrete, sender_key_id_discrete}
use zev_bot.Signal.Store.{
  contains, delete_all_sessions, delete_all_identities, delete_all_sender_keys,
}

abbrev pub Migration : Type 0 → Type 0
Migration A = Prog SignalDb (List String) A

module _ (jid : String) (like : String → String → Bool)
    (replace : String → String → String → String) where
  -- `our_jid=$1 AND their_id LIKE $2 || ':%'`
  abbrev pub of_user : String → Key → Bool
  of_user pn k = str_eq k.0 jid && like (append pn ":%") k.1

  abbrev pub of_sender : String → SenderKeyId → Bool
  of_sender pn k = str_eq k.0 jid && like (append pn ":%") k.2

  -- `replace(their_id, $2, $3)`
  abbrev pub renamed : String → String → Key → Key
  renamed pn lid k = (k.0, replace k.1 pn lid)

  abbrev pub sender_renamed : String → String → SenderKeyId → SenderKeyId
  sender_renamed pn lid k = (k.0, k.1, replace k.2 pn lid)

  unfoldable pub migrate_sessions : String → String → Migration (Unit {0})
  migrate_sessions pn lid = exec (λ d. ok (record d {
    sessions = upsert_all key_discrete (moved (of_user pn) (renamed pn lid) d.sessions) d.sessions;
  }))

  unfoldable pub migrate_identity_keys : String → String → Migration (Unit {0})
  migrate_identity_keys pn lid = exec (λ d. ok (record d {
    identity_keys =
        upsert_all key_discrete (moved (of_user pn) (renamed pn lid) d.identity_keys)
          d.identity_keys;
  }))

  unfoldable pub migrate_sender_keys : String → String → Migration (Unit {0})
  migrate_sender_keys pn lid = exec (λ d. ok (record d {
    sender_keys =
        upsert_all sender_key_id_discrete
          (moved (of_sender pn) (sender_renamed pn lid) d.sender_keys) d.sender_keys;
  }))

  -- The body of the transaction. The counts of rows go to the log only.
  unfoldable pub migrate_rows : String → String → Migration (Unit {0})
  unfolding migrate_sessions migrate_identity_keys migrate_sender_keys delete_all_sessions
      delete_all_identities delete_all_sender_keys
  migrate_rows pn lid = do
    wrapping "failed to migrate sessions" (migrate_sessions pn lid)
    wrapping "failed to delete extra sessions" (delete_all_sessions jid like pn)
    wrapping "failed to migrate identity keys" (migrate_identity_keys pn lid)
    wrapping "failed to delete extra identity keys" (delete_all_identities jid like pn)
    wrapping "failed to migrate sender keys" (migrate_sender_keys pn lid)
    wrapping "failed to delete extra sender keys" (delete_all_sender_keys jid like pn)

  unfoldable pub migrate_pn_to_lid :
      Txn SignalDb (List String) → String → String → Migration (Unit {0})
  unfolding migrate_rows contains
  migrate_pn_to_lid txn pn lid = do
    done ← gets (λ c. c)
    if contains done pn then pure tt else (do modify (λ c. pn ∷ c); txn.run (migrate_rows pn lid))
