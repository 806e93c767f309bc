-- ===== src/Lid/Rollback.antt =====
-- A transaction that is rolled back takes its rows out of the table, and not out of the caches.
use zev_bot.Prelude.{◌+◌, ◌≡◌, ◌≢◌, refl, ap, none, some, true, false, arith}
use zev_bot.Sql.{ok, err, driver, Fault, Faults, begin_commit, sql_txn}
use zev_bot.Jid.{Jid, Types}
use zev_bot.Lid.Tables.{LidMap, recache}
use zev_bot.Lid.Methods.{put_lid_mapping, get_lid_for_pn, valid_mapping, is_cached}
use zev_bot.Lid.Coherence.{recache_self}
use zev_bot.Lid.Refresh.{InStep}
use zev_bot.Lid.Writes.{unlocked-quiet}
use zev_bot.Lid.Refinement.{held-lid}

module _ (types : Types) (lid pn : Jid) (f : Faults) (s : LidMap) (x : Fault) (h : InStep s)
    (good : valid_mapping types lid pn ≡ true)
    (missing : is_cached types lid.user pn.user s.mem ≡ false) (begin : f s.clock ≡ none)
    (deletes : f (s.clock + 1) ≡ none) (inserts : f (s.clock + 1 + 1) ≡ none)
    (commits : f (s.clock + 1 + 1 + 1) ≡ some x) where
  -- COMMIT fails after the two statements were executed.
  uncommitted : put_lid_mapping types sql_txn lid pn f s ≡ (
    err (driver x.code),
    record s { mem = recache lid.user pn.user s.mem; clock = s.clock + 1 + 1 + 1 + 1 },
  )
  unfolding put_lid_mapping begin_commit
  uncommitted = ground (
    arith,
    unlocked-quiet types lid pn f (record s { clock = s.clock + 1 }) good h.unique deletes inserts,
  )

-- A `PutLIDMapping` whose COMMIT fails reports the error, but from then on lookups answer with the
-- mapping that is not in the table, and a retry of the same call returns success without a
-- statement. So the mapping is lost when the process ends.
pub failed_commit-stays_cached :
    (types : Types) (lid pn : Jid) (f g : Faults) (s : LidMap) (x : Fault)
    → InStep s
    → lid.user ≢ ""
    → lid.server ≡ types.hidden_user_server
    → pn.server ≡ types.default_user_server
    → is_cached types lid.user pn.user s.mem ≡ false
    → f s.clock ≡ none
    → f (s.clock + 1) ≡ none
    → f (s.clock + 1 + 1) ≡ none
    → f (s.clock + 1 + 1 + 1) ≡ some x
    → ((put_lid_mapping types sql_txn lid pn f s).0 ≡ err (driver x.code))
      × ((put_lid_mapping types sql_txn lid pn f s).1.db ≡ s.db)
      × ((get_lid_for_pn types pn g (put_lid_mapping types sql_txn lid pn f s).1).0
          ≡ ok (record { user = lid.user; device = pn.device; server = types.hidden_user_server }))
      × (put_lid_mapping types sql_txn lid pn g (put_lid_mapping types sql_txn lid pn f s).1
          ≡ (ok tt, (put_lid_mapping types sql_txn lid pn f s).1))
unfolding put_lid_mapping
failed_commit-stays_cached types lid pn f g s x h named ls ps missing e₀ e₁ e₂ e₃ =
    let ended = uncommitted types lid pn f s x h (ground arith) missing e₀ e₁ e₂ e₃ in
    let held = (recache_self s.db s.mem h lid.user pn.user).0 in
    let c : LidMap = record s {
      mem = recache lid.user pn.user s.mem;
      clock = s.clock + 1 + 1 + 1 + 1;
    } in
    rw ended (refl, refl, ap (λ r. r.0) (held-lid types lid pn g c ps named held), ground arith)
