-- ===== src/Lid/Writes.antt =====
-- The writes of `CachedLIDMap`: what a write that succeeds leaves, in the table and in the caches.
use zev_bot.Prelude.{ℕ, ◌+◌, String, ◌≡◌, refl, none, true, inl, inr, Option-cases, Bool-cases}
use zev_bot.Sql.{
  Result, ok, err, Faults, Prog, exec, modify, bind-ok, bind-err, exec-quiet, exec-failed, ◌>>◌,
  Error, Txn, Outcome, not_begun, rolled_back, committed,
}
use zev_bot.Jid.{Jid, Types}
use zev_bot.Lid.Tables.{LidDb, Cache, LidMap, delete_existing, put_mapping, recache}
use zev_bot.Lid.Methods.{unlocked_put_lid_mapping, put_lid_mapping, valid_mapping, is_cached}
use zev_bot.Lid.Unique.{Unique, replaced, put-replaced}

delete_existing-ok : (lid pn : String) (t : LidDb) → (d : LidDb) × (delete_existing lid pn t ≡ ok d)
unfolding delete_existing
delete_existing-ok lid pn t = (_, refl)

-- How one write inside a transaction ends: the row and the caches are written, or the caches are as
-- they were.
pub data Written (types : Types) (lid pn : Jid) (s : LidMap)
    : Result (Unit {0}) × LidMap → Type 0 where
  written :
      (n : ℕ)
      → valid_mapping types lid pn ≡ true
      → Written types lid pn s (
        ok tt,
        record s {
          db = replaced lid.user pn.user s.db;
          mem = recache lid.user pn.user s.mem;
          clock = n;
        },
      )
  refused : (e : Error) (c : LidMap) → c.mem ≡ s.mem → Written types lid pn s (err e, c)

module _ (types : Types) (lid pn : Jid) (f : Faults) where
  abbrev insert_row : Prog LidDb Cache (Unit {0})
  insert_row = exec (put_mapping lid.user pn.user)

  inserted-Written :
      (s c : LidMap)
      → valid_mapping types lid pn ≡ true
      → Unique s.db
      → c.mem ≡ s.mem
      → delete_existing lid.user pn.user s.db ≡ ok c.db
      → Written types lid pn s ((insert_row >> modify (recache lid.user pn.user)) f c)
  inserted-Written s c good u same deleted = elim (Option-cases (f c.clock)) [
    | inl quiet ↦
        rw
          (bind-ok insert_row _ f c tt _
            (exec-quiet _ f c _ quiet (put-replaced lid.user pn.user s.db c.db u deleted)))
          (rw same (written _ good))
    | inr (x, failed) ↦
        rw (bind-err insert_row _ f c _ _ (exec-failed _ f c x failed)) (refused _ _ same)
  ]

  pub unlocked-Written :
      (s : LidMap)
      → Unique s.db
      → Written types lid pn s (unlocked_put_lid_mapping types lid pn f s)
  unfolding unlocked_put_lid_mapping
  unlocked-Written s u = elim (Bool-cases (valid_mapping types lid pn)) [
    | inr bad ↦ rw bad (refused _ _ refl)
    | inl good ↦ rw good (elim (Option-cases (f s.clock)) [
      | inr (x, failed) ↦ rw (exec-failed _ f s x failed) (refused _ _ refl)
      | inl quiet ↦
          let (d, deleted) = delete_existing-ok lid.user pn.user s.db in
          rw (exec-quiet _ f s d quiet deleted) (inserted-Written s _ good u refl deleted)
    ])
  ]

-- With no failing statement the write is made.
pub unlocked-quiet :
    (types : Types) (lid pn : Jid) (f : Faults) (s : LidMap)
    → valid_mapping types lid pn ≡ true
    → Unique s.db
    → f s.clock ≡ none
    → f (s.clock + 1) ≡ none
    → unlocked_put_lid_mapping types lid pn f s ≡ (
      ok tt,
      record s {
        db = replaced lid.user pn.user s.db;
        mem = recache lid.user pn.user s.mem;
        clock = s.clock + 1 + 1;
      },
    )
unfolding unlocked_put_lid_mapping
unlocked-quiet types lid pn f s good u e₀ e₁ =
    let (d, deleted) = delete_existing-ok lid.user pn.user s.db in
    rw good (
      rw (exec-quiet _ f s d e₀ deleted) (
        bind-ok (exec (put_mapping lid.user pn.user)) (λ _. modify (recache lid.user pn.user)) f
          (record s { db = d; clock = s.clock + 1 }) tt _
          (exec-quiet _ f _ _ e₁ (put-replaced lid.user pn.user s.db d u deleted))))

-- How `PutLIDMapping` ends: the caches had the mapping already, or the transaction was committed, or
-- it failed and the table is as it was.
pub data Ended (types : Types) (lid pn : Jid) (s : LidMap)
    : Result (Unit {0}) × LidMap → Type 0 where
  known : is_cached types lid.user pn.user s.mem ≡ true → Ended types lid pn s (ok tt, s)
  stored :
      (c : LidMap)
      → c.db ≡ replaced lid.user pn.user s.db
      → c.mem ≡ recache lid.user pn.user s.mem
      → Ended types lid pn s (ok tt, c)
  unchanged : (e : Error) (c : LidMap) → c.db ≡ s.db → Ended types lid pn s (err e, c)

-- A body that was committed and a body that ended in one of the two ways of `Written`.
committed-Ended :
    (types : Types) (lid pn : Jid) (s c : LidMap) (n : ℕ) {r : Result (Unit {0}) × LidMap}
    → Written types lid pn (record s { clock = n }) r
    → r.0 ≡ ok tt
    → c.db ≡ r.1.db
    → c.mem ≡ r.1.mem
    → Ended types lid pn s (ok tt, c)
committed-Ended types lid pn s c n (written k good) e d m = stored c d m
committed-Ended types lid pn s c n (refused x w same) e d m = absurd (cc)

Outcome-Ended :
    (types : Types) (lid pn : Jid) (f : Faults) (s : LidMap) {r : Result (Unit {0}) × LidMap}
    → Unique s.db
    → Outcome (unlocked_put_lid_mapping types lid pn) f s r
    → Ended types lid pn s r
Outcome-Ended types lid pn f s u (not_begun e c d m) = unchanged e c d
Outcome-Ended types lid pn f s u (rolled_back n e c d m) = unchanged e c d
Outcome-Ended types lid pn f s u (committed n c e d m) =
    committed-Ended types lid pn s c n (unlocked-Written types lid pn f (record s { clock = n }) u)
      e d m

module _ (types : Types) (txn : Txn LidDb Cache) (lid pn : Jid) (f : Faults) (s : LidMap) where
  pub put_lid_mapping-Ended :
      Unique s.db → Ended types lid pn s (put_lid_mapping types txn lid pn f s)
  unfolding put_lid_mapping
  put_lid_mapping-Ended u = elim (Bool-cases (valid_mapping types lid pn)) [
    | inr bad ↦ rw bad (unchanged _ _ refl)
    | inl good ↦ rw good (elim (Bool-cases (is_cached types lid.user pn.user s.mem)) [
      | inl cached ↦ rw cached (known cached)
      | inr missing ↦ rw missing (Outcome-Ended types lid pn f s u (txn.outcome _ f s))
    ])
  ]
