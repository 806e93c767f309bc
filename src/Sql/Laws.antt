-- ===== src/Sql/Laws.antt =====
-- Laws of programs; a transaction that meets `Outcome`.
use zev_bot.Prelude.{
  ◌+◌, ◌≡◌, ◌⊎◌, refl, inl, inr, none, some, arith, ap, sym, ℕ, Option-cases, value_or, Option,
  List, take,
}
use zev_bot.Sql.Defs.{
  query, query_or, query_rows, exec, Fault, Error, ◌>>=◌, Result, ok, err, driver, Faults, Conn,
  Prog, tick, Outcome, not_begun, rolled_back, committed, Txn,
}

pub ok-injective : {A : Type 0} {a b : A} → ok a ≡ ok b → a ≡ b
ok-injective {a = a} e = ap (λ r. elim r [ ok x ↦ x | err x ↦ a ]) e

-- How a sequence goes on, or stops, at what its first part did.
module _ {D C A B : Type 0} (m : Prog D C A) (k : A → Prog D C B) (f : Faults) (s : Conn D C) where
  pub bind-ok : (a : A) (c : Conn D C) → m f s ≡ (ok a, c) → (m >>= k) f s ≡ k a f c
  bind-ok a c e = rw (e, ◌>>=◌)

  pub bind-err : (x : Error) (c : Conn D C) → m f s ≡ (err x, c) → (m >>= k) f s ≡ (err x, c)
  bind-err x c e = rw (e, ◌>>=◌)

module _ {D C A : Type 0} (a : A) (g : D → Option A) (f : Faults) (s : Conn D C) where
  pub query_or-quiet : f s.clock ≡ none → query_or a g f s ≡ (ok (value_or a (g s.db)), tick s)
  unfolding query_or
  query_or-quiet e = ground arith

  pub query_or-failed :
      (x : Fault) → f s.clock ≡ some x → query_or a g f s ≡ (err (driver x.code), tick s)
  unfolding query_or
  query_or-failed x e = ground arith

pub query-quiet :
    {D C A : Type 0} (g : D → Result A) (f : Faults) (s : Conn D C)
    → f s.clock ≡ none
    → query g f s ≡ (g s.db, tick s)
unfolding query
query-quiet g f s e = rw (e, query) refl

module _ {D C A : Type 0} (g : D → List A) (f : Faults) (s : Conn D C) where
  pub query_rows-quiet : f s.clock ≡ none → query_rows g f s ≡ (ok (g s.db, none), tick s)
  unfolding query_rows
  query_rows-quiet e = ground arith

  pub query_rows-failed :
      (x : Fault)
      → f s.clock ≡ some x
      → query_rows g f s ≡ (ok (take x.rows (g s.db), some (driver x.code)), tick s)
  unfolding query_rows
  query_rows-failed x e = ground arith

module _ {D C : Type 0} (g : D → Result D) (f : Faults) (s : Conn D C) where
  pub exec-quiet :
      (d : D)
      → f s.clock ≡ none
      → g s.db ≡ ok d
      → exec g f s ≡ (ok tt, record s { db = d; clock = s.clock + 1 })
  unfolding exec
  exec-quiet d e h = ground arith

  pub exec-failed : (x : Fault) → f s.clock ≡ some x → exec g f s ≡ (err (driver x.code), tick s)
  unfolding exec
  exec-failed x e = ground arith

module _ {D C : Type 0} (g : D → Result D) (f : Faults) (s : Conn D C) where
  -- The statement failed, was refused, or wrote.
  pub exec-cases :
      ((e : Error) × (exec g f s ≡ (err e, tick s)))
      ⊎ ((d : D) × (g s.db ≡ ok d)
          × (exec g f s ≡ (ok tt, record s { db = d; clock = s.clock + 1 })))
  unfolding exec
  exec-cases = at (Option-cases (f s.clock)) (g s.db) refl
    where
      at :
          ((f s.clock ≡ none) ⊎ ((x : Fault) × (f s.clock ≡ some x)))
          → (r : Result D) → g s.db ≡ r
          → ((e : Error) × (exec g f s ≡ (err e, tick s)))
            ⊎ ((d : D) × (g s.db ≡ ok d)
                × (exec g f s ≡ (ok tt, record s { db = d; clock = s.clock + 1 })))
      at (inr (x, e)) r h = inl (driver x.code, exec-failed g f s x e)
      at (inl e) (ok d) h = inr (d, h, exec-quiet g f s d e h)
      at (inl e) (err x) h = inl (x, exec-refused e x h)
        where
          exec-refused :
              f s.clock ≡ none → (x : Error) → g s.db ≡ err x → exec g f s ≡ (err x, tick s)
          exec-refused e x h = ground (arith, e, h)

pub exec-mem :
    {D C : Type 0} (g : D → Result D) (f : Faults) (s : Conn D C) → (exec g f s).1.mem ≡ s.mem
exec-mem g f s = elim (exec-cases g f s) [
  | inl (e, h) ↦ ap (λ r. r.1.mem) h
  | inr (d, e, h) ↦ ap (λ r. r.1.mem) h
]

module _ {D C : Type 0} where
  -- What BEGIN, the body and COMMIT leave behind.
  finish : Conn D C → Result (Unit {0}) × Conn D C → Faults → Result (Unit {0}) × Conn D C
  finish s (err e, c) f = (err e, record c { db = s.db })
  finish s (ok u, c) f = elim (f c.clock) [
    | some x ↦ (err (driver x.code), record c { db = s.db; clock = c.clock + 1 })
    | none ↦ (ok u, tick c)
  ]

  -- BEGIN, the body, then COMMIT, or ROLLBACK where the body or COMMIT fails.
  unfoldable pub begin_commit : Prog D C (Unit {0}) → Prog D C (Unit {0})
  unfolding finish
  begin_commit m f s = elim (f s.clock) [
    | some x ↦ (err (driver x.code), tick s)
    | none ↦ finish s (m f (tick s)) f
  ]

  finish-Outcome :
      (m : Prog D C (Unit {0})) (f : Faults) (s : Conn D C) (r : Result (Unit {0}) × Conn D C)
      → m f (tick s) ≡ r
      → Outcome m f s (finish s r f)
  unfolding finish
  finish-Outcome m f s (err e, c) h = rolled_back (s.clock + 1) e _ refl (ap (λ r. r.1.mem) (sym h))
  finish-Outcome m f s (ok tt, c) h = elim (Option-cases (f c.clock)) [
    | inl e ↦
        rw (e, finish)
          (committed (s.clock + 1) _ (ap (λ r. r.0) h) (ap (λ r. r.1.db) (sym h))
            (ap (λ r. r.1.mem) (sym h)))
    | inr (x, e) ↦ rw (e, finish) (rolled_back (s.clock + 1) _ _ refl (ap (λ r. r.1.mem) (sym h)))
  ]

  pub begin_commit-Outcome :
      (m : Prog D C (Unit {0})) (f : Faults) (s : Conn D C) → Outcome m f s (begin_commit m f s)
  unfolding begin_commit
  begin_commit-Outcome m f s = elim (Option-cases (f s.clock)) [
    | inl e ↦ rw (e, begin_commit) (finish-Outcome m f s _ refl)
    | inr (x, e) ↦ rw (e, begin_commit) (not_begun _ _ refl refl)
  ]

  pub begin_commit-progress :
      (m : Prog D C (Unit {0})) (f : Faults) (s : Conn D C)
      → ((n : ℕ) → f n ≡ none)
      → ((n : ℕ) → (m f (record s { clock = n })).0 ≡ ok tt)
      → (begin_commit m f s).0 ≡ ok tt
  unfolding begin_commit
  begin_commit-progress m f s quiet body =
      ground (arith, quiet s.clock, quiet (m f (tick s)).1.clock, body (s.clock + 1))

-- The implementation of `DoTxn` that the examples run.
abbrev pub sql_txn : {D C : Type 0} → Txn D C
sql_txn = record {
  run = begin_commit;
  outcome = begin_commit-Outcome;
  progress = begin_commit-progress;
}
