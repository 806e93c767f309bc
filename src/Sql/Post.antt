-- ===== src/Sql/Post.antt =====
-- What a program leaves behind, when it returns and when it fails.
use zev_bot.Prelude.{
  ℕ, ◌+◌, String, ◌≡◌, inl, inr, subst, sym, ◌∙◌, arith, refl, Option, none, some, List, take,
  value_or, Option-cases,
}
use zev_bot.Sql.Defs.{
  Error, Result, ok, err, driver, Fault, query, query_or, query_rows, Faults, Conn, Prog, tick,
  exec, ◌>>=◌, wrapping, wrapped, continue, Txn, Outcome, not_begun, rolled_back, committed,
}
use zev_bot.Sql.Laws.{exec-cases, query_or-quiet, query_or-failed}

module _ {D C A : Type 0} where
  -- `Q` of a value and the state with it, `E` of the state that an error leaves.
  abbrev pub Post : (A → Conn D C → Type 0) → (Conn D C → Type 0) → Result A × Conn D C → Type 0
  Post Q E (ok a, s) = Q a s
  Post Q E (err e, s) = E s

  pub Post-mono :
      (Q Q' : A → Conn D C → Type 0) (E E' : Conn D C → Type 0) (r : Result A × Conn D C)
      → ((a : A) (c : Conn D C) → Q a c → Q' a c)
      → ((c : Conn D C) → E c → E' c)
      → Post Q E r
      → Post Q' E' r
  Post-mono Q Q' E E' (ok a, c) h g p = h a c p
  Post-mono Q Q' E E' (err e, c) h g p = g c p

  pub wrapping-Post :
      (Q : A → Conn D C → Type 0) (E : Conn D C → Type 0) (what : String) (m : Prog D C A)
      (f : Faults) (s : Conn D C)
      → Post Q E (m f s)
      → Post Q E (wrapping what m f s)
  wrapping-Post Q E what m f s h = at (m f s) h
    where
      at : (r : Result A × Conn D C) → Post Q E r → Post Q E (wrapped what r.0, r.1)
      at (ok a, c) h = h
      at (err e, c) h = h

module _ {D C A B : Type 0} where
  pub bind-Post :
      (Q : A → Conn D C → Type 0) (R : B → Conn D C → Type 0) (E : Conn D C → Type 0)
      (m : Prog D C A) (k : A → Prog D C B) (f : Faults) (s : Conn D C)
      → Post Q E (m f s)
      → ((a : A) (c : Conn D C) → Q a c → Post R E (k a f c))
      → Post R E ((m >>= k) f s)
  bind-Post Q R E m k f s h next = at (m f s) h
    where
      at : (r : Result A × Conn D C) → Post Q E r → Post R E (continue r.0 k f r.1)
      at (ok a, c) h = next a c h
      at (err e, c) h = h

module _ {D C : Type 0} where
  pub exec-Post :
      (Q : Unit {0} → Conn D C → Type 0) (E : Conn D C → Type 0) (g : D → Result D) (f : Faults)
      (s : Conn D C)
      → E (tick s)
      → ((d : D) → g s.db ≡ ok d → Q tt (record s { db = d; clock = s.clock + 1 }))
      → Post Q E (exec g f s)
  exec-Post Q E g f s failed wrote = elim (exec-cases g f s) [
    | inl (e, h) ↦ subst (Post Q E) (sym h) failed
    | inr (d, e, h) ↦ subst (Post Q E) (sym h) (wrote d e)
  ]

module _ {D C A : Type 0} (E : Conn D C → Type 0) (f : Faults) (s : Conn D C) where
  pub query-Post :
      (Q : A → Conn D C → Type 0) (g : D → Result A)
      → E (tick s)
      → ((a : A) → g s.db ≡ ok a → Q a (tick s))
      → Post Q E (query g f s)
  unfolding query
  query-Post Q g failed found = at (f s.clock) (g s.db) refl
    where
      at :
          (o : Option Fault) (r : Result A)
          → g s.db ≡ r
          → Post Q E (elim o [ some x ↦ (err (driver x.code), tick s) | none ↦ (r, tick s) ])
      at (some x) r h = failed
      at none (ok a) h = found a h
      at none (err e) h = failed

  pub query_or-Post :
      (Q : A → Conn D C → Type 0) (a : A) (g : D → Option A)
      → E (tick s)
      → Q (value_or a (g s.db)) (tick s)
      → Post Q E (query_or a g f s)
  query_or-Post Q a g failed found = elim (Option-cases (f s.clock)) [
    | inl e ↦ subst (Post Q E) (sym (query_or-quiet a g f s e)) found
    | inr (x, e) ↦ subst (Post Q E) (sym (query_or-failed a g f s x e)) failed
  ]

  -- The rows may stop short, at an error.
  pub query_rows-Post :
      (Q : List A × Option Error → Conn D C → Type 0) (g : D → List A)
      → ((n : ℕ) (e : Error) → Q (take n (g s.db), some e) (tick s))
      → Q (g s.db, none) (tick s)
      → Post Q E (query_rows g f s)
  unfolding query_rows
  query_rows-Post Q g short all = at (f s.clock)
    where
      at :
          (o : Option Fault)
          → Post Q E (elim o [
            | some x ↦ (ok (take x.rows (g s.db), some (driver x.code)), tick s)
            | none ↦ (ok (g s.db, none), tick s)
          ])
      at (some x) = short x.rows (driver x.code)
      at none = all

module _ {D C : Type 0} (txn : Txn D C) (m : Prog D C (Unit {0})) (f : Faults) (s : Conn D C) where
  -- A transaction whose body does not touch the memory.
  pub txn-Post :
      (Q : D → Type 0)
      → ((n : ℕ)
          → Post
              (λ u c. Q c.db × (c.mem ≡ s.mem))
              (λ c. c.mem ≡ s.mem)
              (m f (record s { clock = n })))
      → Post
          (λ u c. Q c.db × (c.mem ≡ s.mem))
          (λ c. (c.db ≡ s.db) × (c.mem ≡ s.mem))
          (txn.run m f s)
  txn-Post Q body = at (txn.run m f s) (txn.outcome m f s)
    where
      kept :
          (r : Result (Unit {0}) × Conn D C)
          → Post (λ u c. Q c.db × (c.mem ≡ s.mem)) (λ c. c.mem ≡ s.mem) r
          → r.1.mem ≡ s.mem
      kept (ok u, c) p = p.1
      kept (err e, c) p = p

      wrote :
          (r : Result (Unit {0}) × Conn D C)
          → Post (λ u c. Q c.db × (c.mem ≡ s.mem)) (λ c. c.mem ≡ s.mem) r
          → r.0 ≡ ok tt
          → Q r.1.db
      wrote (ok u, c) p e = p.0
      wrote (err x, c) p e = ground (arith, e)

      at :
          (r : Result (Unit {0}) × Conn D C)
          → Outcome m f s r
          → Post (λ u c. Q c.db × (c.mem ≡ s.mem)) (λ c. (c.db ≡ s.db) × (c.mem ≡ s.mem)) r
      at r (not_begun e c db mem) = (db, mem)
      at r (rolled_back n e c db mem) = (db, mem ∙ kept _ (body n))
      at r (committed n c returned db mem) =
          (subst Q (sym db) (wrote _ (body n) returned), mem ∙ kept _ (body n))
