-- ===== src/Sql/Defs.antt =====
-- Statements, programs and transactions.
use zev_bot.Prelude.{
  ℕ, ◌+◌, String, ◌≡◌, Option, none, some, List, Bool, true, false, take, if◌then◌else◌,
}

-- `driver` is the database's own failure, `no_rows` is sql.ErrNoRows, `constraint` a violated
-- constraint of the schema, and `wrap` is fmt.Errorf with `%w`. The others are the errors that the
-- code makes itself, and `nil_pointer` the panic of a nil pointer, which runs up the calls as an error
-- does.
pub data Error : Type 0 where
  driver : ℕ → Error
  no_rows : Error
  constraint : Error
  invalid_length : Error
  invalid_call : Error
  external : ℕ → Error
  device_id_must_be_set : Error
  device_deleted : Error
  nil_pointer : Error
  wrap : String → Error → Error

-- `errors.Is(err, sql.ErrNoRows)`
unfoldable pub is_no_rows : Error → Bool
is_no_rows no_rows = true
is_no_rows (wrap what e) = is_no_rows e
is_no_rows _ = false

pub data Result {ℓ} (A : Type ℓ) : Type ℓ where
  ok : A → Result A
  err : Error → Result A

-- The failures of the run: whether the statement with a given number fails, with which code, and how
-- many rows a failing query delivers first.
pub record Fault : Type 0 where
  pub code : ℕ
  pub rows : ℕ

abbrev pub Faults : Type 0
Faults = ℕ → Option Fault

pub record Conn (D C : Type 0) : Type 0 where
  pub db : D
  pub mem : C
  pub clock : ℕ  -- statements executed so far

abbrev pub Prog : Type 0 → Type 0 → Type 0 → Type 0
Prog D C A = Faults → Conn D C → Result A × Conn D C

module _ {D C : Type 0} where
  abbrev pub tick : Conn D C → Conn D C
  tick s = record s { clock = s.clock + 1 }

  module _ {A : Type 0} where
    abbrev pub pure : A → Prog D C A
    pure a f s = (ok a, s)

    abbrev pub raise : Error → Prog D C A
    raise e f s = (err e, s)

    abbrev pub gets : (C → A) → Prog D C A
    gets g f s = (ok (g s.mem), s)

    -- A query that returns one value, by `g`; `g` may find no row.
    unfoldable pub query : (D → Result A) → Prog D C A
    query g f s = elim (f s.clock) [
      | some x ↦ (err (driver x.code), tick s)
      | none ↦ (g s.db, tick s)
    ]

    -- A query that delivers rows: those that arrive, and the error that ends them early.
    unfoldable pub query_rows : (D → List A) → Prog D C (List A × Option Error)
    query_rows g f s = elim (f s.clock) [
      | some x ↦ (ok (take x.rows (g s.db), some (driver x.code)), tick s)
      | none ↦ (ok (g s.db, none), tick s)
    ]

  abbrev pub modify : (C → C) → Prog D C (Unit {0})
  modify g f s = (ok tt, record s { mem = g s.mem })

  abbrev write : Result D → Conn D C → Result (Unit {0}) × Conn D C
  write (ok d) s = (ok tt, record s { db = d })
  write (err e) s = (err e, s)

  -- A statement that writes: it fails and changes nothing, or does all of `g`.
  unfoldable pub exec : (D → Result D) → Prog D C (Unit {0})
  exec g f s = elim (f s.clock) [
    | some x ↦ (err (driver x.code), tick s)
    | none ↦ write (g s.db) (tick s)
  ]

module _ {D C A B : Type 0} where
  abbrev pub continue : Result A → (A → Prog D C B) → Prog D C B
  continue (ok a) k f s = k a f s
  continue (err e) k f s = (err e, s)

  infixl 10 ◌>>=◌
  abbrev pub ◌>>=◌ : Prog D C A → (A → Prog D C B) → Prog D C B
  ◌>>=◌ m k f s = let (r, s') = m f s in continue r k f s'

module _ {D C B : Type 0} where
  infixl 10 ◌>>◌
  abbrev pub ◌>>◌ : Prog D C (Unit {0}) → Prog D C B → Prog D C B
  m >> n = m >>= λ _. n

-- `fmt.Errorf("what: %w", err)` on an error
abbrev pub wrapped : {A : Type 0} → String → Result A → Result A
wrapped what (ok a) = ok a
wrapped what (err e) = err (wrap what e)

-- `errors.Is(err, sql.ErrNoRows)` taken as the value that the variables of `Scan` had before
abbrev pub or_default : {A : Type 0} → A → Result A → Result A
or_default a (ok b) = ok b
or_default a (err e) = if is_no_rows e then ok a else err e

abbrev pub one_row : {A : Type 0} → Option A → Result A
one_row none = err no_rows
one_row (some a) = ok a

module _ {D C A : Type 0} where
  -- `QueryRow(…).Scan(…)` where a missing row leaves `a`
  unfoldable pub query_or : A → (D → Option A) → Prog D C A
  unfolding query is_no_rows
  query_or a g f s = let (r, s') = query (λ d. one_row (g d)) f s in (or_default a r, s')

  abbrev pub wrapping : String → Prog D C A → Prog D C A
  wrapping what m f s = let (r, s') = m f s in (wrapped what r, s')

-- What `DoTxn` of dbutil does with a body: it fails with the database as it was, whatever the body
-- wrote, or the body returned without an error and its writes stay. What the body did to the memory
-- stays either way.
pub data Outcome {D C : Type 0} (m : Prog D C (Unit {0})) (f : Faults) (s : Conn D C)
    : Result (Unit {0}) × Conn D C → Type 0 where
  not_begun : (e : Error) (c : Conn D C) → c.db ≡ s.db → c.mem ≡ s.mem → Outcome m f s (err e, c)
  rolled_back :
      (n : ℕ) (e : Error) (c : Conn D C)
      → c.db ≡ s.db
      → c.mem ≡ (m f (record s { clock = n })).1.mem
      → Outcome m f s (err e, c)
  committed :
      (n : ℕ) (c : Conn D C)
      → (m f (record s { clock = n })).0 ≡ ok tt
      → c.db ≡ (m f (record s { clock = n })).1.db
      → c.mem ≡ (m f (record s { clock = n })).1.mem
      → Outcome m f s (ok tt, c)

-- `DoTxn` itself is not in the repository: an implementation and the law above.
pub record Txn (D C : Type 0) : Type 0 where
  pub run : Prog D C (Unit {0}) → Prog D C (Unit {0})
  pub outcome : (m : Prog D C (Unit {0})) (f : Faults) (s : Conn D C) → Outcome m f s (run m f s)
  -- Where no statement fails and the body returns, the transaction is committed.
  pub progress :
      (m : Prog D C (Unit {0})) (f : Faults) (s : Conn D C)
      → ((n : ℕ) → f n ≡ none)
      → ((n : ℕ) → (m f (record s { clock = n })).0 ≡ ok tt)
      → (run m f s).0 ≡ ok tt
