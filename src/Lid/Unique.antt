-- ===== src/Lid/Unique.antt =====
-- The constraints of `lid_map`, and what each statement shows to the two selections.
use zev_bot.Prelude.{
  String, ◌≡◌, refl, ite, Option, none, some, [], ◌∷◌, Bool, arith, str_eq, string_discrete,
  if◌then◌else◌, not, ◌&&◌,
}
use zev_bot.Table.{Distinct, lookup, upsert, delete_where, lookup-upsert, lookup-delete_where}
use zev_bot.Sql.{ok}
use zev_bot.Lid.Tables.{LidDb, lid_of, pn_of, delete_existing, put_mapping}

-- PRIMARY KEY (lid) and UNIQUE (pn)
abbrev pub Unique : LidDb → Type 0
Unique [] = Unit
Unique ((l, p) ∷ t) = (pn_of l t ≡ none) × (lid_of p t ≡ none) × Unique t

-- The two selections read one relation.
pub lid_of-pn_of : (l p : String) (t : LidDb) → Unique t → pn_of l t ≡ some p → lid_of p t ≡ some l
unfolding lid_of lookup
lid_of-pn_of l p [] u h = cc
lid_of-pn_of l p ((k, q) ∷ t) u h = ground (arith, lid_of-pn_of l p t u.2)

pub pn_of-lid_of : (l p : String) (t : LidDb) → Unique t → lid_of p t ≡ some l → pn_of l t ≡ some p
unfolding lid_of lookup
pn_of-lid_of l p [] u h = cc
pn_of-lid_of l p ((k, q) ∷ t) u h = ground (arith, pn_of-lid_of l p t u.2)

-- What a selection by phone number shows after `delete_where`.
abbrev pub kept_lid : (String → String → Bool) → String → Option String → Option String
kept_lid d p none = none
kept_lid d p (some l) = if d l p then none else some l

lid_of-delete_where :
    (d : String → String → Bool) (p : String) (t : LidDb)
    → Unique t
    → lid_of p (delete_where d t) ≡ kept_lid d p (lid_of p t)
unfolding lid_of delete_where
lid_of-delete_where d p [] u = refl
lid_of-delete_where d p ((k, q) ∷ t) u = ground (arith, lid_of-delete_where d p t u.2)

pn_of-delete_where :
    (d : String → String → Bool) (l : String) (t : LidDb)
    → Unique t
    → pn_of l t ≡ none
    → pn_of l (delete_where d t) ≡ none
unfolding lookup delete_where
pn_of-delete_where d l [] u h = refl
pn_of-delete_where d l ((k, q) ∷ t) u h = ground (arith, pn_of-delete_where d l t u.2)

pub delete_where-Unique :
    (d : String → String → Bool) (t : LidDb) → Unique t → Unique (delete_where d t)
unfolding delete_where
delete_where-Unique d [] u = tt
delete_where-Unique d ((k, q) ∷ t) u = ground (
  arith,
  delete_where-Unique d t u.2,
  pn_of-delete_where d k t u.2,
  lid_of-delete_where d q t u.2,
)

-- What stays of a value that a write of `v` displaces.
abbrev pub displaced : String → Option String → Option String
displaced v none = none
displaced v (some w) = if str_eq w v then none else some w

-- The table after the two statements of `unlockedPutLIDMapping`.
unfoldable pub replaced : String → String → LidDb → LidDb
replaced lid pn t =
    upsert string_discrete lid pn (delete_where (λ l p. not (str_eq l lid) && str_eq p pn) t)

module _ (lid pn : String) where
  lid_of-upsert :
      (p : String) (t : LidDb)
      → Unique t
      → displaced lid (lid_of pn t) ≡ none
      → lid_of p (upsert string_discrete lid pn t)
        ≡ ite (string_discrete pn p) (some lid) (displaced lid (lid_of p t))
  unfolding lid_of upsert
  lid_of-upsert p [] u h = ground arith
  lid_of-upsert p ((k, q) ∷ t) u h = ground (arith, lid_of-upsert p t u.2, pn_of-lid_of lid p t u.2)

  upsert-Unique :
      (t : LidDb)
      → Unique t
      → displaced lid (lid_of pn t) ≡ none
      → Unique (upsert string_discrete lid pn t)
  unfolding lid_of upsert lookup
  upsert-Unique [] u h = ground arith
  upsert-Unique ((k, q) ∷ t) u h = ground (
    arith,
    upsert-Unique t u.2,
    lookup-upsert string_discrete k lid pn t,
    lid_of-upsert q t u.2,
    pn_of-lid_of lid pn t u.2,
  )

  -- No other row has the phone number when the row is inserted.
  cleared :
      (t : LidDb)
      → Unique t
      → displaced lid (lid_of pn (delete_where (λ l p. not (str_eq l lid) && str_eq p pn) t)) ≡ none
  cleared t u =
      ground (arith, lid_of-delete_where (λ l p. not (str_eq l lid) && str_eq p pn) pn t u)

  -- The two statements of a write, in a row, never violate a constraint.
  pub put-replaced :
      (t d : LidDb)
      → Unique t
      → delete_existing lid pn t ≡ ok d
      → put_mapping lid pn d ≡ ok (replaced lid pn t)
  unfolding delete_existing put_mapping replaced
  put-replaced t d u h = ground (arith, cleared t u)

  pub replaced-Unique : (t : LidDb) → Unique t → Unique (replaced lid pn t)
  unfolding replaced
  replaced-Unique t u = upsert-Unique _ (delete_where-Unique _ t u) (cleared t u)

  pub lid_of-replaced :
      (p : String) (t : LidDb)
      → Unique t
      → lid_of p (replaced lid pn t)
        ≡ ite (string_discrete pn p) (some lid) (displaced lid (lid_of p t))
  unfolding replaced
  lid_of-replaced p t u =
      let d = λ (l p : String). not (str_eq l lid) && str_eq p pn in
      ground (
        arith,
        lid_of-upsert p (delete_where d t) (delete_where-Unique d t u) (cleared t u),
        lid_of-delete_where d p t u,
      )

  Unique-Distinct : (t : LidDb) → Unique t → Distinct string_discrete t
  Unique-Distinct [] u = tt
  Unique-Distinct ((k, q) ∷ t) u = (u.0, Unique-Distinct t u.2)

  pub pn_of-replaced :
      (l : String) (t : LidDb)
      → Unique t
      → pn_of l (replaced lid pn t)
        ≡ ite (string_discrete lid l) (some pn) (displaced pn (pn_of l t))
  unfolding replaced
  pn_of-replaced l t u =
      let d = λ (l p : String). not (str_eq l lid) && str_eq p pn in
      ground (
        arith,
        lookup-upsert string_discrete l lid pn (delete_where d t),
        lookup-delete_where string_discrete d l t (Unique-Distinct t u),
      )
