-- ===== src/Signal/Prefetch.antt =====
-- `GetManySessions` answers with the rows of the table, and `WithCachedSessions` caches what
-- `LoadSession` would read.
use zev_bot.Prelude.{
  String, ◌≡◌, refl, Option, none, some, List, [], ◌∷◌, true, false, arith, string_discrete,
  if◌then◌else◌, Option-cases, inl, inr, if_pos,
}
use zev_bot.Table.{Table, Distinct, lookup, upsert, lookup-upsert, upsert-Distinct}
use zev_bot.Signal.Tables.{Bytes, Key, key_discrete}
use zev_bot.Signal.Store.{contains, select_many, all_missing, found_rows}
use zev_bot.Signal.Cache.{Codec, SyncMap, Entry, prefetched}

module _ (jid : String) (addresses : List String) where
  lookup-select_many :
      (t : Table Key Bytes) (a : String)
      → lookup string_discrete a (select_many jid addresses t)
        ≡ (if contains addresses a then lookup key_discrete (jid, a) t else none)
  unfolding select_many lookup
  lookup-select_many [] a = ground arith
  lookup-select_many (((j, b), v) ∷ t) a = ground (arith, lookup-select_many t a)

  select_many-Distinct :
      (t : Table Key Bytes)
      → Distinct key_discrete t
      → Distinct string_discrete (select_many jid addresses t)
  unfolding select_many lookup
  select_many-Distinct [] d = tt
  select_many-Distinct (((j, b), v) ∷ t) d =
      ground (arith, select_many-Distinct t d.1, lookup-select_many t b)

lookup-found_rows :
    (rows : List (String × Bytes)) (m : Table String (Option Bytes)) (a : String)
    → Distinct string_discrete rows
    → lookup string_discrete a (found_rows rows m) ≡ elim (lookup string_discrete a rows) [
      | none ↦ lookup string_discrete a m
      | some v ↦ some (some v)
    ]
unfolding found_rows lookup
lookup-found_rows [] m a d = refl
lookup-found_rows ((b, v) ∷ rows) m a d = ground (
  arith,
  lookup-found_rows rows (upsert string_discrete b (some v) m) a d.1,
  lookup-upsert string_discrete a b (some v) m,
)

found_rows-Distinct :
    (rows : List (String × Bytes)) (m : Table String (Option Bytes))
    → Distinct string_discrete m
    → Distinct string_discrete (found_rows rows m)
unfolding found_rows
found_rows-Distinct [] m d = d
found_rows-Distinct ((b, v) ∷ rows) m d =
    found_rows-Distinct rows _ (upsert-Distinct string_discrete b (some v) m d)

all_missing-Distinct : (as₁ : List String) → Distinct string_discrete (all_missing as₁)
unfolding all_missing
all_missing-Distinct [] = tt
all_missing-Distinct (a ∷ as₁) = upsert-Distinct string_discrete a none _ (all_missing-Distinct as₁)

lookup-all_missing :
    (as₁ : List String) (a : String)
    → lookup string_discrete a (all_missing as₁) ≡ (if contains as₁ a then some none else none)
unfolding all_missing contains lookup
lookup-all_missing [] a = refl
lookup-all_missing (b ∷ as₁) a =
    ground
      (arith, lookup-upsert string_discrete a b none (all_missing as₁), lookup-all_missing as₁ a)

-- Every row of a prefetch is what the table has.
abbrev pub Right : String → Table Key Bytes → Table String (Option Bytes) → Type 0
Right jid t m =
    (a : String) (row : Option Bytes)
    → lookup string_discrete a m ≡ some row
    → lookup key_discrete (jid, a) t ≡ row

module _ (jid : String) (addresses : List String) (t : Table Key Bytes) where
  abbrev pub rows_found : Table String (Option Bytes)
  rows_found = found_rows (select_many jid addresses t) (all_missing addresses)

  pub rows_found-Distinct : Distinct string_discrete rows_found
  rows_found-Distinct = found_rows-Distinct _ _ (all_missing-Distinct addresses)

  -- The answer of `GetManySessions`: each address with its row, or nil, and no other.
  pub lookup-rows_found :
      (a : String)
      → Distinct key_discrete t
      → lookup string_discrete a rows_found
        ≡ (if contains addresses a then some (lookup key_discrete (jid, a) t) else none)
  lookup-rows_found a d = ground (
    arith,
    lookup-found_rows (select_many jid addresses t) (all_missing addresses) a
        (select_many-Distinct jid addresses t d),
    lookup-select_many jid addresses t a,
    lookup-all_missing addresses a,
  )

  pub rows_found-Right : Distinct key_discrete t → Right jid t rows_found
  rows_found-Right d a row e = ground (arith, lookup-rows_found a d)

lookup-empty : (S : Type 0) (a : String) → lookup {B = Entry S} string_discrete a [] ≡ none
unfolding lookup
lookup-empty S a = refl

-- What `LoadSession` reads in a row.
unfoldable pub read : (codec : Codec) → Option Bytes → Option codec.Session
read codec none = some codec.new_session
read codec (some raw) = codec.deserialize raw

module _ (jid : String) (t : Table Key Bytes) (b : String) (row : Option Bytes)
    (m : Table String (Option Bytes)) (r : Right jid t ((b, row) ∷ m)) where
  Right-head : lookup key_discrete (jid, b) t ≡ row
  unfolding lookup
  Right-head = r b row (if_pos (string_discrete b b) refl _ _)

  Right-tail : lookup string_discrete b m ≡ none → Right jid t m
  unfolding lookup
  Right-tail d a w e = ground (arith, r a w)

module _ (codec : Codec) (sync : SyncMap (Entry codec.Session)) (jid : String) where
  -- A prefetched entry is clean and holds what a load from the table would return.
  pub prefetched-clean :
      (m : Table String (Option Bytes)) (t : Table Key Bytes) (a : String) (e : Entry codec.Session)
      → Distinct string_discrete m
      → Right jid t m
      → lookup string_discrete a (prefetched codec sync jid m).1 ≡ some e
      → (e.dirty ≡ false) × (read codec (lookup key_discrete (jid, a) t) ≡ some e.session)
  unfolding prefetched read
  prefetched-clean [] t a e d r h = absurd (cc (lookup-empty codec.Session a))
  prefetched-clean ((b, none) ∷ m) t a e d r h =
      let others = (prefetched codec sync jid m).1 in
      let v : Entry codec.Session = record {
        dirty = false;
        found = false;
        session = codec.new_session;
      } in
      ground (
        arith,
        Right-head jid t b none m r,
        prefetched-clean m t a e d.1 (Right-tail jid t b none m r d.0),
        lookup-upsert string_discrete a b v others,
      )
  prefetched-clean ((b, some raw) ∷ m) t a e d r h = elim (Option-cases (codec.deserialize raw)) [
    | inl bad ↦ prefetched-clean m t a e d.1 (Right-tail jid t b (some raw) m r d.0) (ground arith)
    | inr (x, good) ↦
        let others = (prefetched codec sync jid m).1 in
        let v : Entry codec.Session = record { dirty = false; found = true; session = x } in
        ground (
          arith,
          Right-head jid t b (some raw) m r,
          prefetched-clean m t a e d.1 (Right-tail jid t b (some raw) m r d.0),
          lookup-upsert string_discrete a b v others,
        )
  ]
