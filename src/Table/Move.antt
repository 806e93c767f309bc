-- ===== src/Table/Move.antt =====
-- Rows that are moved to other keys of the same table, as `INSERT … SELECT … ON CONFLICT DO UPDATE`
-- and a `DELETE` do it.
use zev_bot.Prelude.{
  ◌≡◌, ◌≢◌, refl, Option, none, some, [], ◌∷◌, Bool, true, false, arith, if◌then◌else◌, ap,
  Option-cases,
}
use zev_bot.Table.Defs.{Table, delete_where, kept, upsert, Distinct}
use zev_bot.Table.Laws.{lookup-upsert, lookup-delete_where, upsert-Distinct}
use mathlib.Core.List.{lookup}

module _ {ℓ} {K V : Type ℓ} where
  -- The rows that `SELECT move(key), … WHERE hit(key)` gives.
  unfoldable pub moved : (K → Bool) → (K → K) → Table K V → Table K V
  moved hit move [] = []
  moved hit move ((k, v) ∷ t) =
      let rest = moved hit move t in if hit k then (move k, v) ∷ rest else rest

  -- `INSERT … ON CONFLICT DO UPDATE` of several rows
  unfoldable pub upsert_all : Discrete K → Table K V → Table K V → Table K V
  upsert_all dec [] t = t
  upsert_all dec ((k, v) ∷ rows) t = upsert_all dec rows (upsert dec k v t)

  abbrev pub relocated : Discrete K → (K → Bool) → (K → K) → Table K V → Table K V
  relocated dec hit move t = delete_where (λ k v. hit k) (upsert_all dec (moved hit move t) t)

abbrev or_else {ℓ} : {V : Type ℓ} → Option V → Option V → Option V
or_else none o = o
or_else (some v) o = some v

-- A key that has a row.
abbrev pub Has {ℓ} : {K V : Type ℓ} → Discrete K → K → Table K V → Type ℓ
Has dec k t = lookup dec k t ≢ none

-- The rows that are hit move to different keys, which are not hit.
pub record Moves {ℓ} {K V : Type ℓ} (dec : Discrete K) (hit : K → Bool) (move : K → K)
    (t : Table K V) : Type ℓ where
  pub away : (k : K) → Has dec k t → hit k ≡ true → hit (move k) ≡ false
  pub injective :
      (j k : K) → Has dec j t → Has dec k t → hit j ≡ true → hit k ≡ true → move j ≡ move k → j ≡ k

module _ {ℓ} {K V : Type ℓ} (dec : Discrete K) where
  Has-head : (j : K) (w : V) (t : Table K V) → Has dec j ((j, w) ∷ t)
  unfolding lookup
  Has-head j w t = λ e. ground (arith, e)

  Has-tail : (j k : K) (w : V) (t : Table K V) → Has dec k t → Has dec k ((j, w) ∷ t)
  unfolding lookup
  Has-tail j k w t h = λ e. ground (arith, e, h)

  lookup-upsert_all :
      (j : K) (rows t : Table K V)
      → Distinct dec rows
      → lookup dec j (upsert_all dec rows t) ≡ or_else (lookup dec j rows) (lookup dec j t)
  unfolding upsert_all lookup
  lookup-upsert_all j [] t d = refl
  lookup-upsert_all j ((k, v) ∷ rows) t d =
      ground
        (arith, d.0, lookup-upsert_all j rows (upsert dec k v t) d.1, lookup-upsert dec j k v t)

  upsert_all-Distinct : (rows t : Table K V) → Distinct dec t → Distinct dec (upsert_all dec rows t)
  unfolding upsert_all
  upsert_all-Distinct [] t d = d
  upsert_all-Distinct ((k, v) ∷ rows) t d =
      upsert_all-Distinct rows (upsert dec k v t) (upsert-Distinct dec k v t d)

  module _ (hit : K → Bool) (move : K → K) where
    -- The rows that move to the key of `k` are those of `k`.
    abbrev Alone : K → Table K V → Type ℓ
    Alone k t = (j : K) → Has dec j t → hit j ≡ true → move j ≡ move k → j ≡ k

    lookup-moved :
        (k : K) (t : Table K V)
        → hit k ≡ true
        → Alone k t
        → lookup dec (move k) (moved hit move t) ≡ lookup dec k t
    unfolding moved lookup
    lookup-moved k [] h alone = refl
    lookup-moved k ((j, w) ∷ t) h alone = ground (
      arith,
      h,
      lookup-moved k t h (λ i has. alone i (Has-tail j i w t has)),
      alone j (Has-head j w t),
      ap move {x = k} {y = j},
    )

    -- Each row that is hit stands alone.
    abbrev AllAlone : Table K V → Type ℓ
    AllAlone t = (k : K) → Has dec k t → hit k ≡ true → Alone k t

    moved-Distinct : (t : Table K V) → AllAlone t → Distinct dec t → Distinct dec (moved hit move t)
    unfolding moved
    moved-Distinct [] alone d = tt
    moved-Distinct ((j, w) ∷ t) alone d =
        let first = λ (h : hit j ≡ true).
          lookup-moved j t h (λ i has. alone j (Has-head j w t) h i (Has-tail j i w t has)) in
        let rest =
          moved-Distinct t
            (λ k has h i has'. alone k (Has-tail j k w t has) h i (Has-tail j i w t has')) d.1 in
        ground (arith, first, rest, d.0)

    lookup-unmoved :
        (k : K) (t : Table K V)
        → ((j : K) → Has dec j t → hit j ≡ true → move j ≢ k)
        → lookup dec k (moved hit move t) ≡ none
    unfolding moved lookup
    lookup-unmoved k [] h = refl
    lookup-unmoved k ((j, w) ∷ t) h =
        ground
          (arith, h j (Has-head j w t), lookup-unmoved k t (λ i has. h i (Has-tail j i w t has)))

-- What each key shows after the move: a moved row stands at its new key, and a row that is neither
-- moved nor moved to stays.
pub record Relocated {ℓ} {K V : Type ℓ} (dec : Discrete K) (hit : K → Bool) (move : K → K)
    (before after : Table K V) : Type ℓ where
  pub arrived :
      (k : K) (v : V)
      → hit k ≡ true
      → lookup dec k before ≡ some v
      → lookup dec (move k) after ≡ some v
  pub left : (k : K) → hit k ≡ true → lookup dec k after ≡ none
  pub stayed :
      (k : K)
      → hit k ≡ false
      → ((j : K) → Has dec j before → hit j ≡ true → move j ≢ k)
      → lookup dec k after ≡ lookup dec k before

pub relocated-Relocated {ℓ} :
    {K V : Type ℓ} (dec : Discrete K) (hit : K → Bool) (move : K → K) (t : Table K V)
    → Moves dec hit move t
    → Distinct dec t
    → Relocated dec hit move t (relocated dec hit move t)
relocated-Relocated {K = K} {V = V} dec hit move t m d = record {
  arrived = λ k v h e. ground (
    arith,
    h,
    e,
    shown (move k),
    inserted (move k),
    m.away k (has k v e) h,
    lookup-moved dec hit move k t h (λ j has_j h_j q. m.injective j k has_j (has k v e) h_j h q),
  );
  left = λ k h. ground (arith, h, shown k, Option-cases (lookup dec k all_rows));
  stayed = λ k h n. ground (arith, h, shown k, inserted k, lookup-unmoved dec hit move k t n);
}
  where
    has : (k : K) (v : V) → lookup dec k t ≡ some v → Has dec k t
    has k v e = λ n. ground (arith, e, n)

    alone : AllAlone dec hit move t
    alone k has_k h j has_j h_j q = m.injective j k has_j has_k h_j h q

    all_rows : Table K V
    all_rows = upsert_all dec (moved hit move t) t

    shown :
        (k : K)
        → lookup dec k (delete_where (λ k v. hit k) all_rows)
          ≡ kept (λ k v. hit k) k (lookup dec k all_rows)
    shown k = lookup-delete_where dec (λ k v. hit k) k all_rows (upsert_all-Distinct dec _ t d)

    inserted :
        (k : K) → lookup dec k all_rows ≡ or_else (lookup dec k (moved hit move t)) (lookup dec k t)
    inserted k = lookup-upsert_all dec k _ t (moved-Distinct dec hit move t alone d)
