-- ===== src/PreKeys/Insert.antt =====
-- What an INSERT of store/sqlstore/store.go does to a valid table of pre keys.
use zev_bot.Prelude.{
  ℕ, ◌<◌, ◌≡◌, refl, ap, sym, subst, Option, none, some, Bool, true, false, length, ltb,
  if◌then◌else◌, arith,
}
use zev_bot.Table.{Distinct, lookup, upsert, lookup-upsert, upsert-Distinct}
use zev_bot.Sql.{Result, ok, err, constraint}
use zev_bot.PreKeys.Store.{PreKeyId, pre_key_id_discrete, Row, PreKeyDb, insert_row}

-- The schema of `pre_keys`: a primary key, 24-bit ids and 32-byte keys.
pub record Valid (t : PreKeyDb) : Type 0 where
  pub distinct : Distinct pre_key_id_discrete t
  pub bounded :
      (k : PreKeyId) (r : Row)
      → lookup pre_key_id_discrete k t ≡ some r
      → (k.1 < 16777216) × (length r.key ≡ 32)

-- All rows of `t` stand in `t'` as they were.
abbrev pub Extends : PreKeyDb → PreKeyDb → Type 0
Extends t t' =
    (k : PreKeyId) (r : Row)
    → lookup pre_key_id_discrete k t ≡ some r
    → lookup pre_key_id_discrete k t' ≡ some r

abbrev pub Grown : PreKeyDb → PreKeyDb → Type 0
Grown t t' = Extends t t' × Valid t'

pub Grown-trans : (a b c : PreKeyDb) → Grown a b → Grown b c → Grown a c
Grown-trans a b c g h = (λ k r e. h.0 k r (g.0 k r e), h.1)

pub Grown-same : (a b : PreKeyDb) → Valid a → b ≡ a → Grown a b
Grown-same a b v e = subst (Grown a) (sym e) ((λ k r q. q), v)

abbrev pub Inserted : PreKeyId → Row → PreKeyDb → Result PreKeyDb → Type 0
Inserted k r t (err e) = Unit
Inserted k r t (ok t') =
    Extends t t' × Valid t' × (lookup pre_key_id_discrete k t' ≡ some r) × (k.1 < 16777216)

module _ (k : PreKeyId) (r : Row) (t : PreKeyDb) (valid : Valid t) (full : length r.key ≡ 32) where
  upsert-Valid : k.1 < 16777216 → Valid (upsert pre_key_id_discrete k r t)
  upsert-Valid l = record {
    distinct = upsert-Distinct pre_key_id_discrete k r t valid.distinct;
    bounded = λ j q e. ground (
      arith,
      valid.bounded j q,
      lookup-upsert pre_key_id_discrete j k r t,
      e,
      full,
      ap {B = ℕ} (λ (i : PreKeyId). i.1) {x = k} {y = j},
      l,
      ap {B = ℕ} (λ (o : Row). length o.key) {x = r} {y = q},
    );
  }

  upsert-Extends :
      lookup pre_key_id_discrete k t ≡ none → Extends t (upsert pre_key_id_discrete k r t)
  upsert-Extends n j q e = ground (
    arith,
    lookup-upsert pre_key_id_discrete j k r t,
    e,
    n,
    ap (λ (i : PreKeyId). lookup pre_key_id_discrete i t) {x = k} {y = j},
  )

  pub insert_row-Inserted : Inserted k r t (insert_row k r t)
  unfolding insert_row
  insert_row-Inserted = at (lookup pre_key_id_discrete k t) refl (ltb k.1 16777216) refl
    where
      at :
          (o : Option Row)
          → lookup pre_key_id_discrete k t ≡ o
          → (b : Bool) → ltb k.1 16777216 ≡ b
          → Inserted k r t (elim o [
            | some old ↦ err constraint
            | none ↦ if b then ok (upsert pre_key_id_discrete k r t) else err constraint
          ])
      at (some old) e b h = tt
      at none e false h = tt
      at none e true h =
          let l : k.1 < 16777216 = ground (arith, h) in
          (
            upsert-Extends e,
            upsert-Valid l,
            ground (arith, lookup-upsert pre_key_id_discrete k k r t),
            l,
          )
