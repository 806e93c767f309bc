-- ===== src/PreKeys/Rows.antt =====
-- The rows that the pre key queries of store/sqlstore/store.go select: their order, their bounds, and
-- that they are stored.
use zev_bot.Prelude.{
  ℕ, zero, suc, ◌≤◌, ◌<◌, String, ◌≡◌, ◌≢◌, refl, ap, sym, ap₂, ◌∙◌, none, some, List, [], ◌∷◌,
  ◌++◌, false, All, take, arith, ite,
}
use zev_bot.Table.{Distinct, lookup}
use zev_bot.PreKeys.Store.{
  PreKeyId, pre_key_id_discrete, Row, PreKeyDb, PreKey, max_id, unuploaded, insert, ordered,
}

-- Strictly ascending ids.
abbrev pub Ascending : List PreKey → Type 0
Ascending [] = Unit
Ascending (k ∷ ks) = All (λ (j : PreKey). k.key_id < j.key_id) ks × Ascending ks

module _ {A : Type 0} {P Q : A → Type 0} where
  pub All-mono : ((a : A) → P a → Q a) → (xs : List A) → All P xs → All Q xs
  All-mono f [] h = tt
  All-mono f (x ∷ xs) h = (f x h.0, All-mono f xs h.1)

module _ {A : Type 0} (P : A → Type 0) where
  pub All-take : (n : ℕ) (xs : List A) → All P xs → All P (take n xs)
  All-take zero xs h = tt
  All-take (suc n) [] h = tt
  All-take (suc n) (x ∷ xs) h = (h.0, All-take n xs h.1)

  pub All-append : (xs ys : List A) → All P xs → All P ys → All P (xs ++ ys)
  All-append [] ys h g = g
  All-append (x ∷ xs) ys h g = (h.0, All-append xs ys h.1 g)

module _ (P : PreKey → Type 0) where
  All-insert : (k : PreKey) (ks : List PreKey) → P k → All P ks → All P (insert k ks)
  unfolding insert
  All-insert k [] p h = (p, tt)
  All-insert k (j ∷ js) p h = ground (arith, p, h, All-insert k js p h.1)

  pub All-ordered : (ks : List PreKey) → All P ks → All P (ordered ks)
  unfolding ordered
  All-ordered [] h = tt
  All-ordered (k ∷ ks) h = All-insert k (ordered ks) h.0 (All-ordered ks h.1)

insert-Ascending :
    (k : PreKey) (ks : List PreKey)
    → All (λ (j : PreKey). k.key_id ≢ j.key_id) ks
    → Ascending ks
    → Ascending (insert k ks)
unfolding insert
insert-Ascending k [] n h = (tt, tt)
insert-Ascending k (j ∷ js) n h = ground (
  arith,
  n,
  h,
  insert-Ascending k js n.1 h.1,
  above,
  All-insert (λ (i : PreKey). j.key_id < i.key_id) k js,
)
  where
    above : k.key_id < j.key_id → All (λ (i : PreKey). k.key_id < i.key_id) js
    above l = All-mono (λ i m. omega (arith, l, m)) js h.0

-- Each id once.
abbrev pub Once : List PreKey → Type 0
Once [] = Unit
Once (k ∷ ks) = All (λ (j : PreKey). k.key_id ≢ j.key_id) ks × Once ks

pub ordered-Ascending : (ks : List PreKey) → Once ks → Ascending (ordered ks)
unfolding ordered
ordered-Ascending [] h = tt
ordered-Ascending (k ∷ ks) h =
    insert-Ascending k (ordered ks) (All-ordered _ ks h.0) (ordered-Ascending ks h.1)

pub take-Ascending : (n : ℕ) (ks : List PreKey) → Ascending ks → Ascending (take n ks)
take-Ascending zero ks h = tt
take-Ascending (suc n) [] h = tt
take-Ascending (suc n) (k ∷ ks) h = (All-take _ n ks h.0, take-Ascending n ks h.1)

pub append-Ascending :
    (ks js : List PreKey) (b : ℕ)
    → Ascending ks
    → Ascending js
    → All (λ (k : PreKey). k.key_id ≤ b) ks
    → All (λ (j : PreKey). b < j.key_id) js
    → Ascending (ks ++ js)
append-Ascending [] js b h g u l = g
append-Ascending (k ∷ ks) js b h g u l = (
  All-append _ ks js h.0 (All-mono (λ j m. omega (arith, m, u.0)) js l),
  append-Ascending ks js b h.1 g u.1 l,
)

none-some : {A : Type 0} {a : A} → none ≡ some a → ⊥
none-some e = ground (arith, e)

module _ (jid : String) where
  -- A key that the table holds, not uploaded.
  abbrev pub Held : PreKeyDb → PreKey → Type 0
  Held t k =
      lookup pre_key_id_discrete (jid, k.key_id) t
      ≡ some (record { key = k.priv; uploaded = false })

  pub lookup-max_id :
      (t : PreKeyDb) (id : ℕ) (r : Row)
      → lookup pre_key_id_discrete (jid, id) t ≡ some r
      → id ≤ max_id jid t
  unfolding lookup max_id pre_key_id_discrete
  lookup-max_id [] id r e = ground (arith, e)
  lookup-max_id (((j, i), q) ∷ t) id r e = ground (arith, e, lookup-max_id t id r)

  -- A row that the rest of the table does not have leaves what the rest holds.
  Held-cons :
      (i : PreKeyId) (q : Row) (t : PreKeyDb) (k : PreKey)
      → lookup pre_key_id_discrete i t ≡ none
      → Held t k
      → Held ((i, q) ∷ t) k
  unfolding lookup
  Held-cons i q t k n h = ground (
    arith,
    n,
    h,
    ap (λ (x : PreKeyId). lookup pre_key_id_discrete x t) {x = (jid, k.key_id)} {y = i},
  )

  Held-head :
      (j : String) (i : ℕ) (q : Row) (t : PreKeyDb)
      → j ≡ jid
      → q.uploaded ≡ false
      → Held (((j, i), q) ∷ t) (record { key_id = i; priv = q.key })
  unfolding lookup
  Held-head j i q t e u = ground (arith, u, ap {B = PreKeyId} (λ (x : String). (x, i)) e)

  pub unuploaded-Held :
      (t : PreKeyDb) → Distinct pre_key_id_discrete t → All (Held t) (unuploaded jid t)
  unfolding unuploaded
  unuploaded-Held [] d = tt
  unuploaded-Held (((j, i), q) ∷ t) d =
      let rest : All (Held (((j, i), q) ∷ t)) (unuploaded jid t) =
        All-mono (λ k h. Held-cons (j, i) q t k d.0 h) (unuploaded jid t) (unuploaded-Held t d.1) in
      ground (arith, rest, Held-head j i q t)

  pub unuploaded-Once : (t : PreKeyDb) → Distinct pre_key_id_discrete t → Once (unuploaded jid t)
  unfolding unuploaded
  unuploaded-Once [] d = tt
  unuploaded-Once (((j, i), q) ∷ t) d = ground (arith, unuploaded-Once t d.1, other)
    where
      other : j ≡ jid → All (λ (k : PreKey). i ≢ k.key_id) (unuploaded jid t)
      other e = All-mono differs (unuploaded jid t) (unuploaded-Held t d.1)
        where
          differs : (k : PreKey) → Held t k → i ≢ k.key_id
          differs k h f =
              none-some (sym d.0 ∙ ap₂ (λ a b. lookup pre_key_id_discrete (a, b) t) e f ∙ h)

  lookup-cons :
      (k i : PreKeyId) (q r : Row) (t : PreKeyDb)
      → lookup pre_key_id_discrete k t ≡ some r
      → (r' : Row) × (lookup pre_key_id_discrete k ((i, q) ∷ t) ≡ some r')
  unfolding lookup
  lookup-cons k i q r t e = at (pre_key_id_discrete k i)
    where
      at :
          (d : Dec (k ≡ i))
          → (r' : Row) × (ite d (some q) (lookup pre_key_id_discrete k t) ≡ some r')
      at (yes y) = (q, refl)
      at (no n) = (r, e)

  lookup-head :
      (j : String) (i : ℕ) (q : Row) (t : PreKeyDb)
      → j ≡ jid
      → lookup pre_key_id_discrete (jid, i) (((j, i), q) ∷ t) ≡ some q
  unfolding lookup
  lookup-head j i q t e = ground (arith, ap {B = PreKeyId} (λ (x : String). (x, i)) e)

  -- A bound of the device's ids bounds the largest.
  pub max_id_lt :
      (t : PreKeyDb) (bound : ℕ)
      → 0 < bound
      → ((id : ℕ) (r : Row) → lookup pre_key_id_discrete (jid, id) t ≡ some r → id < bound)
      → max_id jid t < bound
  unfolding max_id
  max_id_lt [] bound pos h = pos
  max_id_lt (((j, i), q) ∷ t) bound pos h =
      let rest : max_id jid t < bound =
        max_id_lt t bound pos
          (λ id r e. let (r', e') = lookup-cons (jid, id) (j, i) q r t e in h id r' e') in
      let head : j ≡ jid → i < bound = λ e. h i q (lookup-head j i q t e) in
      ground (arith, rest, head)
