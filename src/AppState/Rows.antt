-- ===== src/AppState/Rows.antt =====
-- What the rows of a PutAppStateMutationMACs (store/sqlstore/store.go) do to the newest MAC of an index.
use zev_bot.Prelude.{
  ℕ, ◌≤◌, String, ◌≡◌, ◌≢◌, refl, sym, ap, ◌∙◌, subst, none, some, List, [], ◌∷◌, ◌++◌, All, arith,
  inl, inr, Option-cases,
}
use zev_bot.Table.{Table, lookup}
use zev_bot.Sql.{Result, ok, err, ok-injective}
use zev_bot.Signal.{Bytes, bytes_discrete}
use zev_bot.AppState.Store.{
  MacId, mac_id_discrete, Mutation, AppStateDb, newest, insert_mac, insert_macs,
}

module _ (jid name : String) (version : ℕ) where
  -- No stored version of the name is greater.
  abbrev pub Below : Table MacId Bytes → Type 0
  Below [] = Unit
  Below ((k, v) ∷ t) = (k.0 ≡ jid → k.1 ≡ name → k.2 ≤ version) × Below t

  -- The row that an accepted mutation adds.
  abbrev pub with_mac : Mutation → AppStateDb → AppStateDb
  with_mac m d = record d { macs = ((jid, name, version, m.index_mac), m.value_mac) ∷ d.macs }

  insert_mac-ok :
      (m : Mutation) (d d' : AppStateDb)
      → insert_mac jid name version m d ≡ ok d'
      → (lookup mac_id_discrete (jid, name, version, m.index_mac) d.macs ≡ none)
        × (d' ≡ with_mac m d)
  unfolding insert_mac
  insert_mac-ok m d d' e = ground (arith, e, ok-injective {a = with_mac m d} {b = d'})

  newest-version :
      (index : Bytes) (t : Table MacId Bytes) (w : ℕ) (b : Bytes)
      → newest jid name index t ≡ some (w, b)
      → Below t
      → w ≤ version
  unfolding newest
  newest-version index [] w b e h = ground (arith, e)
  newest-version index ((k, x) ∷ t) w b e h = ground (arith, e, h, newest-version index t w b)

  newest-with_mac :
      (m : Mutation) (d : AppStateDb)
      → Below d.macs
      → newest jid name m.index_mac (with_mac m d).macs ≡ some (version, m.value_mac)
  unfolding newest
  newest-with_mac m d h = elim (Option-cases (newest jid name m.index_mac d.macs)) [
    | inl e ↦ ground (arith, e)
    | inr (best, e) ↦ ground (arith, e, newest-version m.index_mac d.macs best.0 best.1 e h)
  ]

  newest-lookup :
      (index : Bytes) (t : Table MacId Bytes) (w : ℕ) (b : Bytes)
      → newest jid name index t ≡ some (w, b)
      → lookup mac_id_discrete (jid, name, w, index) t ≢ none
  unfolding newest lookup
  newest-lookup index [] w b e = ground (arith, e)
  newest-lookup index ((k, x) ∷ t) w b e = ground (arith, e, newest-lookup index t w b)

  newest-other :
      (index : Bytes) (m : Mutation) (d : AppStateDb)
      → m.index_mac ≢ index
      → newest jid name index (with_mac m d).macs ≡ newest jid name index d.macs
  unfolding newest
  newest-other index m d n = ground (arith, n)

  -- A newest MAC of this version stays the newest, since its index is not accepted again.
  newest-kept :
      (m : Mutation) (d : AppStateDb) (index value : Bytes)
      → lookup mac_id_discrete (jid, name, version, m.index_mac) d.macs ≡ none
      → newest jid name index d.macs ≡ some (version, value)
      → newest jid name index (with_mac m d).macs ≡ some (version, value)
  newest-kept m d index value new e = elim (bytes_discrete m.index_mac index) [
    | yes q ↦ absurd (
        newest-lookup index d.macs version value e
          (subst (λ i. lookup mac_id_discrete (jid, name, version, i) d.macs ≡ none) q new))
    | no n ↦ newest-other index m d n ∙ e
  ]

  -- What accepted mutations leave: no greater version, the newest MACs of this version, and each
  -- mutation as the newest of its index.
  abbrev pub Extended : List Mutation → AppStateDb → AppStateDb → Type 0
  Extended ms d d' =
      Below d'.macs
      × ((index value : Bytes)
          → newest jid name index d.macs ≡ some (version, value)
          → newest jid name index d'.macs ≡ some (version, value))
      × All (λ m. newest jid name m.index_mac d'.macs ≡ some (version, m.value_mac)) ms

  with_mac-Extended :
      (m : Mutation) (ms : List Mutation) (d d' : AppStateDb)
      → Below d.macs
      → lookup mac_id_discrete (jid, name, version, m.index_mac) d.macs ≡ none
      → Extended ms (with_mac m d) d'
      → Extended (m ∷ ms) d d'
  with_mac-Extended m ms d d' h new (below, kept, all) = (
    below,
    (λ index value e. kept index value (newest-kept m d index value new e)),
    (kept m.index_mac m.value_mac (newest-with_mac m d h), all),
  )

  pub insert_macs-Extended :
      (ms : List Mutation) (d d' : AppStateDb)
      → Below d.macs
      → insert_macs jid name version ms d ≡ ok d'
      → Extended ms d d'
  unfolding insert_macs
  insert_macs-Extended [] d d' h e =
      subst (Extended [] d) (ok-injective e) (h, (λ index value q. q), tt)
  insert_macs-Extended (m ∷ ms) d d' h e =
      at (insert_macs-Extended ms (with_mac m d) d' ((λ _ _. omega arith), h))
        (insert_mac jid name version m d) refl e
    where
      at :
          (insert_macs jid name version ms (with_mac m d) ≡ ok d' → Extended ms (with_mac m d) d')
          → (r : Result AppStateDb) → insert_mac jid name version m d ≡ r
          → elim r [ err x ↦ err x | ok d₁ ↦ insert_macs jid name version ms d₁ ] ≡ ok d'
          → Extended (m ∷ ms) d d'
      at others (err x) q e = ground (arith, e)
      at others (ok d₁) q e =
          let (new, made) = insert_mac-ok m d d₁ q in
          with_mac-Extended m ms d d' h new
            (others (ap (insert_macs jid name version ms) (sym made) ∙ e))

  All-append :
      (P : Mutation → Type 0) (xs ys : List Mutation) → All P xs → All P ys → All P (xs ++ ys)
  All-append P [] ys p q = q
  All-append P (x ∷ xs) ys (p, ps) q = (p, All-append P xs ys ps q)

  All-map :
      (P Q : Mutation → Type 0)
      → ((m : Mutation) → P m → Q m)
      → (xs : List Mutation) → All P xs
      → All Q xs
  All-map P Q f [] p = tt
  All-map P Q f (x ∷ xs) (p, ps) = (f x p, All-map P Q f xs ps)

  pub Extended-append :
      (xs ys : List Mutation) (d d' d'' : AppStateDb)
      → Extended xs d d'
      → Extended ys d' d''
      → Extended (xs ++ ys) d d''
  Extended-append xs ys d d' d'' (b, k, all) (b', k', all') = (
    b',
    (λ i v e. k' i v (k i v e)),
    All-append _ xs ys (All-map _ _ (λ m e. k' m.index_mac m.value_mac e) xs all) all',
  )
