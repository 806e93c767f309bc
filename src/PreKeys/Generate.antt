-- ===== src/PreKeys/Generate.antt =====
-- `GetOrGenPreKeys` of store/sqlstore/store.go: the batch of keys that it returns.
use zev_bot.Prelude.{
  ℕ, zero, suc, ◌+◌, ◌-◌, ◌≤◌, ◌<◌, ◌%◌, ◌^◌, String, ◌≡◌, refl, subst, List, ◌∷◌, ◌++◌, Bool, true,
  false, All, length, length-append, ltb, if◌then◌else◌, arith, inl, inr, ◌⊎◌,
}
use zev_bot.Sql.{ok, Conn, Faults, exec, query, ◌>>=◌, pure, wrapping}
use zev_bot.Sql.Post.{Post, Post-mono, query-Post, bind-Post, wrapping-Post, exec-Post}
use zev_bot.Signal.{Bytes}
use zev_bot.PreKeys.Store.{
  Row, PreKeyDb, PreKey, max_id, insert_row, insert_pre_key, make_pre_key, get_next_pre_key_id,
  generate, top_up, existing_pre_keys, get_or_gen_pre_keys,
}
use zev_bot.PreKeys.Rows.{Ascending, All-mono, All-append, append-Ascending, Held, max_id_lt}
use zev_bot.PreKeys.Insert.{Valid, Grown, Grown-trans, Grown-same, Inserted, insert_row-Inserted}
use zev_bot.PreKeys.Existing.{Partial, existing_pre_keys-Partial}

abbrev Above : ℕ → List PreKey → Type 0
Above id ks = All (λ (k : PreKey). id ≤ k.key_id) ks

module _ {C : Type 0} (random : ℕ → Bytes) (drawn : (n : ℕ) → length (random n) ≡ 32)
    (jid : String) where
  abbrev Made : ℕ → PreKeyDb → PreKey → Conn PreKeyDb C → Type 0
  Made id t k s = Grown t s.db × Held jid s.db k × (k.key_id ≡ id) × (id < 16777216)

  make_pre_key-Made :
      (id : ℕ) (f : Faults) (s : Conn PreKeyDb C)
      → Valid s.db
      → Post (Made id s.db) (λ c. Grown s.db c.db) (make_pre_key random jid id false f s)
  unfolding make_pre_key insert_pre_key
  make_pre_key-Made id f s v =
      let k : PreKey = record { key_id = id; priv = random s.clock } in
      let r : Row = record { key = random s.clock; uploaded = false } in
      let ins = insert_row-Inserted (jid, id) r s.db v (drawn s.clock) in
      bind-Post (λ u c. Inserted (jid, id) r s.db (ok c.db)) (Made id s.db) (λ c. Grown s.db c.db)
        (exec (insert_row (jid, id) r)) (λ u. pure k) f s
        (exec-Post _ (λ c. Grown s.db c.db) (insert_row (jid, id) r) f s (λ k q h. h, v)
          (λ d e. subst (Inserted (jid, id) r s.db) e ins))
        (λ u c (grows, valid, stored, small). ((grows, valid), stored, refl, small))

  abbrev Generated : ℕ → ℕ → PreKeyDb → List PreKey → Conn PreKeyDb C → Type 0
  Generated n id t ks s =
      Grown t s.db × All (Held jid s.db) ks × Above id ks × Ascending ks × (length ks ≡ n)

  generate-Generated :
      (n id : ℕ) (f : Faults) (s : Conn PreKeyDb C)
      → Valid s.db
      → Post (Generated n id s.db) (λ c. Grown s.db c.db) (generate random jid n id f s)
  unfolding generate
  generate-Generated zero id f s v = ((λ k r q. q, v), tt, tt, tt, refl)
  generate-Generated (suc n) id f s v =
      let next_id = (id + 1) % 2 ^ 32 in
      bind-Post (Made id s.db) (Generated (suc n) id s.db) (λ c. Grown s.db c.db)
        (wrapping "failed to generate prekey" (make_pre_key random jid id false))
        (λ k. generate random jid n next_id >>= λ ks. pure (k ∷ ks)) f s
        (wrapping-Post (Made id s.db) (λ c. Grown s.db c.db) "failed to generate prekey"
          (make_pre_key random jid id false) f s (make_pre_key-Made id f s v))
        (λ k c (grown, held, is, small).
          bind-Post (Generated n next_id c.db) (Generated (suc n) id s.db) (λ c. Grown s.db c.db)
            (generate random jid n next_id) (λ ks. pure (k ∷ ks)) f c
            (Post-mono (Generated n next_id c.db) (Generated n next_id c.db) (λ d. Grown c.db d.db)
              (λ d. Grown s.db d.db) (generate random jid n next_id f c) (λ ks d p. p)
              (λ d. Grown-trans s.db c.db d.db grown) (generate-Generated n next_id f c grown.1))
            (λ ks d (grown', helds, above, ascending, long).
              let up : Above (suc id) ks = All-mono (λ j l. omega (arith, l, small)) ks above in
              (
                Grown-trans s.db c.db d.db grown grown',
                (grown'.0 _ _ held, helds),
                (omega (arith, is), All-mono (λ j l. omega (arith, l)) ks up),
                (All-mono (λ j l. omega (arith, l, is)) ks up, ascending),
                omega (arith, long),
              )))

  next_id :
      (f : Faults) (s : Conn PreKeyDb C)
      → Valid s.db
      → Post
          (λ id c. (id ≡ max_id jid s.db + 1) × (c.db ≡ s.db))
          (λ c. c.db ≡ s.db)
          (get_next_pre_key_id jid f s)
  unfolding get_next_pre_key_id
  next_id f s v =
      let small : max_id jid s.db < 16777216 =
        max_id_lt jid s.db 16777216 (omega arith) (λ id r e. (v.bounded (jid, id) r e).0) in
      bind-Post (λ last c. (last ≡ max_id jid s.db) × (c.db ≡ s.db)) _ _
        (wrapping "failed to query next prekey ID" (query (λ d. ok (max_id jid d))))
        (λ last. pure ((last + 1) % 2 ^ 32)) f s
        (wrapping-Post _ _ "failed to query next prekey ID" (query (λ d. ok (max_id jid d))) f s (
          query-Post (λ c. c.db ≡ s.db) f s _ (λ d. ok (max_id jid d)) refl
            (λ a e. (ground (arith, e), refl))))
        (λ last c (is, same). (omega (arith, is, small), same))

  -- A batch: so many keys, in strictly ascending order, all of them held and not uploaded, in a table
  -- that has lost and changed nothing. A key that was not held has an id above all ids so far.
  abbrev pub Batch : ℕ → PreKeyDb → List PreKey → Conn PreKeyDb C → Type 0
  Batch count t ks s =
      Grown t s.db
      × All (Held jid s.db) ks
      × Ascending ks
      × (length ks ≡ count)
      × All (λ (k : PreKey). Held jid t k ⊎ (max_id jid t < k.key_id)) ks

  top_up-Batch :
      (count : ℕ) (ks : List PreKey) (f : Faults) (s : Conn PreKeyDb C)
      → Valid s.db
      → Partial jid count s.db ks
      → Post (Batch count s.db) (λ c. Grown s.db c.db) (top_up random jid count ks f s)
  unfolding top_up
  top_up-Batch count ks f s v (held, asc, low, short) = at (ltb (length ks) count) refl
    where
      fill :
          length ks < count
          → Post
              (Batch count s.db)
              (λ c. Grown s.db c.db)
              ((get_next_pre_key_id jid >>= λ id.
                  generate random jid (count - length ks) id >>= λ new. pure (ks ++ new))
                f s)
      fill l =
          bind-Post (λ id c. (id ≡ max_id jid s.db + 1) × (c.db ≡ s.db)) (Batch count s.db) _
            (get_next_pre_key_id jid) _ f s
            (Post-mono _ _ (λ c. c.db ≡ s.db) (λ c. Grown s.db c.db) (get_next_pre_key_id jid f s)
              (λ id c p. p) (λ c. Grown-same s.db c.db v) (next_id f s v))
            (λ id c (is, same).
              let grown : Grown s.db c.db = Grown-same s.db c.db v same in
              bind-Post (Generated (count - length ks) id c.db) (Batch count s.db) _
                (generate random jid (count - length ks) id) (λ new. pure (ks ++ new)) f c
                (Post-mono _ _ (λ d. Grown c.db d.db) (λ d. Grown s.db d.db)
                  (generate random jid (count - length ks) id f c) (λ new d p. p)
                  (λ d. Grown-trans s.db c.db d.db grown)
                  (generate-Generated (count - length ks) id f c grown.1))
                (λ new d (grown', helds, above, ascending, long).
                  let total = Grown-trans s.db c.db d.db grown grown' in
                  (
                    total,
                    All-append _ ks new (All-mono (λ k h. total.0 _ _ h) ks held) helds,
                    append-Ascending ks new (max_id jid s.db) asc ascending low
                        (All-mono (λ k h. omega (arith, h, is)) new above),
                    omega (arith, length-append ks new, long, l),
                    All-append _ ks new (All-mono (λ k h. inl h) ks held)
                        (All-mono (λ k h. inr (omega (arith, h, is))) new above),
                  )))

      at :
          (b : Bool)
          → ltb (length ks) count ≡ b
          → Post
              (Batch count s.db)
              (λ c. Grown s.db c.db)
              ((if b
                  then (get_next_pre_key_id jid >>= λ id.
                      generate random jid (count - length ks) id >>= λ new. pure (ks ++ new))
                  else pure ks)
                f s)
      at true e = fill (ground (arith, e))
      at false e =
          ((λ k r q. q, v), held, asc, ground (arith, e, short), All-mono (λ k h. inl h) ks held)

  -- Whatever statement fails, no row of a valid table is lost or changed, and the table stays valid.
  -- When GetOrGenPreKeys returns, it returns as many keys as it was asked for, in strictly ascending
  -- order of their ids, and each is in the table with its private key and not uploaded. A key that was
  -- not there before has an id above all the ids that the device had.
  pub get_or_gen_pre_keys-Batch :
      (count : ℕ) (f : Faults) (s : Conn PreKeyDb C)
      → Valid s.db
      → Post (Batch count s.db) (λ c. Grown s.db c.db) (get_or_gen_pre_keys random jid count f s)
  unfolding get_or_gen_pre_keys
  get_or_gen_pre_keys-Batch count f s v =
      bind-Post (λ ks c. (c.db ≡ s.db) × Partial jid count s.db ks) (Batch count s.db)
        (λ c. Grown s.db c.db) (existing_pre_keys jid count) (top_up random jid count) f s
        (Post-mono _ _ (λ c. c.db ≡ s.db) (λ c. Grown s.db c.db) (existing_pre_keys jid count f s)
          (λ ks c p. p) (λ c. Grown-same s.db c.db v) (existing_pre_keys-Partial jid count f s v))
        (λ ks c (same, partial).
          subst
            (λ d.
              Valid d
              → Partial jid count d ks
              → Post (Batch count d) (λ c'. Grown d c'.db) (top_up random jid count ks f c))
            same (top_up-Batch count ks f c) v partial)
