-- ===== src/PreKeys/Returns.antt =====
-- `GetOrGenPreKeys` of store/sqlstore/store.go returns, when no statement fails and the ids last.
use zev_bot.Prelude.{
  ℕ, zero, suc, ◌+◌, ◌-◌, ◌≤◌, ◌<◌, ◌%◌, ◌^◌, String, ◌≡◌, refl, Option, none, some, List, [], ◌∷◌,
  ◌++◌, Bool, true, false, All, length, ltb, if◌then◌else◌, arith, subst, sym, ap,
}
use zev_bot.Table.{lookup, upsert, lookup-upsert}
use zev_bot.Sql.{
  Result, ok, err, constraint, Conn, Faults, exec-quiet, query-quiet, query_rows-quiet, ◌>>=◌, pure,
  wrapping, tick,
}
use zev_bot.Sql.Post.{Post, bind-Post, wrapping-Post}
use zev_bot.Signal.{Bytes}
use zev_bot.Signal.Simulation.{NoFaults}
use zev_bot.PreKeys.Store.{
  PreKeyId, pre_key_id_discrete, Row, PreKeyDb, PreKey, max_id, insert_row, insert_pre_key,
  make_pre_key, get_next_pre_key_id, generate, top_up, get_or_gen_pre_keys, existing_pre_keys,
  scan_pre_keys, oldest, unuploaded,
}
use zev_bot.PreKeys.Rows.{All-mono, All-take, All-ordered, lookup-max_id, unuploaded-Held}
use zev_bot.PreKeys.Insert.{Valid}

module _ (jid : String) where
  -- All ids of the device are below `id`.
  abbrev Free : ℕ → PreKeyDb → Type 0
  Free id t = (j : ℕ) (r : Row) → lookup pre_key_id_discrete (jid, j) t ≡ some r → j < id

  insert_row-Free :
      (id : ℕ) (r : Row) (t : PreKeyDb)
      → Free id t
      → id < 16777216
      → insert_row (jid, id) r t ≡ ok (upsert pre_key_id_discrete (jid, id) r t)
  unfolding insert_row
  insert_row-Free id r t free small = at (lookup pre_key_id_discrete (jid, id) t) (free id)
    where
      at :
          (o : Option Row)
          → ((q : Row) → o ≡ some q → id < id)
          → (elim o [
            | some old ↦ err constraint
            | none ↦
                if ltb id 16777216
                then ok (upsert pre_key_id_discrete (jid, id) r t)
                else err constraint
          ])
            ≡ ok (upsert pre_key_id_discrete (jid, id) r t)
      at none h = ground (arith, small)
      at (some q) h = ground (arith, h q refl)

scan_pre_keys-All :
    (ks : List PreKey) → All (λ (k : PreKey). length k.priv ≡ 32) ks → scan_pre_keys ks none ≡ ok ks
unfolding scan_pre_keys
scan_pre_keys-All [] h = refl
scan_pre_keys-All (k ∷ ks) h = ground (arith, scan_pre_keys-All ks h.1, h.0)

module _ {C : Type 0} (random : ℕ → Bytes) (jid : String) (f : Faults) (quiet : NoFaults f) where
  abbrev Returned :
      {A : Type 0} → (A → Conn PreKeyDb C → Type 0) → Result A × Conn PreKeyDb C → Type 0
  Returned Q = Post Q (λ c. ⊥)

  make_pre_key-Returned :
      (id : ℕ) (s : Conn PreKeyDb C)
      → Free jid id s.db
      → id < 16777216
      → Returned (λ k c. Free jid (suc id) c.db) (make_pre_key random jid id false f s)
  unfolding make_pre_key insert_pre_key
  make_pre_key-Returned id s free small =
      let r : Row = record { key = random s.clock; uploaded = false } in
      rw
        (exec-quiet (insert_row (jid, id) r) f s _ (quiet s.clock)
          (insert_row-Free jid id r s.db free small))
        (λ j q e. ground (
          arith,
          e,
          free j q,
          lookup-upsert pre_key_id_discrete (jid, j) (jid, id) r s.db,
          ap {B = ℕ} (λ (i : PreKeyId). i.1) {x = (jid, id)} {y = (jid, j)},
        ))

  generate-Returned :
      (n id : ℕ) (s : Conn PreKeyDb C)
      → Free jid id s.db
      → id + n ≤ 16777216
      → Returned (λ ks c. Unit {0}) (generate random jid n id f s)
  unfolding generate
  generate-Returned zero id s free small = tt
  generate-Returned (suc n) id s free small =
      let next = (id + 1) % 2 ^ 32 in
      let is : next ≡ suc id = omega (arith, small) in
      bind-Post (λ k c. Free jid (suc id) c.db) (λ ks c. Unit {0}) (λ c. ⊥)
        (wrapping "failed to generate prekey" (make_pre_key random jid id false))
        (λ k. generate random jid n next >>= λ ks. pure (k ∷ ks)) f s
        (wrapping-Post (λ k c. Free jid (suc id) c.db) (λ c. ⊥) "failed to generate prekey"
          (make_pre_key random jid id false) f s
          (make_pre_key-Returned id s free (omega (arith, small))))
        (λ k c free'.
          bind-Post (λ ks d. Unit {0}) (λ ks d. Unit {0}) (λ d. ⊥) (generate random jid n next)
            (λ ks. pure (k ∷ ks)) f c
            (generate-Returned n next c (subst (λ i. Free jid i c.db) (sym is) free')
              (omega (arith, small, is)))
            (λ ks d u. tt))

  existing_pre_keys-Returned :
      (count : ℕ) (s : Conn PreKeyDb C)
      → Valid s.db
      → Returned (λ ks c. c.db ≡ s.db) (existing_pre_keys jid count f s)
  unfolding existing_pre_keys
  existing_pre_keys-Returned count s v =
      let full =
        All-mono (λ k h. (v.bounded (jid, k.key_id) _ h).1) (unuploaded jid s.db)
          (unuploaded-Held jid s.db v.distinct) in
      let scans =
        scan_pre_keys-All (oldest jid count s.db) (All-take _ count _ (All-ordered _ _ full)) in
      rw (query_rows-quiet (oldest jid count) f s (quiet s.clock), scans) refl

  top_up-Returned :
      (count : ℕ) (ks : List PreKey) (s : Conn PreKeyDb C)
      → Valid s.db
      → max_id jid s.db + 1 + count ≤ 16777216
      → Returned (λ ks c. Unit {0}) (top_up random jid count ks f s)
  unfolding top_up get_next_pre_key_id
  top_up-Returned count ks s v room = at (ltb (length ks) count)
    where
      last : PreKeyDb → Result ℕ
      last d = ok (max_id jid d)

      next : ℕ
      next = (max_id jid s.db + 1) % 2 ^ 32

      is : next ≡ max_id jid s.db + 1
      is = omega (arith, room)

      free : Free jid next s.db
      free j r e = omega (arith, is, lookup-max_id jid s.db j r e)

      filled :
          Returned
            (λ ks c. Unit {0})
            ((generate random jid (count - length ks) next >>= λ new. pure (ks ++ new)) f (tick s))
      filled =
          bind-Post (λ new c. Unit {0}) (λ ks c. Unit {0}) (λ c. ⊥)
            (generate random jid (count - length ks) next) (λ new. pure (ks ++ new)) f (tick s)
            (generate-Returned (count - length ks) next (tick s) free (omega (arith, is, room)))
            (λ new c u. tt)

      at :
          (b : Bool)
          → Returned
              (λ ks c. Unit {0})
              ((if b
                  then (get_next_pre_key_id jid >>= λ id.
                      generate random jid (count - length ks) id >>= λ new. pure (ks ++ new))
                  else pure ks)
                f s)
      at true = rw (query-quiet last f s (quiet s.clock)) filled
      at false = tt

  -- When no statement fails and the 24-bit ids last for the batch, GetOrGenPreKeys of a valid table
  -- returns its keys and no error.
  pub get_or_gen_pre_keys-returns :
      (count : ℕ) (s : Conn PreKeyDb C)
      → Valid s.db
      → max_id jid s.db + 1 + count ≤ 16777216
      → (ks : List PreKey) × (c : Conn PreKeyDb C) × (get_or_gen_pre_keys random jid count f s
          ≡ (ok ks, c))
  unfolding get_or_gen_pre_keys
  get_or_gen_pre_keys-returns count s v room = returned _ post refl
    where
      post : Returned (λ ks c. Unit {0}) (get_or_gen_pre_keys random jid count f s)
      post =
          bind-Post (λ ks c. c.db ≡ s.db) (λ ks c. Unit {0}) (λ c. ⊥) (existing_pre_keys jid count)
            (top_up random jid count) f s (existing_pre_keys-Returned count s v)
            (λ ks c same.
              top_up-Returned count ks c (subst Valid (sym same) v)
                (subst (λ d. max_id jid d + 1 + count ≤ 16777216) (sym same) room))

      returned :
          (r : Result (List PreKey) × Conn PreKeyDb C)
          → Returned (λ ks c. Unit {0}) r
          → get_or_gen_pre_keys random jid count f s ≡ r
          → (ks : List PreKey) × (c : Conn PreKeyDb C) × (get_or_gen_pre_keys random jid count f s
              ≡ (ok ks, c))
      returned (ok ks, c) p e = (ks, c, e)
      returned (err x, c) p e = elim p [ ]
