-- ===== src/PreKeys/Existing.antt =====
-- The keys that `GetOrGenPreKeys` of store/sqlstore/store.go finds.
use zev_bot.Prelude.{
  ℕ, ◌≤◌, String, ◌≡◌, refl, sym, ◌∙◌, subst, ◌==◌, Option, none, some, List, [], ◌∷◌, Bool, true,
  false, All, length, length-take, if◌then◌else◌, arith,
}
use zev_bot.Sql.{Error, Result, ok, err, invalid_length, Conn, Faults, query_rows, ◌>>=◌}
use zev_bot.Sql.Post.{Post, query_rows-Post, bind-Post, wrapping-Post}
use zev_bot.PreKeys.Store.{
  PreKeyDb, PreKey, max_id, unuploaded, ordered, scan_pre_keys, existing_pre_keys, scanned, oldest,
}
use zev_bot.PreKeys.Rows.{
  Ascending, All-mono, All-ordered, All-take, ordered-Ascending, take-Ascending, Held,
  lookup-max_id, unuploaded-Held, unuploaded-Once,
}
use zev_bot.PreKeys.Insert.{Valid}

-- The keys that a batch starts with.
abbrev pub Partial : String → ℕ → PreKeyDb → List PreKey → Type 0
Partial jid count t ks =
    All (Held jid t) ks
    × Ascending ks
    × All (λ (k : PreKey). k.key_id ≤ max_id jid t) ks
    × (length ks ≤ count)

oldest-Partial :
    (jid : String) (count : ℕ) (t : PreKeyDb) → Valid t → Partial jid count t (oldest jid count t)
oldest-Partial jid count t v =
    let held = unuploaded-Held jid t v.distinct in
    let low = All-mono (λ k h. lookup-max_id jid t k.key_id _ h) (unuploaded jid t) held in
    (
      All-take _ count _ (All-ordered _ _ held),
      take-Ascending count _ (ordered-Ascending _ (unuploaded-Once jid t v.distinct)),
      All-take _ count _ (All-ordered _ _ low),
      omega (arith, length-take count (ordered (unuploaded jid t))),
    )

scan-ok :
    (ks js : List PreKey) (e : Option Error) → scan_pre_keys ks e ≡ ok js → (js ≡ ks) × (e ≡ none)
unfolding scan_pre_keys
scan-ok [] js none h = ground (arith, h)
scan-ok [] js (some x) h = ground (arith, h)
scan-ok (k ∷ ks) js e h =
    at (scan_pre_keys ks e) (λ is q. scan-ok ks is e q) (length k.priv == 32) h
  where
    at :
        (r : Result (List PreKey))
        → ((is : List PreKey) → r ≡ ok is → (is ≡ ks) × (e ≡ none))
        → (b : Bool)
        → (if b then (elim r [ ok js ↦ ok (k ∷ js) | err x ↦ err x ]) else err invalid_length)
          ≡ ok js
        → (js ≡ k ∷ ks) × (e ≡ none)
    at (ok is) q true h = ground (arith, h, q is refl)
    at (err x) q true h = ground (arith, h)
    at r q false h = ground (arith, h)

module _ {C : Type 0} (jid : String) where
  scanned-Post :
      (rows : List PreKey) (e : Option Error) (s c : Conn PreKeyDb C) (count : ℕ)
      → Valid s.db
      → c.db ≡ s.db
      → (e ≡ none → rows ≡ oldest jid count s.db)
      → Post
          (λ ks d. (d.db ≡ s.db) × Partial jid count s.db ks)
          (λ d. d.db ≡ s.db)
          (scan_pre_keys rows e, c)
  scanned-Post rows e s c count v same whole = at (scan_pre_keys rows e) refl
    where
      at :
          (r : Result (List PreKey))
          → scan_pre_keys rows e ≡ r
          → Post (λ ks d. (d.db ≡ s.db) × Partial jid count s.db ks) (λ d. d.db ≡ s.db) (r, c)
      at (err x) h = same
      at (ok ks) h =
          let (all_rows, done) = scan-ok rows ks e h in
          (
            same,
            subst (Partial jid count s.db) (sym (all_rows ∙ whole done))
                (oldest-Partial jid count s.db v),
          )

  pub existing_pre_keys-Partial :
      (count : ℕ) (f : Faults) (s : Conn PreKeyDb C)
      → Valid s.db
      → Post
          (λ ks c. (c.db ≡ s.db) × Partial jid count s.db ks)
          (λ c. c.db ≡ s.db)
          (existing_pre_keys jid count f s)
  unfolding existing_pre_keys
  existing_pre_keys-Partial count f s v =
      let Q : List PreKey → Conn PreKeyDb C → Type 0 =
        λ ks c. (c.db ≡ s.db) × Partial jid count s.db ks in
      let E : Conn PreKeyDb C → Type 0 = λ c. c.db ≡ s.db in
      let whole : List PreKey × Option Error → Conn PreKeyDb C → Type 0 =
        λ (rows, e) c. (c.db ≡ s.db) × (e ≡ none → rows ≡ oldest jid count s.db) in
      wrapping-Post Q E "failed to query existing prekeys"
        (query_rows (oldest jid count) >>= scanned) f s
        (bind-Post whole Q E (query_rows (oldest jid count)) scanned f s
          (query_rows-Post E f s whole (oldest jid count) (λ n e. (refl, λ h. ground (arith, h)))
            (refl, λ h. refl))
          (λ (rows, e) c (same, all_rows). scanned-Post rows e s c count v same all_rows))
