-- ===== src/Lid/Batch.antt =====
-- `PutManyLIDMappings`: one transaction for all the mappings that are new.
use zev_bot.Prelude.{
  Option-cases, if◌then◌else◌, false, subst, sym, some, Bool, true, not, ◌&&◌, string_discrete, ◌≡◌,
  ◌≢◌, refl, List, [], ◌∷◌, arith, ◌⊎◌, inl, inr, All, ◌∙◌,
}
use zev_bot.Table.{lookup}
use zev_bot.Sql.{
  Error, Result, ok, err, Faults, Txn, Outcome, not_begun, rolled_back, committed, bind-ok,
  bind-err,
}
use zev_bot.Jid.{Types}
use zev_bot.Lid.Tables.{LidDb, Cache, LidMap, LidMapping}
use zev_bot.Lid.Methods.{
  unlocked_put_lid_mapping, put_many_rows, put_many_lid_mappings, to_write, write_all,
  valid_mapping, is_cached,
}
use zev_bot.Lid.Unique.{replaced}
use zev_bot.Lid.Coherence.{recache-Coherent}
use zev_bot.Lid.Refresh.{InStep}
use zev_bot.Lid.Writes.{Written, written, refused, unlocked-Written}

-- The table after one write for each mapping, in order.
unfoldable pub applied : List LidMapping → LidDb → LidDb
applied [] t = t
applied (m ∷ ms) t = applied ms (replaced m.lid.user m.pn.user t)

abbrev pub BothNamed : LidMapping → Type 0
BothNamed m = (m.lid.user ≢ "") × (m.pn.user ≢ "")

-- A mapping is among those of a batch.
abbrev pub In : LidMapping → List LidMapping → Type 0
In m [] = ⊥
In m (x ∷ xs) = (m ≡ x) ⊎ In m xs

-- `exslices.DeduplicateUnsortedOverwrite` keeps what is in the list, and adds nothing.
abbrev pub KeepsAll : (List LidMapping → List LidMapping) → Type 0
KeepsAll dedup =
    (xs : List LidMapping) (m : LidMapping)
    → (In m (dedup xs) → In m xs) × (In m xs → In m (dedup xs))

In-BothNamed : (ms : List LidMapping) → All BothNamed ms → (m : LidMapping) → In m ms → BothNamed m
In-BothNamed [] a m i = absurd i
In-BothNamed (x ∷ xs) a m (inl e) = subst BothNamed (sym e) a.0
In-BothNamed (x ∷ xs) a m (inr i) = In-BothNamed xs a.1 m i

BothNamed-All :
    (ms : List LidMapping) → ((m : LidMapping) → In m ms → BothNamed m) → All BothNamed ms
BothNamed-All [] h = tt
BothNamed-All (x ∷ xs) h = (h x (inl refl), BothNamed-All xs (λ m i. h m (inr i)))

module _ (types : Types) (c : Cache) where
  open types use {hidden_user_server, default_user_server}

  -- A mapping that a batch is to write: it maps a LID to a phone number, and the cache does not have it.
  abbrev pub Wanted : LidMapping → Type 0
  Wanted m =
      (m.lid.server ≡ hidden_user_server)
      × (m.pn.server ≡ default_user_server)
      × (lookup string_discrete m.pn.user c.pn_to_lid ≢ some m.lid.user)

  wanted_now : (m : LidMapping) → Bool
  wanted_now m = valid_mapping types m.lid m.pn && not (is_cached types m.lid.user m.pn.user c)

  wanted_now-Wanted : (m : LidMapping) → wanted_now m ≡ true → Wanted m
  unfolding wanted_now
  wanted_now-Wanted m e = (ground (arith, e), ground (arith, e), λ q. ground (arith, e, q))

  Wanted-wanted_now : (m : LidMapping) → Wanted m → wanted_now m ≡ true
  unfolding wanted_now
  Wanted-wanted_now m w =
      ground (arith, w, Option-cases (lookup string_discrete m.pn.user c.pn_to_lid))

  kept_or_left :
      (x : LidMapping) (xs rest : List LidMapping) (m : LidMapping)
      → (In m rest → In m xs × Wanted m) × (In m xs × Wanted m → In m rest)
      → (b : Bool) → wanted_now x ≡ b
      → (In m (if b then x ∷ rest else rest) → In m (x ∷ xs) × Wanted m)
        × (In m (x ∷ xs) × Wanted m → In m (if b then x ∷ rest else rest))
  kept_or_left x xs rest m there true e = (
    λ i. elim i [
      | inl q ↦ (inl q, subst Wanted (sym q) (wanted_now-Wanted x e))
      | inr j ↦ (inr (there.0 j).0, (there.0 j).1)
    ],
    λ (i, w). elim i [ inl q ↦ inl q | inr j ↦ inr (there.1 (j, w)) ],
  )
  kept_or_left x xs rest m there false e = (
    λ i. (inr (there.0 i).0, (there.0 i).1),
    λ (i, w). elim i [
      | inl q ↦ absurd (ground (arith, Wanted-wanted_now x (subst Wanted q w), e))
      | inr j ↦ there.1 (j, w)
    ],
  )

  to_write-In :
      (ms : List LidMapping) (m : LidMapping)
      → (In m (to_write types c ms) → In m ms × Wanted m)
        × (In m ms × Wanted m → In m (to_write types c ms))
  unfolding to_write wanted_now
  to_write-In [] m = (λ i. absurd i, λ i. absurd i.0)
  to_write-In (x ∷ xs) m =
      kept_or_left x xs (to_write types c xs) m (to_write-In xs m) (wanted_now x) refl

module _ (types : Types) (f : Faults) where
  -- What a run of the writes that ends without an error has done.
  Done : List LidMapping → LidMap → Result (Unit {0}) × LidMap → Type 0
  Done ms s r = r.0 ≡ ok tt → InStep r.1 × (r.1.db ≡ applied ms s.db)

  go_on :
      (m : LidMapping) (ms : List LidMapping) (s : LidMap) {r : Result (Unit {0}) × LidMap}
      → Written types m.lid m.pn s r
      → InStep s
      → BothNamed m
      → ((c : LidMap) → InStep c → Done ms c (put_many_rows types ms f c))
      → unlocked_put_lid_mapping types m.lid m.pn f s ≡ r
      → Done (m ∷ ms) s (put_many_rows types (m ∷ ms) f s)
  unfolding put_many_rows applied Done
  go_on m ms s (written n good) h named rest e =
      rw
        (bind-ok (unlocked_put_lid_mapping types m.lid m.pn) (λ _. put_many_rows types ms) f s tt _
          e)
        (rest _ (recache-Coherent s.db s.mem h m.lid.user m.pn.user named.0 named.1))
  go_on m ms s (refused x c same) h named rest e =
      rw
        (bind-err (unlocked_put_lid_mapping types m.lid m.pn) (λ _. put_many_rows types ms) f s x c
          e)
        (λ o. absurd (cc))

  put_many_rows-Done :
      (ms : List LidMapping) (s : LidMap)
      → All BothNamed ms
      → InStep s
      → Done ms s (put_many_rows types ms f s)
  unfolding put_many_rows applied Done
  put_many_rows-Done [] s a h = λ o. (h, refl)
  put_many_rows-Done (m ∷ ms) s a h =
      go_on m ms s (unlocked-Written types m.lid m.pn f s h.unique) h a.0
        (λ c. put_many_rows-Done ms c a.1) refl

  -- How the batch ends.
  Batch : List LidMapping → LidMap → Result (Unit {0}) × LidMap → Type 0
  Batch ms s r =
      ((e : Error) × (r.0 ≡ err e) × (r.1.db ≡ s.db))
      ⊎ ((r.0 ≡ ok tt) × InStep r.1 × (r.1.db ≡ applied ms s.db))

  Outcome-Batch :
      (ms : List LidMapping) (s : LidMap) {r : Result (Unit {0}) × LidMap}
      → All BothNamed ms
      → InStep s
      → Outcome (put_many_rows types ms) f s r
      → Batch ms s r
  unfolding Batch Done
  Outcome-Batch ms s a h (not_begun e c d m) = inl (e, refl, d)
  Outcome-Batch ms s a h (rolled_back n e c d m) = inl (e, refl, d)
  Outcome-Batch ms s a h (committed n c e d m) =
      let (step, rows) = put_many_rows-Done ms (record s { clock = n }) a h e in
      inr (refl, rw (d, m) step, d ∙ rows)

-- `PutManyLIDMappings` is atomic in the table: it fails with the table as it was, or it has written one after
-- the other, with the caches in step, the mappings of the batch that map a LID to a phone number and that
-- the cache did not have, all of them and no others. `dedup` is exslices.DeduplicateUnsortedOverwrite.
pub put_many_lid_mappings-atomic :
    (types : Types) (txn : Txn LidDb Cache) (dedup : List LidMapping → List LidMapping)
    (ms : List LidMapping) (f : Faults) (s : LidMap)
    → KeepsAll dedup
    → All BothNamed ms
    → InStep s
    → ((e : Error) × ((put_many_lid_mappings types txn dedup ms f s).0 ≡ err e)
        × ((put_many_lid_mappings types txn dedup ms f s).1.db ≡ s.db))
      ⊎ ((ws : List LidMapping) × ((put_many_lid_mappings types txn dedup ms f s).0 ≡ ok tt)
          × InStep (put_many_lid_mappings types txn dedup ms f s).1
          × ((put_many_lid_mappings types txn dedup ms f s).1.db ≡ applied ws s.db)
          × ((m : LidMapping)
              → (In m ws → In m ms × Wanted types s.mem m)
                × (In m ms × Wanted types s.mem m → In m ws)))
unfolding put_many_lid_mappings Batch applied
put_many_lid_mappings-atomic types txn dedup ms f s keeps named h = elim (batch written named_too) [
  | inl failed ↦ inl failed
  | inr (done, step, rows) ↦ inr (written, done, step, rows, members)
]
  where
    written : List LidMapping
    written = dedup (to_write types s.mem ms)

    members :
        (m : LidMapping)
        → (In m written → In m ms × Wanted types s.mem m)
          × (In m ms × Wanted types s.mem m → In m written)
    members m = (
      λ i. (to_write-In types s.mem ms m).0 ((keeps (to_write types s.mem ms) m).0 i),
      λ i. (keeps (to_write types s.mem ms) m).1 ((to_write-In types s.mem ms m).1 i),
    )

    named_too : All BothNamed written
    named_too = BothNamed-All written (λ m i. In-BothNamed ms named m ((members m).0 i).0)

    batch :
        (xs : List LidMapping) → All BothNamed xs → Batch types f xs s (write_all types txn xs f s)
    batch [] a = inr (refl, h, refl)
    batch (x ∷ xs) a = Outcome-Batch types f (x ∷ xs) s a h (txn.outcome _ f s)
