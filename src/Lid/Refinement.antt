-- ===== src/Lid/Refinement.antt =====
-- What a client of `CachedLIDMap` can rely on: the table is a partial one-to-one relation between LIDs
-- and phone numbers, and a write that returns without an error replaces the pairs of both sides.
use zev_bot.Prelude.{String, ◌≡◌, ◌≢◌, ◌↔◌, refl, some, true, arith, string_discrete, ◌⊎◌, inl, inr}
use zev_bot.Table.{lookup}
use zev_bot.Sql.{Error, Result, ok, err, Faults, Txn}
use zev_bot.Jid.{Jid, Types}
use zev_bot.Lid.Tables.{LidDb, Cache, LidMap, pn_of}
use zev_bot.Lid.Methods.{put_lid_mapping, get_lid_for_pn, get_pn_for_lid, is_cached}
use zev_bot.Lid.Unique.{Unique, replaced, pn_of-replaced, lid_of-pn_of, pn_of-lid_of}
use zev_bot.Lid.Coherence.{recache_self, recache-Coherent}
use zev_bot.Lid.Refresh.{InStep}
use zev_bot.Lid.Writes.{Ended, known, stored, unchanged, put_lid_mapping-Ended}

-- The pair stands in the table.
abbrev pub Linked : LidDb → String → String → Type 0
Linked t l p = pn_of l t ≡ some p

-- The relation with the pair (lid, pn) put in place of every pair that has a side of it.
abbrev pub Relinked : LidDb → String → String → String → String → Type 0
Relinked t lid pn l p = ((l ≡ lid) × (p ≡ pn)) ⊎ (Linked t l p × (l ≢ lid) × (p ≢ pn))

module _ (t : LidDb) (lid pn : String) (u : Unique t) (l p : String) where
  replaced→Relinked : Linked (replaced lid pn t) l p → Relinked t lid pn l p
  replaced→Relinked e = ground (arith, pn_of-replaced lid pn l t u)

  Relinked→replaced : Relinked t lid pn l p → Linked (replaced lid pn t) l p
  Relinked→replaced e = ground (arith, pn_of-replaced lid pn l t u)

  -- A pair that is there already stays, and so does every other.
  linked→Relinked : Linked t lid pn → Linked t l p → Relinked t lid pn l p
  linked→Relinked e h =
      ground (arith, lid_of-pn_of l p t u, lid_of-pn_of lid pn t u, string_discrete l lid)

  Relinked→linked : Linked t lid pn → Relinked t lid pn l p → Linked t l p
  Relinked→linked e h = ground arith

-- What the caches hold of a pair.
abbrev pub Held : Cache → String → String → Type 0
Held c lid pn =
    (lookup string_discrete pn c.pn_to_lid ≡ some lid)
    × (lookup string_discrete lid c.lid_to_pn ≡ some pn)

-- A lookup of a phone number or a LID that the caches hold.
module _ (types : Types) (lid pn : Jid) (g : Faults) (s : LidMap) where
  pub held-lid :
      pn.server ≡ types.default_user_server
      → lid.user ≢ ""
      → lookup string_discrete pn.user s.mem.pn_to_lid ≡ some lid.user
      → get_lid_for_pn types pn g s ≡ (
        ok (record { user = lid.user; device = pn.device; server = types.hidden_user_server }),
        s,
      )
  unfolding get_lid_for_pn
  held-lid e named held = ground arith

  held-pn :
      lid.server ≡ types.hidden_user_server
      → pn.user ≢ ""
      → lookup string_discrete lid.user s.mem.lid_to_pn ≡ some pn.user
      → get_pn_for_lid types lid g s ≡ (
        ok (record { user = pn.user; device = lid.device; server = types.default_user_server }),
        s,
      )
  unfolding get_pn_for_lid
  held-pn e named held = ground arith

module _ (types : Types) (txn : Txn LidDb Cache) (lid pn : Jid) (s : LidMap) (h : InStep s) where
  module _ (lid_named : lid.user ≢ "") (pn_named : pn.user ≢ "") where
    known-Held : is_cached types lid.user pn.user s.mem ≡ true → Held s.mem lid.user pn.user
    known-Held e = (ground arith, ground (arith, h.lids_back pn.user lid.user))

    known-Linked : is_cached types lid.user pn.user s.mem ≡ true → Linked s.db lid.user pn.user
    known-Linked e =
        ground (arith, h.lids pn.user lid.user, pn_of-lid_of lid.user pn.user s.db h.unique)

    Ended-InStep :
        {r : Result (Unit {0}) × LidMap} → Ended types lid pn s r → r.0 ≡ ok tt → InStep r.1
    Ended-InStep (known e) o = h
    Ended-InStep (stored c d m) o =
        rw (d, m) (recache-Coherent s.db s.mem h lid.user pn.user lid_named pn_named)
    Ended-InStep (unchanged e c d) o = absurd (cc)

    Ended-Held :
        {r : Result (Unit {0}) × LidMap}
        → Ended types lid pn s r
        → r.0 ≡ ok tt
        → Held r.1.mem lid.user pn.user
    Ended-Held (known e) o = known-Held e
    Ended-Held (stored c d m) o = rw m (recache_self s.db s.mem h lid.user pn.user)
    Ended-Held (unchanged e c d) o = absurd (cc)

    Ended-Relinked :
        {r : Result (Unit {0}) × LidMap}
        → Ended types lid pn s r
        → r.0 ≡ ok tt
        → (l p : String) → Linked r.1.db l p ↔ Relinked s.db lid.user pn.user l p
    Ended-Relinked (known e) o l p = (
      linked→Relinked s.db lid.user pn.user h.unique l p (known-Linked e),
      Relinked→linked s.db lid.user pn.user h.unique l p (known-Linked e),
    )
    Ended-Relinked (stored c d m) o l p = rw d (
      replaced→Relinked s.db lid.user pn.user h.unique l p,
      Relinked→replaced s.db lid.user pn.user h.unique l p,
    )
    Ended-Relinked (unchanged e c d) o l p = absurd (cc)

-- Every outcome of `PutLIDMapping` on a map in step: an error with the table as it was, or success, the
-- caches in step and the pair (lid, pn) in place of every pair that shared a side with it.
pub put_lid_mapping-refines :
    (types : Types) (txn : Txn LidDb Cache) (lid pn : Jid) (f : Faults) (s : LidMap)
    → InStep s
    → lid.user ≢ ""
    → pn.user ≢ ""
    → ((e : Error) × ((put_lid_mapping types txn lid pn f s).0 ≡ err e)
        × ((put_lid_mapping types txn lid pn f s).1.db ≡ s.db))
      ⊎ (((put_lid_mapping types txn lid pn f s).0 ≡ ok tt)
          × InStep (put_lid_mapping types txn lid pn f s).1
          × ((l p : String)
              → Linked (put_lid_mapping types txn lid pn f s).1.db l p
                ↔ Relinked s.db lid.user pn.user l p))
put_lid_mapping-refines types txn lid pn f s h lid_named pn_named =
    split (put_lid_mapping-Ended types txn lid pn f s h.unique)
  where
    split :
        {r : Result (Unit {0}) × LidMap}
        → Ended types lid pn s r
        → ((e : Error) × (r.0 ≡ err e) × (r.1.db ≡ s.db))
          ⊎ ((r.0 ≡ ok tt)
              × InStep r.1
              × ((l p : String) → Linked r.1.db l p ↔ Relinked s.db lid.user pn.user l p))
    split (unchanged e c d) = inl (e, refl, d)
    split {r} (known e) =
        inr (refl, h, Ended-Relinked types txn lid pn s h lid_named pn_named (known e) refl)
    split (stored c d m) = inr (
      refl,
      Ended-InStep types txn lid pn s h lid_named pn_named (stored c d m) refl,
      Ended-Relinked types txn lid pn s h lid_named pn_named (stored c d m) refl,
    )

-- After a `PutLIDMapping` that succeeded, both lookups answer with the pair from the caches: no
-- statement is executed, so no failure of the database matters, and the state stays.
pub get-put_lid_mapping :
    (types : Types) (txn : Txn LidDb Cache) (lid pn : Jid) (f g : Faults) (s : LidMap)
    → InStep s
    → lid.user ≢ ""
    → pn.user ≢ ""
    → lid.server ≡ types.hidden_user_server
    → pn.server ≡ types.default_user_server
    → (put_lid_mapping types txn lid pn f s).0 ≡ ok tt
    → (get_lid_for_pn types pn g (put_lid_mapping types txn lid pn f s).1 ≡ (
      ok (record { user = lid.user; device = pn.device; server = types.hidden_user_server }),
      (put_lid_mapping types txn lid pn f s).1,
    ))
      × (get_pn_for_lid types lid g (put_lid_mapping types txn lid pn f s).1 ≡ (
        ok (record { user = pn.user; device = lid.device; server = types.default_user_server }),
        (put_lid_mapping types txn lid pn f s).1,
      ))
get-put_lid_mapping types txn lid pn f g s h lid_named pn_named ls ps o =
    let (to, back) =
      Ended-Held types txn lid pn s h lid_named pn_named
        (put_lid_mapping-Ended types txn lid pn f s h.unique) o in
    (held-lid types lid pn g _ ps lid_named to, held-pn types lid pn g _ ls pn_named back)
