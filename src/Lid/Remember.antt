-- ===== src/Lid/Remember.antt =====
-- What lookups and scans put into the caches of `CachedLIDMap` agrees with the table.
use zev_bot.Prelude.{
  ℕ, zero, suc, String, ◌≡◌, ◌≢◌, none, some, List, [], ◌∷◌, arith, string_discrete, take, All,
  subst,
}
use zev_bot.Table.{lookup, lookup-upsert}
use zev_bot.Lid.Tables.{
  LidDb, Cache, lid_of, pn_of, or_empty, remember, Direction, to_lid, to_pn, select, scan_row,
  scan_many_lids,
}
use zev_bot.Lid.Unique.{Unique, lid_of-pn_of, pn_of-lid_of}
use zev_bot.Lid.Coherence.{Coherent}

abbrev dec : Discrete String
dec = string_discrete

module _ (t : LidDb) (c : Cache) (h : Coherent t c) (u : String) where
  remember-to_lid : Coherent t (remember to_lid u (or_empty (lid_of u t)) c)
  unfolding remember
  remember-to_lid =
      let v = or_empty (lid_of u t) in
      record {
        unique = h.unique;
        named = h.named;
        lids = λ p w e. ground (arith, lookup-upsert dec p u v c.pn_to_lid, h.lids p w);
        pns = λ l w e.
            ground
              (arith, lookup-upsert dec l v u c.lid_to_pn, h.pns l w, pn_of-lid_of l u t h.unique);
        lids_back = λ p l e ne. ground (
          arith,
          lookup-upsert dec p u v c.pn_to_lid,
          lookup-upsert dec l v u c.lid_to_pn,
          h.lids_back p l,
          h.lids p l,
          pn_of-lid_of l u t h.unique,
          pn_of-lid_of l p t h.unique,
        );
        pns_back = λ l p e ne. ground (
          arith,
          lookup-upsert dec p u v c.pn_to_lid,
          lookup-upsert dec l v u c.lid_to_pn,
          h.pns_back l p,
          h.pns l p,
          lid_of-pn_of l p t h.unique,
        );
        complete = λ p l f e. ground (arith, lookup-upsert dec p u v c.pn_to_lid, h.complete p l f);
      }

  remember-to_pn : Coherent t (remember to_pn u (or_empty (pn_of u t)) c)
  unfolding remember
  remember-to_pn =
      let v = or_empty (pn_of u t) in
      record {
        unique = h.unique;
        named = h.named;
        lids = λ p w e.
            ground
              (arith, lookup-upsert dec p v u c.pn_to_lid, h.lids p w, lid_of-pn_of u p t h.unique);
        pns = λ l w e. ground (arith, lookup-upsert dec l u v c.lid_to_pn, h.pns l w);
        lids_back = λ p l e ne. ground (
          arith,
          lookup-upsert dec p v u c.pn_to_lid,
          lookup-upsert dec l u v c.lid_to_pn,
          h.lids_back p l,
          h.lids p l,
          pn_of-lid_of l p t h.unique,
        );
        pns_back = λ l p e ne. ground (
          arith,
          lookup-upsert dec p v u c.pn_to_lid,
          lookup-upsert dec l u v c.lid_to_pn,
          h.pns_back l p,
          h.pns l p,
          lid_of-pn_of u p t h.unique,
          lid_of-pn_of l p t h.unique,
        );
        complete = λ p l f e. ground (
          arith,
          lookup-upsert dec p v u c.pn_to_lid,
          h.complete p l f,
          pn_of-lid_of l p t h.unique,
          lid_of-pn_of u p t h.unique,
        );
      }

-- A lookup that went to the table leaves caches that agree with it.
pub remember-Coherent :
    (dir : Direction) (t : LidDb) (c : Cache) (u : String)
    → Coherent t c
    → Coherent t (remember dir u (or_empty (select dir u t)) c)
remember-Coherent to_lid t c u h = remember-to_lid t c h u
remember-Coherent to_pn t c u h = remember-to_pn t c h u

abbrev pub Listed : LidDb → String × String → Type 0
Listed t r = pn_of r.0 t ≡ some r.1

-- A scanned row is remembered as a lookup of its phone number would be.
scan_row-remember :
    (t : LidDb) (c : Cache) (l p : String)
    → lid_of p t ≡ some l
    → l ≢ ""
    → remember to_lid p (or_empty (lid_of p t)) c ≡ scan_row (l, p) c
unfolding scan_row remember
scan_row-remember t c l p e ne = ground arith

scan_row-Coherent :
    (t : LidDb) (c : Cache) (r : String × String)
    → Coherent t c
    → Listed t r
    → Coherent t (scan_row r c)
scan_row-Coherent t c (l, p) h e =
    subst (Coherent t) (scan_row-remember t c l p (lid_of-pn_of l p t h.unique e) (h.named l p e).0)
      (remember-Coherent to_lid t c p h)

pub scan_many_lids-Coherent :
    (t : LidDb) (c : Cache) (rows : List (String × String))
    → Coherent t c
    → All (Listed t) rows
    → Coherent t (scan_many_lids rows c)
unfolding scan_many_lids
scan_many_lids-Coherent t c [] h a = h
scan_many_lids-Coherent t c (r ∷ rows) h a =
    scan_many_lids-Coherent t (scan_row r c) rows (scan_row-Coherent t c r h a.0) a.1

-- The rows that a query delivers are rows of the table.
Listed-cons :
    (t rows : LidDb) (l p : String)
    → pn_of l t ≡ none
    → All (Listed t) rows
    → All (Listed ((l, p) ∷ t)) rows
unfolding lookup
Listed-cons t [] l p h a = tt
Listed-cons t ((k, q) ∷ rows) l p h a = (ground arith, Listed-cons t rows l p h a.1)

pub Listed-self : (t : LidDb) → Unique t → All (Listed t) t
unfolding lookup
Listed-self [] u = tt
Listed-self ((l, p) ∷ t) u = (ground arith, Listed-cons t t l p u.0 (Listed-self t u.2))

pub All-take : (t rows : LidDb) (n : ℕ) → All (Listed t) rows → All (Listed t) (take n rows)
All-take t rows zero a = tt
All-take t [] (suc n) a = tt
All-take t (r ∷ rows) (suc n) a = (a.0, All-take t rows n a.1)

-- A scan drops no entry.
kept-scan :
    (p : String) (rows : List (String × String)) (c : Cache)
    → lookup dec p c.pn_to_lid ≢ none
    → lookup dec p (scan_many_lids rows c).pn_to_lid ≢ none
unfolding scan_many_lids scan_row
kept-scan p [] c h = h
kept-scan p ((l, q) ∷ rows) c h =
    kept-scan p rows (scan_row (l, q) c) (ground (arith, lookup-upsert dec p q l c.pn_to_lid))

-- After a scan, every phone number of the rows has an entry.
pub scanned-has_entry :
    (p l : String) (rows : List (String × String)) (c : Cache)
    → lid_of p rows ≡ some l
    → lookup dec p (scan_many_lids rows c).pn_to_lid ≢ none
unfolding scan_many_lids scan_row lid_of
scanned-has_entry p l [] c e = λ _. cc
scanned-has_entry p l ((k, q) ∷ rows) c e = elim (string_discrete p q) [
  | yes same ↦
      kept-scan p rows (scan_row (k, q) c) (ground (arith, lookup-upsert dec p q k c.pn_to_lid))
  | no other ↦ scanned-has_entry p l rows (scan_row (k, q) c) (ground arith)
]
