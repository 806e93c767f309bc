-- ===== src/Lid/Coherence.antt =====
-- The caches of `CachedLIDMap` agree with the table, and what each change of a cache keeps.
use zev_bot.Prelude.{
  String, ◌≡◌, ◌≢◌, ite, none, some, true, arith, str_eq, string_discrete, if◌then◌else◌, not, ◌&&◌,
}
use zev_bot.Table.{Table, lookup, upsert, lookup-upsert, lookup-delete}
use zev_bot.Lid.Tables.{LidDb, Cache, lid_of, pn_of, or_empty, forget, recache}
use zev_bot.Lid.Unique.{
  Unique, lid_of-pn_of, pn_of-lid_of, replaced, replaced-Unique, lid_of-replaced, pn_of-replaced,
}

abbrev pub dec : Discrete String
dec = string_discrete

-- No row has an empty user on a side.
abbrev pub Named : LidDb → Type 0
Named t = (l p : String) → pn_of l t ≡ some p → (l ≢ "") × (p ≢ "")

-- An entry of a cache is what the table says, "" for no row; an entry that names a target stands in
-- both caches; a filled cache has every row.
pub record Coherent (t : LidDb) (c : Cache) : Type 0 where
  pub unique : Unique t
  pub named : Named t
  pub lids : (p v : String) → lookup dec p c.pn_to_lid ≡ some v → or_empty (lid_of p t) ≡ v
  pub pns : (l v : String) → lookup dec l c.lid_to_pn ≡ some v → or_empty (pn_of l t) ≡ v
  pub lids_back :
      (p l : String)
      → lookup dec p c.pn_to_lid ≡ some l
      → l ≢ ""
      → lookup dec l c.lid_to_pn ≡ some p
  pub pns_back :
      (l p : String)
      → lookup dec l c.lid_to_pn ≡ some p
      → p ≢ ""
      → lookup dec p c.pn_to_lid ≡ some l
  pub complete :
      (p l : String) → c.filled ≡ true → lid_of p t ≡ some l → lookup dec p c.pn_to_lid ≡ some l

lookup-forget :
    (q old new back : String) (m : Table String String)
    → lookup dec q (forget old new back m) ≡ (
        if not (str_eq old "")
          && not (str_eq old new)
          && str_eq (or_empty (lookup dec old m)) back
          && str_eq old q
        then none
        else lookup dec q m)
unfolding forget
lookup-forget q old new back m = ground (arith, lookup-delete dec q old m)

module _ (t : LidDb) (c : Cache) (h : Coherent t c) (lid pn : String) where
  abbrev pub c' : Cache
  c' = recache lid pn c

  abbrev old_lid : String
  old_lid = or_empty (lookup dec pn c.pn_to_lid)

  abbrev old_pn : String
  old_pn = or_empty (lookup dec lid c.lid_to_pn)

  lookup-pn_to_lid :
      (q : String)
      → lookup dec q c'.pn_to_lid ≡ (
          if not (str_eq old_pn "")
            && not (str_eq old_pn pn)
            && str_eq (or_empty (lookup dec old_pn c.pn_to_lid)) lid
            && str_eq old_pn q
          then none
          else ite (dec pn q) (some lid) (lookup dec q c.pn_to_lid))
  unfolding recache
  lookup-pn_to_lid q = ground (
    arith,
    lookup-forget q old_pn pn lid (upsert dec pn lid c.pn_to_lid),
    lookup-upsert dec q pn lid c.pn_to_lid,
    lookup-upsert dec old_pn pn lid c.pn_to_lid,
  )

  lookup-lid_to_pn :
      (q : String)
      → lookup dec q c'.lid_to_pn ≡ (
          if not (str_eq old_lid "")
            && not (str_eq old_lid lid)
            && str_eq (or_empty (lookup dec old_lid c.lid_to_pn)) pn
            && str_eq old_lid q
          then none
          else ite (dec lid q) (some pn) (lookup dec q c.lid_to_pn))
  unfolding recache
  lookup-lid_to_pn q = ground (
    arith,
    lookup-forget q old_lid lid pn (upsert dec lid pn c.lid_to_pn),
    lookup-upsert dec q lid pn c.lid_to_pn,
    lookup-upsert dec old_lid lid pn c.lid_to_pn,
  )

  -- The pair that was written stands in both caches.
  pub recache_self :
      (lookup dec pn c'.pn_to_lid ≡ some lid) × (lookup dec lid c'.lid_to_pn ≡ some pn)
  recache_self = (ground (arith, lookup-pn_to_lid pn), ground (arith, lookup-lid_to_pn lid))

  lids-recache :
      (p v : String)
      → lid ≢ ""
      → lookup dec p c'.pn_to_lid ≡ some v
      → or_empty (lid_of p (replaced lid pn t)) ≡ v
  lids-recache p v lne e = ground (
    arith,
    lookup-pn_to_lid p,
    lid_of-replaced lid pn p t h.unique,
    h.lids p v,
    h.lids_back p lid,
    pn_of-lid_of lid p t h.unique,
    h.named lid p,
  )

  pns-recache :
      (l v : String)
      → pn ≢ ""
      → lookup dec l c'.lid_to_pn ≡ some v
      → or_empty (pn_of l (replaced lid pn t)) ≡ v
  pns-recache l v pne e = ground (
    arith,
    lookup-lid_to_pn l,
    pn_of-replaced lid pn l t h.unique,
    h.pns l v,
    h.pns_back l pn,
    lid_of-pn_of l pn t h.unique,
    h.named l pn,
  )

  lids_back-recache :
      (p l : String)
      → lookup dec p c'.pn_to_lid ≡ some l
      → l ≢ ""
      → lookup dec l c'.lid_to_pn ≡ some p
  lids_back-recache p l e ne = ground (
    arith,
    lookup-pn_to_lid p,
    lookup-lid_to_pn l,
    h.lids_back p l,
    h.lids_back p lid,
    h.lids_back pn l,
    h.pns_back lid p,
    h.pns_back l pn,
    h.lids p l,
    pn_of-lid_of l p t h.unique,
    h.named l p,
  )

  pns_back-recache :
      (l p : String)
      → lookup dec l c'.lid_to_pn ≡ some p
      → p ≢ ""
      → lookup dec p c'.pn_to_lid ≡ some l
  pns_back-recache l p e ne = ground (
    arith,
    lookup-pn_to_lid p,
    lookup-lid_to_pn l,
    h.pns_back l p,
    h.pns_back l pn,
    h.pns_back lid p,
    h.lids_back pn l,
    h.lids_back p lid,
    h.pns l p,
    h.named l p,
  )

  complete-recache :
      (p l : String)
      → lid ≢ ""
      → c.filled ≡ true
      → lid_of p (replaced lid pn t) ≡ some l
      → lookup dec p c'.pn_to_lid ≡ some l
  complete-recache p l lne f e =
      ground (arith, lookup-pn_to_lid p, lid_of-replaced lid pn p t h.unique, h.complete p l f)

  Named-replaced : lid ≢ "" → pn ≢ "" → Named (replaced lid pn t)
  Named-replaced lne pne l p e = ground (arith, pn_of-replaced lid pn l t h.unique, h.named l p)

  filled-recache : c'.filled ≡ true → c.filled ≡ true
  unfolding recache
  filled-recache f = f

  -- A write that reached the table keeps the caches in step with it.
  pub recache-Coherent : lid ≢ "" → pn ≢ "" → Coherent (replaced lid pn t) (recache lid pn c)
  recache-Coherent lne pne = record {
    unique = replaced-Unique lid pn t h.unique;
    named = Named-replaced lne pne;
    lids = λ p v e. lids-recache p v lne e;
    pns = λ l v e. pns-recache l v pne e;
    lids_back = lids_back-recache;
    pns_back = pns_back-recache;
    complete = λ p l f e. complete-recache p l lne (filled-recache f) e;
  }
