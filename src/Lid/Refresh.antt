-- ===== src/Lid/Refresh.antt =====
-- `FillCache` and the lookups of `CachedLIDMap`: what they return, and that the caches stay in step.
use zev_bot.Prelude.{
  ◌+◌, String, ◌≡◌, ◌≢◌, refl, sym, ap, Option, none, some, Bool, true, false, arith,
  string_discrete, ◌⊎◌, inl, inr, Option-cases, take,
}
use zev_bot.Table.{lookup}
use zev_bot.Sql.{
  Result, ok, err, driver, Fault, Faults, query_rows, query_or-quiet, query_or-failed,
}
use zev_bot.Jid.{Jid}
use zev_bot.Lid.Tables.{
  LidDb, Cache, LidMap, lid_of, pn_of, or_empty, Direction, to_lid, to_pn, select, scan_many_lids,
  source_to_target, remember,
}
use zev_bot.Lid.Methods.{fill_cache, fetch, cached_or_fetch, get_lid_mapping, mapped}
use zev_bot.Lid.Unique.{lid_of-pn_of}
use zev_bot.Lid.Coherence.{Coherent}
use zev_bot.Lid.Remember.{
  Listed-self, All-take, scan_many_lids-Coherent, scanned-has_entry, remember-Coherent,
}

-- The caches of `s` agree with its table.
abbrev pub InStep : LidMap → Type 0
InStep s = Coherent s.db s.mem

set_filled-Coherent :
    (t : LidDb) (c : Cache)
    → Coherent t c
    → ((p l : String) → lid_of p t ≡ some l → lookup string_discrete p c.pn_to_lid ≢ none)
    → Coherent t (record c { filled = true })
set_filled-Coherent t c h all = record {
  unique = h.unique;
  named = h.named;
  lids = h.lids;
  pns = h.pns;
  lids_back = h.lids_back;
  pns_back = h.pns_back;
  complete = λ p l f e. elim (Option-cases (lookup string_discrete p c.pn_to_lid)) [
    | inl missing ↦ absurd (all p l e missing)
    | inr (v, found) ↦ ground (arith, h.lids p v found)
  ];
}

unfilled-Coherent :
    (t : LidDb) (c : Cache) → Coherent t c → Coherent t (record c { filled = false })
unfilled-Coherent t c h = record {
  unique = h.unique;
  named = h.named;
  lids = h.lids;
  pns = h.pns;
  lids_back = h.lids_back;
  pns_back = h.pns_back;
  complete = λ p l f e. cc;
}

-- Whether the rows all arrive or stop short, the caches agree with the table after `FillCache`.
fill_cache-InStep : (f : Faults) (s : LidMap) → InStep s → InStep (fill_cache f s).1
unfolding fill_cache
fill_cache-InStep f s h = elim (Option-cases (f s.clock)) [
  | inl quiet ↦
      rw (quiet, fill_cache, query_rows)
        (set_filled-Coherent s.db (scan_many_lids s.db s.mem)
          (scan_many_lids-Coherent s.db s.mem s.db h (Listed-self s.db h.unique))
          (λ p l e. scanned-has_entry p l s.db s.mem e))
  | inr (x, failed) ↦
      rw (failed, fill_cache, query_rows)
        (unfilled-Coherent s.db (scan_many_lids (take x.rows s.db) s.mem) (
          scan_many_lids-Coherent s.db s.mem (take x.rows s.db) h
            (All-take s.db s.db x.rows (Listed-self s.db h.unique))))
]

-- What `getLIDMapping` may do: answer from the table and leave the caches in step, or report that the
-- database failed and change nothing but the count of statements.
pub record Answers (dir : Direction) (source : Jid) (server : String) (f : Faults) (s : LidMap)
    (r : Result Jid × LidMap) : Type 0 where
  pub in_step : InStep r.1
  pub same_table : r.1.db ≡ s.db
  pub answer :
      (r.0 ≡ ok (mapped source server (or_empty (select dir source.user s.db))))
      ⊎ ((x : Fault) × (f s.clock ≡ some x) × (r.0 ≡ err (driver x.code)) × (r.1.mem ≡ s.mem))

-- An entry of a cache is the answer of the table.
cached-answer :
    (dir : Direction) (t : LidDb) (c : Cache) (u v : String)
    → Coherent t c
    → lookup string_discrete u (source_to_target dir c) ≡ some v
    → or_empty (select dir u t) ≡ v
cached-answer to_lid t c u v h e = h.lids u v e
cached-answer to_pn t c u v h e = h.pns u v e

-- With a filled cache, no entry means no row.
filled-answer :
    (dir : Direction) (t : LidDb) (c : Cache) (u : String)
    → Coherent t c
    → c.filled ≡ true
    → lookup string_discrete u (source_to_target dir c) ≡ none
    → or_empty (select dir u t) ≡ ""
filled-answer to_lid t c u h f e = elim (Option-cases (lid_of u t)) [
  | inl missing ↦ rw missing
  | inr (l, found) ↦ ground (arith, h.complete u l f found)
]
filled-answer to_pn t c u h f e = elim (Option-cases (pn_of u t)) [
  | inl missing ↦ rw missing
  | inr (p, found) ↦ ground (
    arith,
    h.complete p u f (lid_of-pn_of u p t h.unique found),
    h.lids_back p u,
    h.named u p found,
  )
]

module _ (dir : Direction) (source : Jid) (server : String) (f : Faults) (s : LidMap) where
  fetch-quiet :
      f s.clock ≡ none
      → fetch dir source server f s ≡ (
        ok (mapped source server (or_empty (select dir source.user s.db))),
        record s {
          mem = remember dir source.user (or_empty (select dir source.user s.db)) s.mem;
          clock = s.clock + 1;
        },
      )
  unfolding fetch
  fetch-quiet e = ground (arith, query_or-quiet "" (select dir source.user) f s)

  fetch-failed :
      (x : Fault)
      → f s.clock ≡ some x
      → fetch dir source server f s ≡ (err (driver x.code), record s { clock = s.clock + 1 })
  unfolding fetch
  fetch-failed x e = ground (arith, query_or-failed "" (select dir source.user) f s x)

  fetch-Answers : InStep s → Answers dir source server f s (fetch dir source server f s)
  fetch-Answers h = elim (Option-cases (f s.clock)) [
    | inl quiet ↦ rw (fetch-quiet quiet) (record {
      in_step = remember-Coherent dir s.db s.mem source.user h;
      same_table = refl;
      answer = inl refl;
    })
    | inr (x, failed) ↦
        rw (fetch-failed x failed)
          (record { in_step = h; same_table = refl; answer = inr (x, failed, refl, refl) })
  ]

  from_cache :
      (v : String)
      → v ≡ or_empty (select dir source.user s.db)
      → InStep s
      → Answers dir source server f s (ok (mapped source server v), s)
  from_cache v e h = record {
    in_step = h;
    same_table = refl;
    answer = inl (ap (λ w. ok (mapped source server w)) e);
  }

  cached_or_fetch-Answers :
      (o : Option String) (filled : Bool)
      → InStep s
      → lookup string_discrete source.user (source_to_target dir s.mem) ≡ o
      → s.mem.filled ≡ filled
      → Answers dir source server f s (cached_or_fetch dir source server o filled f s)
  unfolding cached_or_fetch
  cached_or_fetch-Answers (some v) filled h found e =
      from_cache v (sym (cached-answer dir s.db s.mem source.user v h found)) h
  cached_or_fetch-Answers none true h missing e =
      from_cache "" (sym (filled-answer dir s.db s.mem source.user h e missing)) h
  cached_or_fetch-Answers none false h missing e = fetch-Answers h

  -- On a map whose caches agree with its table, `getLIDMapping` returns the JID that the table gives,
  -- or the failure of its one query, and the caches agree with the same table afterwards.
  pub get_lid_mapping-Answers :
      InStep s → Answers dir source server f s (get_lid_mapping dir source server f s)
  unfolding get_lid_mapping
  get_lid_mapping-Answers h = cached_or_fetch-Answers _ _ h refl refl
