-- ===== src/Lid/Answered.antt =====
-- The answers of `GetManyLIDsForPNs` (store/sqlstore/lidmap.go) are the table's.
use zev_bot.Prelude.{
  String, ◌≡◌, ◌⊎◌, inl, inr, ◌≢◌, refl, sym, ap, ◌∙◌, subst, Option, none, some, List, [], ◌∷◌,
  All, arith, string_discrete,
}
use zev_bot.Table.{Table, lookup, upsert}
use zev_bot.Sql.{
  Error, Fault, driver, ok, tick, Faults, query_rows, query_rows-quiet, query_rows-failed, bind-ok,
  ◌>>=◌,
}
use zev_bot.Sql.Post.{Post}
use zev_bot.Jid.{Jid, Types}
use zev_bot.Lid.Tables.{LidDb, Cache, LidMap, lid_of, or_empty, scan_many_lids}
use zev_bot.Lid.Unique.{Unique, lid_of-pn_of}
use zev_bot.Lid.Coherence.{Coherent}
use zev_bot.Lid.Remember.{Listed, Listed-self, All-take, scan_many_lids-Coherent}
use zev_bot.Lid.Refresh.{InStep}
use zev_bot.Lid.Many.{
  jid_discrete, Missing, Returned, rows_for, by_entry, split_one, split_pns, answer_row,
  answer_rows, scan_missing, query_missing, get_many_lids_for_pns,
}

All-upsert :
    (P : Jid × Jid → Type 0) (k j : Jid) (m : Table Jid Jid)
    → P (k, j)
    → All P m
    → All P (upsert jid_discrete k j m)
unfolding upsert
All-upsert P k j [] p h = (p, tt)
All-upsert P k j ((i, v) ∷ m) p h = ground (arith, p, h, All-upsert P k j m p h.1)

rows_for-Listed :
    (t rows : LidDb) (missing : Missing)
    → All (Listed t) rows
    → All (Listed t) (rows_for missing rows)
unfolding rows_for
rows_for-Listed t [] missing h = tt
rows_for-Listed t ((l, p) ∷ rows) missing h = ground (arith, h, rows_for-Listed t rows missing h.1)

module _ (types : Types) where
  open types use {default_user_server, hidden_user_server, to_non_ad, to_non_ad_lem}

  -- An answer: the LID that the table has for the PN, on the server of LIDs.
  abbrev pub Answer : LidDb → Jid × Jid → Type 0
  Answer t (pn, lid) = (lid_of pn.user t ≡ some lid.user) × (lid.server ≡ hidden_user_server)

  -- An entry of the cache that is not empty is the table's LID.
  cached :
      (t : LidDb) (user v : String) → or_empty (lid_of user t) ≡ v → v ≢ "" → lid_of user t ≡ some v
  cached t user v e ne = at (lid_of user t) e
    where
      at : (o : Option String) → or_empty o ≡ v → o ≡ some v
      at none e = absurd (ne (sym e))
      at (some w) e = ap (λ u. some u) e

  by_entry-Answer :
      (t : LidDb) (c : Cache) (pn : Jid) (result : Table Jid Jid) (missing : Missing)
      (o : Option String)
      → ((v : String) → o ≡ some v → or_empty (lid_of pn.user t) ≡ v)
      → All (Answer t) result
      → All (Answer t) (by_entry types c pn o (result, missing)).0
  by_entry-Answer t c pn result missing none h a = ground (arith, a)
  by_entry-Answer t c pn result missing (some v) h a =
      let j : Jid = record { user = v; device = pn.device; server = hidden_user_server } in
      let new : v ≢ "" → All (Answer t) (upsert jid_discrete pn j result) =
        λ ne. All-upsert (Answer t) pn j result (cached t pn.user v (h v refl) ne, refl) a in
      ground (arith, a, new)

  split_one-Answer :
      (t : LidDb) (c : Cache) (pn : Jid) (r : Table Jid Jid × Missing)
      → Coherent t c
      → All (Answer t) r.0
      → All (Answer t) (split_one types c pn r).0
  unfolding split_one
  split_one-Answer t c pn (result, missing) h a = ground (
    arith,
    a,
    by_entry-Answer t c pn result missing (lookup string_discrete pn.user c.pn_to_lid)
        (h.lids pn.user) a,
  )

  split_pns-Answer :
      (t : LidDb) (c : Cache) (pns : List Jid) (r : Table Jid Jid × Missing)
      → Coherent t c
      → All (Answer t) r.0
      → All (Answer t) (split_pns types c pns r).0
  unfolding split_pns
  split_pns-Answer t c [] r h a = a
  split_pns-Answer t c (pn ∷ pns) r h a =
      split_pns-Answer t c pns (split_one types c pn r) h (split_one-Answer t c pn r h a)

  answer_row-Answer :
      (t : LidDb) (missing : Missing) (l p : String) (result : Table Jid Jid)
      → lid_of p t ≡ some l
      → All (Answer t) result
      → All (Answer t) (answer_row types missing l p result)
  unfolding answer_row
  answer_row-Answer t [] l p result e a = a
  answer_row-Answer t (pn ∷ missing) l p result e a =
      let j : Jid = record { user = l; device = pn.device; server = hidden_user_server } in
      let new : pn.user ≡ p → All (Answer t) (upsert jid_discrete pn (to_non_ad j) result) = λ q.
        All-upsert (Answer t) pn (to_non_ad j) result
          (
            ap (λ u. lid_of u t) q ∙ e ∙ ap (λ u. some u) (sym (to_non_ad_lem j).0),
            (to_non_ad_lem j).2,
          )
          a in
      let here = λ (q : pn.user ≡ p). answer_row-Answer t missing l p _ e (new q) in
      ground (arith, here, answer_row-Answer t missing l p result e a)

  answer_rows-Answer :
      (t : LidDb) (missing : Missing) (rows : List (String × String)) (result : Table Jid Jid)
      → Unique t
      → All (Listed t) rows
      → All (Answer t) result
      → All (Answer t) (answer_rows types missing rows result)
  unfolding answer_rows
  answer_rows-Answer t missing [] result u h a = a
  answer_rows-Answer t missing ((l, p) ∷ rows) result u h a =
      answer_rows-Answer t missing rows _ u h.1
        (answer_row-Answer t missing l p result (lid_of-pn_of l p t u h.0) a)

  -- The state after a call: caches in step with the table, and the table as it was.
  abbrev pub Kept : LidMap → LidMap → Type 0
  Kept s c = InStep c × (c.db ≡ s.db)

  scanned :
      (s c : LidMap) (rows : List (String × String))
      → Coherent s.db s.mem
      → (c.db ≡ s.db) × (c.mem ≡ s.mem)
      → All (Listed s.db) rows
      → Coherent c.db (scan_many_lids rows c.mem)
  scanned s c rows h (db, mem) listed =
      subst (λ d. Coherent d (scan_many_lids rows c.mem)) (sym db)
        (subst (λ m. Coherent s.db (scan_many_lids rows m)) (sym mem)
          (scan_many_lids-Coherent s.db s.mem rows h listed))

  -- The error that a call returns: that of its query, if it failed.
  abbrev pub Ended : Option Fault → Option Error → Type 0
  Ended none e = e ≡ none
  Ended (some x) e = (e ≡ none) ⊎ (e ≡ some (driver x.code))

  unasked : (o : Option Fault) → Ended o none
  unasked none = refl
  unasked (some x) = inl refl

  -- What a call on `s` returns, with or without an error.
  abbrev pub Served : Option Fault → LidMap → Returned → LidMap → Type 0
  Served o s r d = Kept s d × All (Answer s.db) r.0 × Ended o r.1

  scan_missing-Post :
      (s c : LidMap) (result : Table Jid Jid) (missing : Missing) (rows : List (String × String))
      (e : Option Error) (o : Option Fault) (f : Faults)
      → Coherent s.db s.mem
      → (c.db ≡ s.db) × (c.mem ≡ s.mem)
      → All (Listed s.db) rows
      → All (Answer s.db) result
      → Ended o e
      → Post (Served o s) (λ d. ⊥) (scan_missing types result missing (rows, e) f c)
  unfolding scan_missing
  scan_missing-Post s c result missing rows e o f h (db, mem) listed a ended = (
    (scanned s c rows h (db, mem) listed, db),
    answer_rows-Answer s.db missing rows result h.unique listed a,
    ended,
  )

  query_missing-Post :
      (s : LidMap) (r : Table Jid Jid × Missing) (f : Faults)
      → InStep s
      → All (Answer s.db) r.0
      → Post (Served (f s.clock) s) (λ d. ⊥) (query_missing types r f s)
  unfolding query_missing
  query_missing-Post s (result, []) f h a = ((h, refl), a, unasked (f s.clock))
  query_missing-Post s (result, pn ∷ pns) f h a = at (f s.clock) refl
    where
      select : LidDb → List (String × String)
      select = rows_for (pn ∷ pns)

      listed : All (Listed s.db) (select s.db)
      listed = rows_for-Listed s.db s.db (pn ∷ pns) (Listed-self s.db h.unique)

      served :
          (o : Option Fault) (rows : List (String × String)) (e : Option Error)
          → All (Listed s.db) rows
          → Ended o e
          → query_rows select f s ≡ (ok (rows, e), tick s)
          → Post
              (Served o s)
              (λ d. ⊥)
              ((query_rows select >>= scan_missing types result (pn ∷ pns)) f s)
      served o rows e l ended q =
          subst (Post (Served o s) (λ d. ⊥))
            (sym (bind-ok (query_rows select) (scan_missing types result (pn ∷ pns)) f s _ _ q))
            (scan_missing-Post s (tick s) result (pn ∷ pns) rows e o f h (refl, refl) l a ended)

      at :
          (o : Option Fault)
          → f s.clock ≡ o
          → Post
              (Served o s)
              (λ d. ⊥)
              ((query_rows select >>= scan_missing types result (pn ∷ pns)) f s)
      at none q = served none _ _ listed refl (query_rows-quiet select f s q)
      at (some x) q =
          served (some x) _ _ (All-take s.db (select s.db) x.rows listed) (inr refl)
            (query_rows-failed select f s x q)

  -- On a map whose caches agree with its table, GetManyLIDsForPNs always returns a map, and an error only
  -- where its query failed, which is then that failure. Each LID of the map, with the error too, is the one
  -- that the table has for the PN, on the server of LIDs. The caches agree with the same table afterwards.
  pub get_many_lids_for_pns-Answer :
      (s : LidMap) (pns : List Jid) (f : Faults)
      → InStep s
      → Post (Served (f s.clock) s) (λ d. ⊥) (get_many_lids_for_pns types pns f s)
  unfolding get_many_lids_for_pns
  get_many_lids_for_pns-Answer s [] f h = ((h, refl), tt, unasked (f s.clock))
  get_many_lids_for_pns-Answer s (pn ∷ pns) f h =
      query_missing-Post s (split_pns types s.mem (pn ∷ pns) ([], [])) f h
        (split_pns-Answer s.db s.mem (pn ∷ pns) ([], []) h tt)
