-- ===== src/Lid/Methods.antt =====
-- The methods of `CachedLIDMap` (store/sqlstore/lidmap.go).
use zev_bot.Prelude.{
  String, Option, none, some, List, [], ◌∷◌, Bool, true, false, not, ◌&&◌, str_eq, string_discrete,
  if◌then◌else◌,
}
use zev_bot.Table.{lookup}
use zev_bot.Sql.{
  Error, Result, ok, err, invalid_call, pure, raise, gets, modify, query_or, query_rows, exec,
  ◌>>=◌, ◌>>◌, Txn,
}
use zev_bot.Jid.{Jid, Types, empty_jid}
use zev_bot.Lid.Tables.{
  LidDb, Cache, LidProg, LidMapping, delete_existing, put_mapping, Direction, to_lid, to_pn,
  source_to_target, select, scan_many_lids, remember, recache,
}

abbrev end_of_rows : Option Error → Result (Unit {0})
end_of_rows none = ok tt
end_of_rows (some e) = err e

abbrev is_ok : {A : Type 0} → Result A → Bool
is_ok (ok a) = true
is_ok (err e) = false

-- `s.cacheFilled = err == nil; return err`, at the rows that came and the error that ended them
unfoldable pub end_fill : List (String × String) × Option Error → LidProg (Unit {0})
unfolding scan_many_lids
end_fill (rows, e) f s = (
  end_of_rows e,
  record s { mem = record (scan_many_lids rows s.mem) { filled = is_ok (end_of_rows e) } },
)

-- `FillCache`
unfoldable pub fill_cache : LidProg (Unit {0})
unfolding end_fill query_rows
fill_cache = query_rows (λ t. t) >>= end_fill

-- The JID that a lookup of `source` returns at a target user, empty for none.
unfoldable pub mapped : Jid → String → String → Jid
mapped source server target =
    if str_eq target ""
    then empty_jid
    else record { user = target; device = source.device; server = server }

-- `getLIDMapping` from its second lock on: the caches had no answer.
unfoldable pub fetch : Direction → Jid → String → LidProg Jid
unfolding query_or remember mapped
fetch dir source server = do
  target ← query_or "" (select dir source.user)
  modify (remember dir source.user target)
  pure (mapped source server target)

-- `getLIDMapping` after its first lock: an answer of the cache, or the query
unfoldable pub cached_or_fetch : Direction → Jid → String → Option String → Bool → LidProg Jid
unfolding fetch mapped
cached_or_fetch dir source server (some target) filled = pure (mapped source server target)
cached_or_fetch dir source server none true = pure (mapped source server "")
cached_or_fetch dir source server none false = fetch dir source server

unfoldable pub get_lid_mapping : Direction → Jid → String → LidProg Jid
unfolding cached_or_fetch
get_lid_mapping dir source server = do
  c ← gets (λ c. c)
  cached_or_fetch dir source server (lookup string_discrete source.user (source_to_target dir c))
      c.filled

module _ (types : Types) where
  open types use {default_user_server, hidden_user_server, to_non_ad}

  abbrev pub valid_mapping : Jid → Jid → Bool
  valid_mapping lid pn =
      str_eq lid.server hidden_user_server && str_eq pn.server default_user_server

  unfoldable pub get_lid_for_pn : Jid → LidProg Jid
  unfolding get_lid_mapping
  get_lid_for_pn pn =
      if str_eq pn.server default_user_server
      then get_lid_mapping to_lid pn hidden_user_server
      else raise invalid_call

  unfoldable pub get_pn_for_lid : Jid → LidProg Jid
  unfolding get_lid_mapping
  get_pn_for_lid lid =
      if str_eq lid.server hidden_user_server
      then get_lid_mapping to_pn lid default_user_server
      else raise invalid_call

  unfoldable pub unlocked_put_lid_mapping : Jid → Jid → LidProg (Unit {0})
  unlocked_put_lid_mapping lid pn =
      if valid_mapping lid pn
      then (do
        exec (delete_existing lid.user pn.user)
        exec (put_mapping lid.user pn.user)
        modify (recache lid.user pn.user))
      else raise invalid_call

  -- `cachedLID, ok := s.pnToLIDCache[pn.User]; ok && cachedLID == lid.User`
  abbrev pub is_cached : String → String → Cache → Bool
  is_cached lid pn c = elim (lookup string_discrete pn c.pn_to_lid) [
    | none ↦ false
    | some l ↦ str_eq l lid
  ]

  unfoldable pub put_many_rows : List LidMapping → LidProg (Unit {0})
  put_many_rows [] = pure tt
  put_many_rows (m ∷ ms) = do unlocked_put_lid_mapping m.lid m.pn; put_many_rows ms

  -- `slices.DeleteFunc`: the mappings that are valid and not in the cache
  unfoldable pub to_write : Cache → List LidMapping → List LidMapping
  to_write c [] = []
  to_write c (m ∷ ms) =
      let rest = to_write c ms in
      if valid_mapping m.lid m.pn && not (is_cached m.lid.user m.pn.user c) then m ∷ rest else rest

  module _ (txn : Txn LidDb Cache) where
    unfoldable pub put_lid_mapping : Jid → Jid → LidProg (Unit {0})
    put_lid_mapping lid pn =
        if valid_mapping lid pn
        then (do
          c ← gets (λ c. c)
          if is_cached lid.user pn.user c
              then pure tt
              else txn.run (unlocked_put_lid_mapping lid pn))
        else raise invalid_call

    abbrev pub write_all : List LidMapping → LidProg (Unit {0})
    write_all [] = pure tt
    write_all (m ∷ ms) = txn.run (put_many_rows (m ∷ ms))

    -- `dedup` is exslices.DeduplicateUnsortedOverwrite.
    unfoldable pub put_many_lid_mappings :
        (List LidMapping → List LidMapping) → List LidMapping → LidProg (Unit {0})
    put_many_lid_mappings dedup ms = do c ← gets (λ c. c); write_all (dedup (to_write c ms))
