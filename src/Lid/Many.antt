-- ===== src/Lid/Many.antt =====
-- `GetManyLIDsForPNs` (store/sqlstore/lidmap.go).
use zev_bot.Prelude.{
  ℕ, ap, String, Option, none, some, List, [], ◌∷◌, ◌++◌, Bool, false, not, ◌||◌, str_eq,
  string_discrete, ℕ_discrete, if◌then◌else◌,
}
use zev_bot.Table.{Table, lookup, upsert}
use zev_bot.Sql.{Error, pure, gets, modify, query_rows, ◌>>=◌, ◌>>◌}
use zev_bot.Jid.{Jid, Types}
use zev_bot.Lid.Tables.{LidDb, Cache, LidProg, scan_many_lids}

abbrev fields : Jid → String × ℕ × String
fields j = (j.user, j.device, j.server)

abbrev of_fields : String × ℕ × String → Jid
of_fields (u, d, s) = record { user = u; device = d; server = s }

fields_discrete : Discrete (String × ℕ × String)
fields_discrete = hlevel (string_discrete, ℕ_discrete)

-- Go's `==` on JIDs, the keys of the result.
unfoldable pub jid_discrete : Discrete Jid
unfolding fields_discrete
jid_discrete a b = elim (fields_discrete (fields a) (fields b)) [
  | yes e ↦ yes (ap of_fields e)
  | no n ↦ no (λ e. n (ap fields e))
]

-- A PN whose LID is not in the cache, for the query.
abbrev pub Missing : Type 0
Missing = List Jid

-- Whether one of the PNs has the user.
unfoldable pub asked : Missing → String → Bool
asked [] user = false
asked (pn ∷ pns) user = str_eq pn.user user || asked pns user

-- `WHERE pn = ANY(…)`, `WHERE pn IN (…)`
unfoldable pub rows_for : Missing → LidDb → List (String × String)
unfolding asked
rows_for pns [] = []
rows_for pns ((l, p) ∷ t) = let rest = rows_for pns t in if asked pns p then (l, p) ∷ rest else rest

-- What the method returns: a map and an error, both of them where the rows stop short.
abbrev pub Returned : Type 0
Returned = Table Jid Jid × Option Error

module _ (types : Types) where
  open types use {default_user_server, hidden_user_server, to_non_ad}

  -- A PN by its entry in the cache, if any: its LID, or a PN to query.
  abbrev pub by_entry :
      Cache → Jid → Option String → Table Jid Jid × Missing → Table Jid Jid × Missing
  by_entry c pn none (result, missing) =
      if c.filled then (result, missing) else (result, missing ++ pn ∷ [])
  by_entry c pn (some lid) (result, missing) =
      if not (str_eq lid "")
      then (
        upsert jid_discrete pn
            (record { user = lid; device = pn.device; server = hidden_user_server }) result,
        missing,
      )
      else (if c.filled then (result, missing) else (result, missing ++ pn ∷ []))

  unfoldable pub split_one : Cache → Jid → Table Jid Jid × Missing → Table Jid Jid × Missing
  split_one c pn r =
      if str_eq pn.server default_user_server
      then by_entry c pn (lookup string_discrete pn.user c.pn_to_lid) r
      else r

  unfoldable pub split_pns : Cache → List Jid → Table Jid Jid × Missing → Table Jid Jid × Missing
  unfolding split_one
  split_pns c [] r = r
  split_pns c (pn ∷ pns) r = split_pns c pns (split_one c pn r)

  -- The callback of `scanManyLids` at a row.
  unfoldable pub answer_row : Missing → String → String → Table Jid Jid → Table Jid Jid
  answer_row [] lid user result = result
  answer_row (pn ∷ pns) lid user result =
      let lid_dev : Jid = record { user = lid; device = pn.device; server = hidden_user_server } in
      if str_eq pn.user user
      then answer_row pns lid user (upsert jid_discrete pn (to_non_ad lid_dev) result)
      else answer_row pns lid user result

  unfoldable pub answer_rows : Missing → List (String × String) → Table Jid Jid → Table Jid Jid
  unfolding answer_row
  answer_rows missing [] result = result
  answer_rows missing ((l, p) ∷ rows) result =
      answer_rows missing rows (answer_row missing l p result)

  unfoldable pub scan_missing :
      Table Jid Jid → Missing → List (String × String) × Option Error → LidProg Returned
  unfolding answer_rows
  scan_missing result missing (rows, e) = do
    modify (scan_many_lids rows)
    pure (answer_rows missing rows result, e)

  unfoldable pub query_missing : Table Jid Jid × Missing → LidProg Returned
  unfolding rows_for scan_missing
  query_missing (result, []) = pure (result, none)
  query_missing (result, pn ∷ pns) =
      query_rows (rows_for (pn ∷ pns)) >>= scan_missing result (pn ∷ pns)

  unfoldable pub get_many_lids_for_pns : List Jid → LidProg Returned
  unfolding split_pns query_missing
  get_many_lids_for_pns [] = pure ([], none)
  get_many_lids_for_pns (pn ∷ pns) = do
    c ← gets (λ c. c)
    query_missing (split_pns c (pn ∷ pns) ([], []))
