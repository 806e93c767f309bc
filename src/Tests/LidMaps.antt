-- ===== src/Tests/LidMaps.antt =====
-- The theorems on the LID map at a map with one row, and runs of its methods.
use zev_bot.Prelude.{
  ne_text, ℕ, String, ◌≡◌, ◌≢◌, ◌↔◌, refl, none, some, List, [], ◌∷◌, arith, ◌⊎◌, string_discrete,
  ◌==◌, if◌then◌else◌,
}
use zev_bot.Table.{lookup, delete_where, upsert, delete}
use zev_bot.Sql.{Error, Result, ok, err, driver, Faults, sql_txn, begin_commit, exec}
use zev_bot.Jid.{Jid, Types}
use zev_bot.Lid.{
  LidMap, LidMapping, lid_of, new_cache, to_lid, put_lid_mapping, get_lid_for_pn, get_pn_for_lid,
  fill_cache, put_many_lid_mappings, get_lid_mapping, recache, to_write, fetch,
  unlocked_put_lid_mapping, put_many_rows, delete_existing, put_mapping,
}
use zev_bot.Lid.Refresh.{InStep, Answers, get_lid_mapping-Answers}
use zev_bot.Lid.Refinement.{Linked, Relinked, put_lid_mapping-refines, get-put_lid_mapping}
use zev_bot.Lid.Rollback.{failed_commit-stays_cached}
use zev_bot.Lid.Many.{get_many_lids_for_pns}
use zev_bot.Lid.Answered.{Served, get_many_lids_for_pns-Answer}
use zev_bot.Sql.Post.{Post}
use zev_bot.Lid.Batch.{In, Wanted, applied, put_many_lid_mappings-atomic}

abbrev pub wa : Types
wa = record {
  default_user_server = "s.whatsapp.net";
  hidden_user_server = "lid";
  servers_ne = ne_text "s.whatsapp.net" "lid" refl;
  to_non_ad = λ j. record j { device = 0 };
  to_non_ad_lem = λ j. (refl, refl, refl);
}

abbrev no_faults : Faults
no_faults n = none

abbrev fails_at : ℕ → Faults
fails_at k n = if n == k then some (record { code = 5; rows = 1 }) else none

abbrev pub one_row : LidMap
one_row = record { db = ("100", "31") ∷ []; mem = new_cache; clock = 0 }

abbrev lid : Jid
lid = record { user = "200"; device = 0; server = "lid" }

abbrev pn : Jid
pn = record { user = "31"; device = 2; server = "s.whatsapp.net" }

pub one_row-InStep : InStep one_row
unfolding lookup lid_of
one_row-InStep = record {
  unique = (refl, refl, tt);
  named = λ l p e. ground (arith, ne_text "100" "" refl, ne_text "31" "" refl);
  lids = λ p v e. cc;
  pns = λ l v e. cc;
  lids_back = λ p l e ne. cc;
  pns_back = λ l p e ne. cc;
  complete = λ p l e h. cc;
}

lid_named : lid.user ≢ ""
lid_named = ne_text "200" "" refl

pn_named : pn.user ≢ ""
pn_named = ne_text "31" "" refl

-- What the runs below compute through.
program : Unit {0}
unfolding put_lid_mapping get_lid_mapping fetch fill_cache put_many_lid_mappings string_discrete
    lookup begin_commit unlocked_put_lid_mapping put_many_rows to_write exec delete_existing
    put_mapping lid_of delete_where upsert delete recache
program = tt

after : Result (Unit {0}) × LidMap
after = put_lid_mapping wa sql_txn lid pn no_faults one_row

-- The phone number moves to the new LID, the old pair is gone.
after-db : (after.0 ≡ ok tt) × (after.1.db ≡ ("200", "31") ∷ [])
unfolding after program
after-db = (refl, refl)

put_lid_mapping-refines_example :
    ((e : Error) × ((put_lid_mapping wa sql_txn lid pn no_faults one_row).0 ≡ err e)
      × ((put_lid_mapping wa sql_txn lid pn no_faults one_row).1.db ≡ one_row.db))
    ⊎ (((put_lid_mapping wa sql_txn lid pn no_faults one_row).0 ≡ ok tt)
        × InStep (put_lid_mapping wa sql_txn lid pn no_faults one_row).1
        × ((l p : String)
            → Linked (put_lid_mapping wa sql_txn lid pn no_faults one_row).1.db l p
              ↔ Relinked one_row.db lid.user pn.user l p))
put_lid_mapping-refines_example =
    put_lid_mapping-refines wa sql_txn lid pn no_faults one_row one_row-InStep lid_named pn_named

get-put_lid_mapping_example :
    (get_lid_for_pn wa pn (fails_at 0) (put_lid_mapping wa sql_txn lid pn no_faults one_row).1 ≡ (
      ok (record { user = "200"; device = 2; server = "lid" }),
      (put_lid_mapping wa sql_txn lid pn no_faults one_row).1,
    ))
    × (get_pn_for_lid wa lid (fails_at 0) (put_lid_mapping wa sql_txn lid pn no_faults one_row).1
        ≡ (
          ok (record { user = "31"; device = 0; server = "s.whatsapp.net" }),
          (put_lid_mapping wa sql_txn lid pn no_faults one_row).1,
        ))
unfolding program
get-put_lid_mapping_example =
    get-put_lid_mapping wa sql_txn lid pn no_faults (fails_at 0) one_row one_row-InStep lid_named
      pn_named refl refl refl

failed_commit-stays_cached_example :
    ((put_lid_mapping wa sql_txn lid pn (fails_at 3) one_row).0 ≡ err (driver 5))
    × ((put_lid_mapping wa sql_txn lid pn (fails_at 3) one_row).1.db ≡ one_row.db)
    × ((get_lid_for_pn wa pn no_faults (put_lid_mapping wa sql_txn lid pn (fails_at 3) one_row).1).0
        ≡ ok (record { user = "200"; device = 2; server = "lid" }))
    × (put_lid_mapping wa sql_txn lid pn no_faults
          (put_lid_mapping wa sql_txn lid pn (fails_at 3) one_row).1
        ≡ (ok tt, (put_lid_mapping wa sql_txn lid pn (fails_at 3) one_row).1))
unfolding lookup
failed_commit-stays_cached_example =
    failed_commit-stays_cached wa lid pn (fails_at 3) no_faults one_row
      (record { code = 5; rows = 1 }) one_row-InStep lid_named refl refl refl refl refl refl refl

get_lid_mapping-Answers_example :
    Answers to_lid pn "lid" no_faults one_row (get_lid_mapping to_lid pn "lid" no_faults one_row)
get_lid_mapping-Answers_example =
    get_lid_mapping-Answers to_lid pn "lid" no_faults one_row one_row-InStep

abbrev keep_all : List LidMapping → List LidMapping
keep_all ms = ms

abbrev both : List LidMapping
both = record { lid = lid; pn = pn } ∷ record { lid = pn; pn = lid } ∷ []

put_many_lid_mappings-atomic_example :
    ((e : Error) × ((put_many_lid_mappings wa sql_txn keep_all both no_faults one_row).0 ≡ err e)
      × ((put_many_lid_mappings wa sql_txn keep_all both no_faults one_row).1.db ≡ one_row.db))
    ⊎ ((ws : List LidMapping) × ((put_many_lid_mappings wa sql_txn keep_all both no_faults
            one_row).0
          ≡ ok tt)
        × InStep (put_many_lid_mappings wa sql_txn keep_all both no_faults one_row).1
        × ((put_many_lid_mappings wa sql_txn keep_all both no_faults one_row).1.db
            ≡ applied ws one_row.db)
        × ((m : LidMapping)
            → (In m ws → In m both × Wanted wa one_row.mem m)
              × (In m both × Wanted wa one_row.mem m → In m ws)))
put_many_lid_mappings-atomic_example =
    put_many_lid_mappings-atomic wa sql_txn keep_all both no_faults one_row
      (λ xs m. (λ i. i, λ i. i)) ((lid_named, pn_named), ((pn_named, lid_named), tt)) one_row-InStep

get_many_lids_for_pns-Answer_example :
    Post
      (Served wa (fails_at 0 one_row.clock) one_row)
      (λ d. ⊥)
      (get_many_lids_for_pns wa (pn ∷ lid ∷ []) (fails_at 0) one_row)
get_many_lids_for_pns-Answer_example =
    get_many_lids_for_pns-Answer wa one_row (pn ∷ lid ∷ []) (fails_at 0) one_row-InStep
