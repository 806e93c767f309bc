-- ===== src/Lid/Tables.antt =====
-- The table `lid_map` with its statements, and the caches of `CachedLIDMap`
-- (store/sqlstore/lidmap.go).
use zev_bot.Prelude.{
  String, ite, Option, none, some, List, [], ◌∷◌, Bool, false, not, ◌&&◌, str_eq, string_discrete,
  value_or, if◌then◌else◌,
}
use zev_bot.Table.{Table, lookup, upsert, delete, delete_where}
use zev_bot.Sql.{Result, ok, err, constraint, Conn, Prog}
use zev_bot.Jid.{Jid}

-- The table `lid_map`: lid TEXT PRIMARY KEY, pn TEXT UNIQUE NOT NULL.
abbrev pub LidDb : Type 0
LidDb = Table String String

abbrev pub or_empty : Option String → String
or_empty = value_or ""

-- `SELECT lid FROM lid_map WHERE pn=$1`
unfoldable pub lid_of : String → LidDb → Option String
lid_of pn [] = none
lid_of pn ((l, p) ∷ t) = ite (string_discrete pn p) (some l) (lid_of pn t)

-- `SELECT pn FROM lid_map WHERE lid=$1`
abbrev pub pn_of : String → LidDb → Option String
pn_of lid t = lookup string_discrete lid t

-- `DELETE FROM lid_map WHERE (lid<>$1 AND pn=$2)`
unfoldable pub delete_existing : String → String → LidDb → Result LidDb
delete_existing lid pn t = ok (delete_where (λ l p. not (str_eq l lid) && str_eq p pn) t)

-- `INSERT INTO lid_map … ON CONFLICT (lid) DO UPDATE SET pn=excluded.pn`: refused where another row
-- has the phone number, since `pn` is unique.
unfoldable pub put_mapping : String → String → LidDb → Result LidDb
put_mapping lid pn t = elim (lid_of pn t) [
  | none ↦ ok (upsert string_discrete lid pn t)
  | some l ↦ if str_eq l lid then ok (upsert string_discrete lid pn t) else err constraint
]

pub record Cache : Type 0 where
  pub pn_to_lid : Table String String
  pub lid_to_pn : Table String String
  pub filled : Bool

-- `NewCachedLIDMap`
abbrev pub new_cache : Cache
new_cache = record { pn_to_lid = []; lid_to_pn = []; filled = false }

abbrev pub LidMap : Type 0
LidMap = Conn LidDb Cache

abbrev pub LidProg : Type 0 → Type 0
LidProg A = Prog LidDb Cache A

-- `store.LIDMapping`
pub record LidMapping : Type 0 where
  pub lid : Jid
  pub pn : Jid

-- The body of the loop in `scanManyLids`.
unfoldable pub scan_row : String × String → Cache → Cache
scan_row (l, p) c = record c {
  pn_to_lid = upsert string_discrete p l c.pn_to_lid;
  lid_to_pn = upsert string_discrete l p c.lid_to_pn;
}

unfoldable pub scan_many_lids : List (String × String) → Cache → Cache
unfolding scan_row
scan_many_lids [] c = c
scan_many_lids (r ∷ rs) c = scan_many_lids rs (scan_row r c)

-- The two uses of `getLIDMapping`: from a phone number to a LID, and back.
pub data Direction : Type 0 where
  to_lid to_pn : Direction

abbrev pub source_to_target : Direction → Cache → Table String String
source_to_target to_lid c = c.pn_to_lid
source_to_target to_pn c = c.lid_to_pn

abbrev pub target_to_source : Direction → Cache → Table String String
target_to_source to_lid c = c.lid_to_pn
target_to_source to_pn c = c.pn_to_lid

abbrev pub select : Direction → String → LidDb → Option String
select to_lid = lid_of
select to_pn = pn_of

abbrev with_maps : Direction → Table String String → Table String String → Cache → Cache
with_maps to_lid s t c = record c { pn_to_lid = s; lid_to_pn = t }
with_maps to_pn s t c = record c { pn_to_lid = t; lid_to_pn = s }

-- `sourceToTarget[source.User] = targetUser`, and back where a target was found
unfoldable pub remember : Direction → String → String → Cache → Cache
remember dir source target c =
    with_maps dir (upsert string_discrete source target (source_to_target dir c))
      (if str_eq target ""
        then target_to_source dir c
        else upsert string_discrete target source (target_to_source dir c))
      c

-- The three assignments and two deletions at the end of `unlockedPutLIDMapping`.
unfoldable pub forget : String → String → String → Table String String → Table String String
forget old new back m =
    if not (str_eq old "")
      && not (str_eq old new)
      && str_eq (or_empty (lookup string_discrete old m)) back
    then delete string_discrete old m
    else m

unfoldable pub recache : String → String → Cache → Cache
unfolding forget
recache lid pn c =
    let old_lid = or_empty (lookup string_discrete pn c.pn_to_lid) in
    let old_pn = or_empty (lookup string_discrete lid c.lid_to_pn) in
    record c {
      pn_to_lid = forget old_pn pn lid (upsert string_discrete pn lid c.pn_to_lid);
      lid_to_pn = forget old_lid lid pn (upsert string_discrete lid pn c.lid_to_pn);
    }
