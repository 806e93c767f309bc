-- ===== src/PreKeys/Store.antt =====
-- The table `pre_keys` and `SQLStore`'s pre key methods (store/sqlstore/store.go). `jid` is the device's
-- own JID, and `random n` the private key that is drawn before the statement with number n.
use zev_bot.Prelude.{
  ℕ, zero, suc, ◌+◌, ◌-◌, ◌^◌, ◌%◌, String, Option, none, some, List, [], ◌∷◌, ◌++◌, Bool, true,
  false, not, ◌&&◌, length, take, str_eq, string_discrete, ℕ_discrete, ltb, leb, ◌==◌,
  if◌then◌else◌,
}
use zev_bot.Table.{Table, lookup, upsert, delete}
use zev_bot.Sql.{
  Error, Result, ok, err, constraint, invalid_length, Prog, pure, query, query_rows, exec, ◌>>=◌,
  ◌>>◌, wrapping,
}
use zev_bot.Signal.{Bytes}

-- (jid, key_id)
abbrev pub PreKeyId : Type 0
PreKeyId = String × ℕ

unfoldable pub pre_key_id_discrete : Discrete PreKeyId
pre_key_id_discrete = hlevel (string_discrete, ℕ_discrete)

pub record Row : Type 0 where
  pub key : Bytes
  pub uploaded : Bool

abbrev pub PreKeyDb : Type 0
PreKeyDb = Table PreKeyId Row

-- `keys.PreKey`, without the public key that its private key gives.
pub record PreKey : Type 0 where
  pub key_id : ℕ
  pub priv : Bytes

-- `SELECT MAX(key_id) FROM pre_keys WHERE jid=$1`, with 0 for NULL
unfoldable pub max_id : String → PreKeyDb → ℕ
max_id jid [] = 0
max_id jid ((k, r) ∷ t) =
    let rest = max_id jid t in if str_eq k.0 jid && ltb rest k.1 then k.1 else rest

-- `… WHERE jid=$1 AND uploaded=false`
unfoldable pub unuploaded : String → PreKeyDb → List PreKey
unuploaded jid [] = []
unuploaded jid ((k, r) ∷ t) =
    let rest = unuploaded jid t in
    if str_eq k.0 jid && not r.uploaded then record { key_id = k.1; priv = r.key } ∷ rest else rest

unfoldable pub insert : PreKey → List PreKey → List PreKey
insert k [] = k ∷ []
insert k (j ∷ js) = let rest = insert k js in if ltb k.key_id j.key_id then k ∷ j ∷ js else j ∷ rest

-- `ORDER BY key_id`
unfoldable pub ordered : List PreKey → List PreKey
unfolding insert
ordered [] = []
ordered (k ∷ ks) = insert k (ordered ks)

-- The rows of a query through `scanPreKey`: the first error ends them.
unfoldable pub scan_pre_keys : List PreKey → Option Error → Result (List PreKey)
scan_pre_keys [] none = ok []
scan_pre_keys [] (some e) = err e
scan_pre_keys (k ∷ ks) e =
    let rest = scan_pre_keys ks e in
    if length k.priv == 32
    then (elim rest [ ok js ↦ ok (k ∷ js) | err x ↦ err x ])
    else err invalid_length

-- `INSERT INTO pre_keys …`: refused for an id that the device has, or that is no 24-bit number.
unfoldable pub insert_row : PreKeyId → Row → PreKeyDb → Result PreKeyDb
insert_row k r t = elim (lookup pre_key_id_discrete k t) [
  | some old ↦ err constraint
  | none ↦ if ltb k.1 16777216 then ok (upsert pre_key_id_discrete k r t) else err constraint
]

-- `UPDATE pre_keys SET uploaded=true WHERE jid=$1 AND key_id<=$2`
unfoldable pub mark_rows : String → ℕ → PreKeyDb → PreKeyDb
mark_rows jid up_to [] = []
mark_rows jid up_to ((k, r) ∷ t) =
    let rest = mark_rows jid up_to t in
    (k, if str_eq k.0 jid && leb k.1 up_to then record r { uploaded = true } else r) ∷ rest

-- `SELECT COUNT(*) FROM pre_keys WHERE jid=$1 AND uploaded=true`
unfoldable pub count_uploaded : String → PreKeyDb → ℕ
count_uploaded jid [] = 0
count_uploaded jid ((k, r) ∷ t) =
    let rest = count_uploaded jid t in if str_eq k.0 jid && r.uploaded then suc rest else rest

abbrev pub oldest : String → ℕ → PreKeyDb → List PreKey
oldest jid count d = take count (ordered (unuploaded jid d))

abbrev pub scanned : {C : Type 0} → List PreKey × Option Error → Prog PreKeyDb C (List PreKey)
scanned (ks, e) f s = (scan_pre_keys ks e, s)

-- `scanPreKey` at a single row
abbrev one_pre_key : Option PreKey → Result (Option PreKey)
one_pre_key none = ok none
one_pre_key (some k) = if length k.priv == 32 then ok (some k) else err invalid_length

abbrev row_key : ℕ → Option Row → Option PreKey
row_key id none = none
row_key id (some r) = some (record { key_id = id; priv = r.key })

module _ {C : Type 0} (jid : String) where
  unfoldable pub get_next_pre_key_id : Prog PreKeyDb C ℕ
  get_next_pre_key_id = do
    last ← wrapping "failed to query next prekey ID" (query (λ d. ok (max_id jid d)))
    pure ((last + 1) % 2 ^ 32)

  -- The query of `GetOrGenPreKeys`
  unfoldable pub existing_pre_keys : ℕ → Prog PreKeyDb C (List PreKey)
  unfolding scan_pre_keys
  existing_pre_keys count =
      wrapping "failed to query existing prekeys" (query_rows (oldest jid count) >>= scanned)

  unfoldable pub get_pre_key : ℕ → Prog PreKeyDb C (Option PreKey)
  get_pre_key id = query (λ d. one_pre_key (row_key id (lookup pre_key_id_discrete (jid, id) d)))

  unfoldable pub remove_pre_key : ℕ → Prog PreKeyDb C (Unit {0})
  remove_pre_key id = exec (λ d. ok (delete pre_key_id_discrete (jid, id) d))

  unfoldable pub mark_pre_keys_as_uploaded : ℕ → Prog PreKeyDb C (Unit {0})
  mark_pre_keys_as_uploaded up_to = exec (λ d. ok (mark_rows jid up_to d))

  unfoldable pub uploaded_pre_key_count : Prog PreKeyDb C ℕ
  uploaded_pre_key_count = query (λ d. ok (count_uploaded jid d))

module _ {C : Type 0} (random : ℕ → Bytes) (jid : String) where
  unfoldable pub insert_pre_key : PreKey → Bool → Prog PreKeyDb C PreKey
  unfolding insert_row
  insert_pre_key key uploaded = do
    exec (insert_row (jid, key.key_id) (record { key = key.priv; uploaded = uploaded }))
    pure key

  -- `genOnePreKey`
  unfoldable pub make_pre_key : ℕ → Bool → Prog PreKeyDb C PreKey
  unfolding insert_pre_key
  make_pre_key id uploaded f s =
      insert_pre_key (record { key_id = id; priv = random s.clock }) uploaded f s

  -- `GenOnePreKey`
  unfoldable pub gen_one_pre_key : Prog PreKeyDb C PreKey
  unfolding get_next_pre_key_id
  gen_one_pre_key = do id ← get_next_pre_key_id jid; make_pre_key id true

  -- The loop of `GetOrGenPreKeys`, for the keys that are missing.
  unfoldable pub generate : ℕ → ℕ → Prog PreKeyDb C (List PreKey)
  unfolding make_pre_key
  generate zero id = pure []
  generate (suc n) id = do
    k ← wrapping "failed to generate prekey" (make_pre_key id false)
    ks ← generate n ((id + 1) % 2 ^ 32)
    pure (k ∷ ks)

  unfoldable pub top_up : ℕ → List PreKey → Prog PreKeyDb C (List PreKey)
  unfolding generate
  top_up count ks =
      if ltb (length ks) count
      then (do
        id ← get_next_pre_key_id jid
        new ← generate (count - length ks) id
        pure (ks ++ new))
      else pure ks

  unfoldable pub get_or_gen_pre_keys : ℕ → Prog PreKeyDb C (List PreKey)
  unfolding top_up existing_pre_keys
  get_or_gen_pre_keys count = existing_pre_keys jid count >>= top_up count
