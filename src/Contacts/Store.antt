-- ===== src/Contacts/Store.antt =====
-- The table `contacts`, the contact cache and `SQLStore`'s contact methods (store/sqlstore/store.go).
-- `jid` is the device's own JID; a JID stands for its text, by which the table has it.
use zev_bot.Prelude.{
  ℕ, zero, suc, String, Option, none, some, List, [], ◌∷◌, Bool, true, false, length, take, drop,
  str_eq, string_discrete, ◌&&◌, value_or, if◌then◌else◌,
}
use mathlib.Core.Option
use zev_bot.Table.{Table, lookup, upsert, delete}
use zev_bot.Sql.{
  Error, ok, Prog, pure, raise, gets, modify, query_or, query_rows, exec, ◌>>=◌, ◌>>◌, Txn,
}
use zev_bot.Signal.{Key, key_discrete}

-- The columns of a row, none for NULL.
pub record Columns : Type 0 where
  pub first_name : Option String
  pub full_name : Option String
  pub push_name : Option String
  pub business_name : Option String
  pub redacted_phone : Option String

abbrev pub ContactDb : Type 0
ContactDb = Table Key Columns

-- `types.ContactInfo`
pub record ContactInfo : Type 0 where
  pub found : Bool
  pub first_name : String
  pub full_name : String
  pub push_name : String
  pub business_name : String
  pub redacted_phone : String

abbrev pub ContactCache : Type 0
ContactCache = Table String ContactInfo

abbrev pub ContactProg : Type 0 → Type 0
ContactProg A = Prog ContactDb ContactCache A

-- `store.ContactEntry` and `store.RedactedPhoneEntry`
pub record ContactEntry : Type 0 where
  pub jid : String
  pub first_name : String
  pub full_name : String

pub record RedactedPhoneEntry : Type 0 where
  pub jid : String
  pub redacted_phone : String

abbrev pub no_columns : Columns
no_columns = record {
  first_name = none;
  full_name = none;
  push_name = none;
  business_name = none;
  redacted_phone = none;
}

abbrev pub or_empty : Option String → String
or_empty = value_or ""

-- `sql.NullString` reads NULL, and a missing row, as an empty text.
abbrev pub info_of : Option Columns → ContactInfo
info_of none = record {
  found = false;
  first_name = "";
  full_name = "";
  push_name = "";
  business_name = "";
  redacted_phone = "";
}
info_of (some c) = record {
  found = true;
  first_name = or_empty c.first_name;
  full_name = or_empty c.full_name;
  push_name = or_empty c.push_name;
  business_name = or_empty c.business_name;
  redacted_phone = or_empty c.redacted_phone;
}

-- `INSERT INTO contacts … ON CONFLICT (our_jid, their_jid) DO UPDATE SET …`
abbrev pub set_columns : Key → (Columns → Columns) → ContactDb → ContactDb
set_columns k g t = upsert key_discrete k (g (value_or no_columns (lookup key_discrete k t))) t

abbrev pub set_names : String → String → Columns → Columns
set_names first full c = record c { first_name = some first; full_name = some full }

abbrev pub set_phone : String → Columns → Columns
set_phone phone c = record c { redacted_phone = some phone }

module _ {A : Type 0} where
  -- `slices.Chunk`, on fuel
  unfoldable pub chunks : ℕ → ℕ → List A → List (List A)
  chunks zero n xs = []
  chunks (suc fuel) n [] = []
  chunks (suc fuel) n (x ∷ xs) = take n (x ∷ xs) ∷ chunks fuel n (drop n (x ∷ xs))

abbrev pub contact_batch_size : ℕ
contact_batch_size = 300

-- `contactCache[entry.JID]` is kept where it has the entry's phone.
unfoldable pub refresh_phone : RedactedPhoneEntry → ContactCache → ContactCache
refresh_phone e c = elim (lookup string_discrete e.jid c) [
  | none ↦ delete string_discrete e.jid c
  | some info ↦
      if str_eq info.redacted_phone e.redacted_phone then c else delete string_discrete e.jid c
]

unfoldable pub refresh_phones : List RedactedPhoneEntry → ContactCache → ContactCache
unfolding refresh_phone
refresh_phones [] c = c
refresh_phones (e ∷ es) c = refresh_phones es (refresh_phone e c)

module _ (jid : String) where
  -- `getContact` after its look into the cache
  unfoldable pub cached_or_fetch : String → Option ContactInfo → ContactProg ContactInfo
  unfolding query_or
  cached_or_fetch user (some info) = pure info
  cached_or_fetch user none = do
    row ← query_or none (λ (d : ContactDb). Option.map some (lookup key_discrete (jid, user) d))
    modify (upsert string_discrete user (info_of row))
    pure (info_of row)

  -- `getContact`, and `GetContact`
  unfoldable pub get_contact : String → ContactProg ContactInfo
  unfolding cached_or_fetch
  get_contact user = do c ← gets (λ c. c); cached_or_fetch user (lookup string_discrete user c)

  -- The statement of a single contact, and the change of its cached copy after it.
  unfoldable pub write_contact : String → (Columns → Columns) → ContactInfo → ContactProg (Unit {0})
  write_contact user g info = do
    exec (λ d. ok (set_columns (jid, user) g d))
    modify (upsert string_discrete user info)

  unfoldable pub put_push_name : String → String → ContactProg (Bool × String)
  unfolding get_contact write_contact
  put_push_name user name = do
    cached ← get_contact user
    if str_eq cached.push_name name then pure (false, "") else (do
      write_contact user (λ c. record c { push_name = some name })
          (record cached { push_name = name; found = true })
      pure (true, cached.push_name))

  unfoldable pub put_business_name : String → String → ContactProg (Bool × String)
  unfolding get_contact write_contact
  put_business_name user name = do
    cached ← get_contact user
    if str_eq cached.business_name name then pure (false, "") else (do
      write_contact user (λ c. record c { business_name = some name })
          (record cached { business_name = name; found = true })
      pure (true, cached.business_name))

  unfoldable pub put_contact_name : String → String → String → ContactProg (Unit {0})
  unfolding get_contact write_contact
  put_contact_name user first full = do
    cached ← get_contact user
    if str_eq cached.first_name first && str_eq cached.full_name full
        then pure tt
        else write_contact user (set_names first full)
            (record cached { first_name = first; full_name = full; found = true })

  -- One statement of a batch, with the rows of its entries.
  unfoldable pub set_all_names : List ContactEntry → ContactDb → ContactDb
  set_all_names [] t = t
  set_all_names (e ∷ es) t =
      set_all_names es (set_columns (jid, e.jid) (set_names e.first_name e.full_name) t)

  unfoldable pub set_all_phones : List RedactedPhoneEntry → ContactDb → ContactDb
  set_all_phones [] t = t
  set_all_phones (e ∷ es) t =
      set_all_phones es (set_columns (jid, e.jid) (set_phone e.redacted_phone) t)

  unfoldable pub put_batches :
      {A : Type 0} → (List A → ContactDb → ContactDb) → List (List A) → ContactProg (Unit {0})
  put_batches set [] = pure tt
  put_batches set (b ∷ bs) = do exec (λ d. ok (set b d)); put_batches set bs

  module _ (txn : Txn ContactDb ContactCache) where
    abbrev batches : {A : Type 0} → List A → List (List A)
    batches xs = chunks (length xs) contact_batch_size xs

    -- `dedup` is exslices.DeduplicateUnsortedOverwriteFunc by the JIDs.
    unfoldable pub put_all_contact_names :
        (List ContactEntry → List ContactEntry) → List ContactEntry → ContactProg (Unit {0})
    unfolding put_batches chunks set_all_names
    put_all_contact_names dedup [] = pure tt
    put_all_contact_names dedup (e ∷ es) = do
      txn.run (put_batches set_all_names (batches (dedup (e ∷ es))))
      modify (λ c. [])

    unfoldable pub put_many_redacted_phones :
        (List RedactedPhoneEntry → List RedactedPhoneEntry)
        → List RedactedPhoneEntry
        → ContactProg (Unit {0})
    unfolding put_batches chunks set_all_phones
    put_many_redacted_phones dedup [] = pure tt
    put_many_redacted_phones dedup (e ∷ es) = do
      txn.run (put_batches set_all_phones (batches (dedup (e ∷ es))))
      modify (refresh_phones (dedup (e ∷ es)))

  -- The rows of the device in the table, each as its primary key finds it, by the other's JID.
  unfoldable pub rows_at : ContactDb → ContactDb → List (String × ContactInfo)
  rows_at table [] = []
  rows_at table ((k, c) ∷ t) =
      let rest = rows_at table t in
      if str_eq k.0 jid then (k.1, info_of (lookup key_discrete k table)) ∷ rest else rest

  abbrev pub device_rows : ContactDb → List (String × ContactInfo)
  device_rows table = rows_at table table

  unfoldable pub collect : List (String × ContactInfo) → ContactCache → ContactCache
  collect [] m = m
  collect ((user, info) ∷ rows) m = collect rows (upsert string_discrete user info m)

  abbrev pub all_contacts :
      List (String × ContactInfo) × Option Error → ContactProg (Table String ContactInfo)
  all_contacts (rows, none) = do modify (collect rows); pure (collect rows [])
  all_contacts (rows, some e) = do modify (collect rows); raise e

  unfoldable pub get_all_contacts : ContactProg (Table String ContactInfo)
  unfolding rows_at collect
  get_all_contacts = query_rows device_rows >>= all_contacts
