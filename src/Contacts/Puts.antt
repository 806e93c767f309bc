-- ===== src/Contacts/Puts.antt =====
-- The methods of store/sqlstore/store.go that put the names of one contact.
use zev_bot.Prelude.{
  ◌&&◌, String, ◌≡◌, refl, Option, none, some, Bool, true, false, str_eq, arith, if◌then◌else◌,
  subst, sym, ap, ◌∙◌, value_or,
}
use zev_bot.Sql.{Conn, Faults, ◌>>=◌, ◌>>◌, pure}
use zev_bot.Sql.Post.{Post, Post-mono, bind-Post}
use zev_bot.Contacts.Store.{
  Columns, ContactDb, ContactInfo, ContactCache, ContactProg, no_columns, info_of, set_columns,
  get_contact, write_contact, put_push_name, put_business_name, put_contact_name, set_names,
}
use zev_bot.Contacts.InStep.{
  row_of, Agrees, InStep, Read, get_contact-InStep, row_of-set_columns, if_same, Follows,
  write_contact-InStep,
}

abbrev renamed_row : String → Bool → Option Columns → Option Columns
renamed_row name b o =
    if b then o else some (record (value_or no_columns o) { push_name = some name })

-- The push name is `name`, and the rest as in `old`.
abbrev pub Renamed : String → ContactInfo → ContactInfo → Type 0
Renamed name old info =
    (info.push_name ≡ name)
    × (info.first_name ≡ old.first_name)
    × (info.full_name ≡ old.full_name)
    × (info.business_name ≡ old.business_name)
    × (info.redacted_phone ≡ old.redacted_phone)

names_kept :
    (name : String) (o : Option Columns) (b : Bool)
    → str_eq (info_of o).push_name name ≡ b
    → Renamed name (info_of o) (info_of (renamed_row name b o))
names_kept name o true e = (ground (arith, e), refl, refl, refl, refl)
names_kept name none false e = (refl, refl, refl, refl, refl)
names_kept name (some c) false e = (refl, refl, refl, refl, refl)

module _ (jid : String) where
  -- A put of one contact: what `getContact` returns decides whether the row is written.
  abbrev put :
      {A : Type 0}
      → String
      → (Columns → Columns)
      → (ContactInfo → ContactInfo)
      → (ContactInfo → Bool)
      → A
      → (ContactInfo → A)
      → ContactProg A
  put user g h same unchanged changed = do
    cached ← get_contact jid user
    if same cached
        then pure unchanged
        else (do write_contact jid user g (h cached); pure (changed cached))

  -- The same decision on the row of the table.
  abbrev pub Put :
      {A : Type 0}
      → String
      → (Columns → Columns)
      → Bool
      → A
      → A
      → ContactDb
      → A
      → Conn ContactDb ContactCache
      → Type 0
  Put user g same unchanged changed t r s =
      (InStep jid) s
      × (r ≡ (if same then unchanged else changed))
      × (s.db ≡ (if same then t else set_columns (jid, user) g t))

  put-Put :
      {A : Type 0} (user : String) (g : Columns → Columns) (h : ContactInfo → ContactInfo)
      (same : ContactInfo → Bool) (unchanged : A) (changed : ContactInfo → A) (f : Faults)
      (s : Conn ContactDb ContactCache)
      → Follows jid g h
      → (InStep jid) s
      → (let old = info_of (row_of jid user s.db) in
          Post
            (Put user g (same old) unchanged (changed old) s.db)
            (InStep jid)
            (put user g h same unchanged changed f s))
  put-Put user g h same unchanged changed f s follows agrees =
      let old = info_of (row_of jid user s.db) in
      bind-Post (Read jid user s.db) (Put user g (same old) unchanged (changed old) s.db)
        (InStep jid) (get_contact jid user)
        (λ cached.
          if same cached
          then pure unchanged
          else (write_contact jid user g (h cached) >> pure (changed cached)))
        f s (get_contact-InStep jid user f s agrees)
        (λ cached c read.
          subst
            (λ i. Post (Put user g (same i) unchanged (changed i) s.db) (InStep jid) (
              (if same cached
                  then pure unchanged
                  else (write_contact jid user g (h cached) >> pure (changed cached)))
                f c))
            read.0 (decided cached c read (same cached)))
    where
      decided :
          (cached : ContactInfo) (c : Conn ContactDb ContactCache)
          → Read jid user s.db cached c
          → (b : Bool)
          → Post (Put user g b unchanged (changed cached) s.db) (InStep jid) (
              (if b
                  then pure unchanged
                  else (write_contact jid user g (h cached) >> pure (changed cached)))
                f c)
      decided cached c (is, same_db, agrees') true =
          (subst (λ d. Agrees jid d c.mem) (sym same_db) agrees', refl, same_db)
      decided cached c read false =
          bind-Post (λ u d. (d.db ≡ set_columns (jid, user) g s.db) × (InStep jid) d)
            (Put user g false unchanged (changed cached) s.db) (InStep jid)
            (write_contact jid user g (h cached)) (λ u. pure (changed cached)) f c
            (write_contact-InStep jid user g h cached f c s.db follows read)
            (λ u d (db, in_step). (in_step, refl, db))

  -- PutPushName on a cache that agrees with the table answers by the row alone: whether its push name is
  -- another one, and which. The row has the new name then, all else in the table is as it was, and the
  -- cache agrees with the table again, after an error too.
  pub put_push_name-Put :
      (user name : String) (f : Faults) (s : Conn ContactDb ContactCache)
      → (InStep jid) s
      → (let old = (info_of (row_of jid user s.db)).push_name in
          Post
            (Put user
              (λ c. record c { push_name = some name })
              (str_eq old name)
              (false, "")
              (true, old)
              s.db)
            (InStep jid)
            (put_push_name jid user name f s))
  unfolding put_push_name
  put_push_name-Put user name f s agrees =
      put-Put user (λ c. record c { push_name = some name })
        (λ i. record i { push_name = name; found = true }) (λ i. str_eq i.push_name name)
        (false, "") (λ i. (true, i.push_name)) f s (λ o. ground arith) agrees

  -- PutBusinessName, in the same way as PutPushName.
  pub put_business_name-Put :
      (user name : String) (f : Faults) (s : Conn ContactDb ContactCache)
      → InStep jid s
      → (let old = (info_of (row_of jid user s.db)).business_name in
          Post
            (Put user
              (λ c. record c { business_name = some name })
              (str_eq old name)
              (false, "")
              (true, old)
              s.db)
            (InStep jid)
            (put_business_name jid user name f s))
  unfolding put_business_name
  put_business_name-Put user name f s agrees =
      put-Put user (λ c. record c { business_name = some name })
        (λ i. record i { business_name = name; found = true }) (λ i. str_eq i.business_name name)
        (false, "") (λ i. (true, i.business_name)) f s (λ o. ground arith) agrees

  pub put_contact_name-InStep :
      (user first full : String) (f : Faults) (s : Conn ContactDb ContactCache)
      → InStep jid s
      → Post (λ u c. InStep jid c) (InStep jid) (put_contact_name jid user first full f s)
  unfolding put_contact_name
  put_contact_name-InStep user first full f s agrees =
      let h : ContactInfo → ContactInfo =
        λ i. record i { first_name = first; full_name = full; found = true } in
      let same : ContactInfo → Bool = λ i. str_eq i.first_name first && str_eq i.full_name full in
      bind-Post (Read jid user s.db) (λ u c. InStep jid c) (InStep jid) (get_contact jid user)
        (λ cached.
          if same cached then pure tt else write_contact jid user (set_names first full) (h cached))
        f s (get_contact-InStep jid user f s agrees)
        (λ cached c read. decided h cached c (λ o. ground arith) read (same cached))
    where
      decided :
          (h : ContactInfo → ContactInfo) (cached : ContactInfo) (c : Conn ContactDb ContactCache)
          → Follows jid (set_names first full) h
          → Read jid user s.db cached c
          → (b : Bool)
          → Post
              (λ u c. InStep jid c)
              (InStep jid)
              ((if b then pure tt else write_contact jid user (set_names first full) (h cached)) f
                c)
      decided h cached c follows (is, same_db, agrees') true =
          subst (λ d. Agrees jid d c.mem) (sym same_db) agrees'
      decided h cached c follows read false =
          Post-mono _ (λ u c. InStep jid c) (InStep jid) (InStep jid)
            (write_contact jid user (set_names first full) (h cached) f c) (λ u d k. k.1) (λ d k. k)
            (write_contact-InStep jid user (set_names first full) h cached f c s.db follows read)

  -- The row after PutPushName, by whether the name was the same.
  row_put :
      (user name : String) (t : ContactDb) (b : Bool)
      → row_of jid user
          (if b then t else set_columns (jid, user) (λ c. record c { push_name = some name }) t)
        ≡ renamed_row name b (row_of jid user t)
  row_put user name t true = refl
  row_put user name t false =
      row_of-set_columns jid user user (λ c. record c { push_name = some name }) t
      ∙ if_same _ _ user

  -- After a PutPushName that returns, GetContact of the contact returns the new push name and the other
  -- names as they were, or the failure of its query.
  get_contact-put_push_name :
      (user name : String) (f : Faults) (s : Conn ContactDb ContactCache)
      → InStep jid s
      → (let old = info_of (row_of jid user s.db) in
          Post
            (λ info c. Renamed name old info)
            (InStep jid)
            ((put_push_name jid user name >>= λ r. get_contact jid user) f s))
  get_contact-put_push_name user name f s agrees =
      let g : Columns → Columns = λ c. record c { push_name = some name } in
      let old = info_of (row_of jid user s.db) in
      bind-Post (Put user g (str_eq old.push_name name) (false, "") (true, old.push_name) s.db) _
        (InStep jid) (put_push_name jid user name) (λ r. get_contact jid user) f s
        (put_push_name-Put user name f s agrees)
        (λ r c (in_step, r_is, db).
          Post-mono (Read jid user c.db) _ (InStep jid) (InStep jid) (get_contact jid user f c)
            (λ info d (is, same_db, agrees').
              subst (λ i. Renamed name old i)
                (sym (is ∙ ap info_of (ap (row_of jid user) db ∙ row_put user name s.db _)))
                (names_kept name (row_of jid user s.db) (str_eq old.push_name name) refl))
            (λ d k. k) (get_contact-InStep jid user f c in_step))
