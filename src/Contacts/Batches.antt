-- ===== src/Contacts/Batches.antt =====
-- The batches of store/sqlstore/store.go that put many names or phones in one transaction.
use zev_bot.Prelude.{
  ℕ, zero, suc, ◌≤◌, ◌<◌, String, ◌≡◌, ◌≢◌, refl, Option, none, some, List, [], ◌∷◌, ◌++◌, All,
  length, take, drop, length-drop, take-append-drop, str_eq, arith, string_discrete, if◌then◌else◌,
  sym, ap, ◌∙◌, if_pos, if_neg, value_or,
}
use mathlib.Core.Option
use zev_bot.Table.{lookup, delete, lookup-delete}
use zev_bot.Sql.{ok-injective, ok, Conn, Faults, exec}
use zev_bot.Sql.Post.{Post, Post-mono, bind-Post, exec-Post}
use zev_bot.Contacts.Store.{
  Columns, ContactDb, ContactInfo, ContactCache, ContactEntry, RedactedPhoneEntry, no_columns,
  info_of, set_columns, set_phone, chunks, refresh_phone, refresh_phones, set_all_names,
  set_all_phones, put_batches,
}
use zev_bot.Contacts.InStep.{row_of, Agrees, row_of-set_columns}

module _ {A : Type 0} where
  unfoldable pub concat : List (List A) → List A
  concat [] = []
  concat (b ∷ bs) = b ++ concat bs

  -- Fuel for the whole list is enough, and the chunks are the list again.
  pub concat-chunks :
      (fuel n : ℕ) (xs : List A) → length xs ≤ fuel → 0 < n → concat (chunks fuel n xs) ≡ xs
  unfolding concat chunks
  concat-chunks zero n [] l pos = refl
  concat-chunks zero n (x ∷ xs) l pos = ground (arith, l)
  concat-chunks (suc fuel) n [] l pos = refl
  concat-chunks (suc fuel) n (x ∷ xs) l pos =
      ap (◌++◌ (take n (x ∷ xs)))
        (concat-chunks fuel n (drop n (x ∷ xs)) (omega (arith, length-drop n (x ∷ xs), l, pos)) pos)
      ∙ take-append-drop n (x ∷ xs)

-- A row with the phone of the cached copy shows the same when that phone is written.
phone_kept :
    (phone : String) (o : Option Columns)
    → phone ≢ ""
    → (info_of o).redacted_phone ≡ phone
    → info_of o ≡ info_of (some (set_phone phone (value_or no_columns o)))
phone_kept phone none ne e = absurd (ne (sym e))
phone_kept phone (some c) ne e = ground (arith, e)

lookup-refresh_phone :
    (e : RedactedPhoneEntry) (m : ContactCache) (user : String) (info : ContactInfo)
    → lookup string_discrete user (refresh_phone e m) ≡ some info
    → (lookup string_discrete user m ≡ some info)
      × (e.jid ≡ user → info.redacted_phone ≡ e.redacted_phone)
unfolding refresh_phone
lookup-refresh_phone e m user info h = at (lookup string_discrete e.jid m) refl h
  where
    at :
        (o : Option ContactInfo)
        → lookup string_discrete e.jid m ≡ o
        → lookup string_discrete user (elim o [
          | none ↦ delete string_discrete e.jid m
          | some i ↦
              if str_eq i.redacted_phone e.redacted_phone then m else delete string_discrete e.jid m
        ])
          ≡ some info
        → (lookup string_discrete user m ≡ some info)
          × (e.jid ≡ user → info.redacted_phone ≡ e.redacted_phone)
    at none q h = ground (arith, h, lookup-delete string_discrete user e.jid m)
    at (some i) q h = ground (
      arith,
      h,
      q,
      lookup-delete string_discrete user e.jid m,
      ap (λ u. lookup string_discrete u m) {x = e.jid} {y = user},
      ap {B = Option String} (Option.map (λ (i : ContactInfo). i.redacted_phone)) {x = some i}
          {y = some info},
    )

module _ (jid : String) where
  pub set_all_names-append :
      (xs ys : List ContactEntry) (t : ContactDb)
      → set_all_names jid (xs ++ ys) t ≡ set_all_names jid ys (set_all_names jid xs t)
  unfolding set_all_names
  set_all_names-append [] ys t = refl
  set_all_names-append (x ∷ xs) ys t = set_all_names-append xs ys _

  pub set_all_phones-append :
      (xs ys : List RedactedPhoneEntry) (t : ContactDb)
      → set_all_phones jid (xs ++ ys) t ≡ set_all_phones jid ys (set_all_phones jid xs t)
  unfolding set_all_phones
  set_all_phones-append [] ys t = refl
  set_all_phones-append (x ∷ xs) ys t = set_all_phones-append xs ys _

  -- An entry with a phone leaves a cached copy only where it has that phone, so that the copy shows the
  -- row after the entry's write.
  refresh_phone-Agrees :
      (e : RedactedPhoneEntry) (t : ContactDb) (m : ContactCache)
      → e.redacted_phone ≢ ""
      → Agrees jid t m
      → Agrees jid (set_columns (jid, e.jid) (set_phone e.redacted_phone) t) (refresh_phone e m)
  unfolding refresh_phone
  refresh_phone-Agrees e t m ne agrees user info h =
      let (cached, phone) = lookup-refresh_phone e m user info h in
      at (string_discrete e.jid user) cached phone
    where
      new : ContactDb
      new = set_columns (jid, e.jid) (set_phone e.redacted_phone) t

      at :
          (d : Dec (e.jid ≡ user))
          → lookup string_discrete user m ≡ some info
          → (e.jid ≡ user → info.redacted_phone ≡ e.redacted_phone)
          → info ≡ info_of (row_of jid user new)
      at (no n) cached phone =
          agrees user info cached
          ∙ ap info_of (
              sym (
                row_of-set_columns jid e.jid user (set_phone e.redacted_phone) t
                ∙ if_neg (string_discrete e.jid user) n _ _))
      at (yes q) cached phone =
          let shows = agrees e.jid info (ap (λ u. lookup string_discrete u m) q ∙ cached) in
          shows
          ∙ phone_kept e.redacted_phone (row_of jid e.jid t) ne
              (sym (ap (λ i. i.redacted_phone) shows) ∙ phone q)
          ∙ ap info_of (
              sym (
                row_of-set_columns jid e.jid user (set_phone e.redacted_phone) t
                ∙ if_pos (string_discrete e.jid user) q _ _))

  pub refresh_phones-Agrees :
      (es : List RedactedPhoneEntry) (t : ContactDb) (m : ContactCache)
      → All (λ (e : RedactedPhoneEntry). e.redacted_phone ≢ "") es
      → Agrees jid t m
      → Agrees jid (set_all_phones jid es t) (refresh_phones es m)
  unfolding set_all_phones refresh_phones
  refresh_phones-Agrees [] t m ne agrees = agrees
  refresh_phones-Agrees (e ∷ es) t m ne agrees =
      refresh_phones-Agrees es _ _ ne.1 (refresh_phone-Agrees e t m ne.0 agrees)

  pub put_batches-Post :
      {A : Type 0} (set : List A → ContactDb → ContactDb) (bs : List (List A)) (f : Faults)
      (s : Conn ContactDb ContactCache)
      → ((t : ContactDb) → set [] t ≡ t)
      → ((xs ys : List A) (t : ContactDb) → set (xs ++ ys) t ≡ set ys (set xs t))
      → Post
          (λ u c. (c.db ≡ set (concat bs) s.db) × (c.mem ≡ s.mem))
          (λ c. c.mem ≡ s.mem)
          (put_batches jid set bs f s)
  unfolding put_batches concat
  put_batches-Post set [] f s nil append = (sym (nil s.db), refl)
  put_batches-Post set (b ∷ bs) f s nil append =
      bind-Post (λ u c. (c.db ≡ set b s.db) × (c.mem ≡ s.mem))
        (λ u c. (c.db ≡ set (concat (b ∷ bs)) s.db) × (c.mem ≡ s.mem)) (λ c. c.mem ≡ s.mem)
        (exec (λ d. ok (set b d))) (λ u. put_batches jid set bs) f s
        (exec-Post _ (λ c. c.mem ≡ s.mem) (λ d. ok (set b d)) f s refl
          (λ d e. (sym (ok-injective e), refl)))
        (λ u c (db, kept).
          Post-mono _ _ (λ d. d.mem ≡ c.mem) (λ d. d.mem ≡ s.mem) (put_batches jid set bs f c)
            (λ u d (db', kept').
              (db' ∙ ap (set (concat bs)) db ∙ sym (append b (concat bs) s.db), kept' ∙ kept))
            (λ d kept'. kept' ∙ kept) (put_batches-Post set bs f c nil append))
