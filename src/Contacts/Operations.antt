-- ===== src/Contacts/Operations.antt =====
-- The contact cache of store/sqlstore/store.go over a run of operations.
use zev_bot.Prelude.{
  String, ◌≡◌, ◌≢◌, refl, List, [], ◌∷◌, ◌++◌, All, length, arith, subst, sym, ap, ◌∙◌,
}
use zev_bot.Table.{lookup}
use zev_bot.Sql.{Result, ok, err, Conn, Faults, ◌>>=◌, ◌>>◌, pure, modify, Txn}
use zev_bot.Sql.Post.{Post, Post-mono, bind-Post, txn-Post}
use zev_bot.Contacts.Store.{
  ContactDb, ContactCache, ContactProg, ContactEntry, RedactedPhoneEntry, chunks,
  contact_batch_size, refresh_phones, set_all_names, set_all_phones, put_batches,
  put_all_contact_names, put_many_redacted_phones, get_contact, get_all_contacts, put_push_name,
  put_business_name, put_contact_name,
}
use zev_bot.Contacts.InStep.{Agrees, InStep, Read, Same, get_contact-InStep}
use zev_bot.Contacts.Everyone.{get_all_contacts-Agrees}
use zev_bot.Contacts.Puts.{put_push_name-Put, put_business_name-Put, put_contact_name-InStep}
use zev_bot.Contacts.Batches.{
  concat, concat-chunks, set_all_names-append, set_all_phones-append, put_batches-Post,
  refresh_phones-Agrees,
}

-- The operations.
pub data Operation : Type 0 where
  get : String → Operation
  get_all : Operation
  put_push : String → String → Operation
  put_business : String → String → Operation
  put_name : String → String → String → Operation
  put_all_names : List ContactEntry → Operation
  put_phones : List RedactedPhoneEntry → Operation

module _ (jid : String) (txn : Txn ContactDb ContactCache)
    (dedup_names : List ContactEntry → List ContactEntry)
    (dedup_phones : List RedactedPhoneEntry → List RedactedPhoneEntry) where
  abbrev ignored : {A : Type 0} → ContactProg A → ContactProg (Unit {0})
  ignored m = m >>= λ a. pure tt

  abbrev pub perform : Operation → ContactProg (Unit {0})
  perform (get user) = ignored (get_contact jid user)
  perform get_all = ignored (get_all_contacts jid)
  perform (put_push user name) = ignored (put_push_name jid user name)
  perform (put_business user name) = ignored (put_business_name jid user name)
  perform (put_name user first full) = put_contact_name jid user first full
  perform (put_all_names es) = put_all_contact_names jid txn dedup_names es
  perform (put_phones es) = put_many_redacted_phones jid txn dedup_phones es

  -- The operations one after the other, whatever they answer.
  unfoldable pub run :
      List Operation → Faults → Conn ContactDb ContactCache → Conn ContactDb ContactCache
  run [] f s = s
  run (o ∷ os) f s = run os f (perform o f s).1

  -- The entries that are written all have a phone.
  abbrev pub HasPhones : Operation → Type 0
  HasPhones (put_phones es) =
      All (λ (e : RedactedPhoneEntry). e.redacted_phone ≢ "") (dedup_phones es)
  HasPhones _ = Unit

  abbrev Kept : {A : Type 0} → Result A × Conn ContactDb ContactCache → Type 0
  Kept r = Post (λ a c. InStep jid c) (InStep jid) r

  ignored-Kept :
      {A : Type 0} (m : ContactProg A) (f : Faults) (s : Conn ContactDb ContactCache)
      → Kept (m f s)
      → Kept (ignored m f s)
  ignored-Kept m f s h =
      bind-Post (λ a c. InStep jid c) _ (InStep jid) m (λ a. pure tt) f s h (λ a c k. k)

  Same-InStep : (t : ContactDb) (c : Conn ContactDb ContactCache) → Same jid t c → InStep jid c
  Same-InStep t c (same, agrees) = subst (λ d. Agrees jid d c.mem) (sym same) agrees

  Unmoved-InStep :
      (s c : Conn ContactDb ContactCache)
      → InStep jid s
      → (c.db ≡ s.db) × (c.mem ≡ s.mem)
      → InStep jid c
  Unmoved-InStep s c agrees (db, mem) =
      subst (λ d. Agrees jid d c.mem) (sym db) (subst (Agrees jid s.db) (sym mem) agrees)

  -- A batch in a transaction, and what is done to the cache after it.
  batch-Kept :
      {A : Type 0} (set : List A → ContactDb → ContactDb) (xs : List A)
      (after : ContactCache → ContactCache) (f : Faults) (s : Conn ContactDb ContactCache)
      → ((t : ContactDb) → set [] t ≡ t)
      → ((xs ys : List A) (t : ContactDb) → set (xs ++ ys) t ≡ set ys (set xs t))
      → InStep jid s
      → Agrees jid (set xs s.db) (after s.mem)
      → Kept (
          (txn.run (put_batches jid set (chunks (length xs) contact_batch_size xs)) >> modify after)
            f s)
  batch-Kept set xs after f s nil append agrees then_agrees =
      let bs = chunks (length xs) contact_batch_size xs in
      let whole = concat-chunks (length xs) contact_batch_size xs (omega arith) (omega arith) in
      bind-Post (λ u c. (c.db ≡ set (concat bs) s.db) × (c.mem ≡ s.mem)) (λ u c. InStep jid c)
        (InStep jid) (txn.run (put_batches jid set bs)) (λ u. modify after) f s
        (Post-mono _ _ (λ c. (c.db ≡ s.db) × (c.mem ≡ s.mem)) (InStep jid)
          (txn.run (put_batches jid set bs) f s) (λ u c h. h) (λ c h. Unmoved-InStep s c agrees h)
          (txn-Post txn (put_batches jid set bs) f s (λ d. d ≡ set (concat bs) s.db)
            (λ n. put_batches-Post jid set bs f (record s { clock = n }) nil append)))
        (λ u c (db, mem).
          subst (λ d. Agrees jid d (after c.mem)) (sym (db ∙ ap (λ ys. set ys s.db) whole))
            (subst (λ m. Agrees jid (set xs s.db) (after m)) (sym mem) then_agrees))

  perform-Kept :
      (o : Operation) (f : Faults) (s : Conn ContactDb ContactCache)
      → HasPhones o
      → InStep jid s
      → Kept (perform o f s)
  unfolding put_all_contact_names put_many_redacted_phones set_all_names set_all_phones lookup
  perform-Kept (get user) f s has agrees = ignored-Kept (get_contact jid user) f s (
      Post-mono (Read jid user s.db) (λ a c. InStep jid c) (InStep jid) (InStep jid)
        (get_contact jid user f s) (λ a c (is, same, agrees). Same-InStep s.db c (same, agrees))
        (λ c k. k) (get_contact-InStep jid user f s agrees))
  perform-Kept get_all f s has agrees = ignored-Kept (get_all_contacts jid) f s (
      Post-mono _ (λ a c. InStep jid c) (λ c. Same jid s.db c) (InStep jid)
        (get_all_contacts jid f s) (λ all c (shown, db, kept). Same-InStep s.db c (db, kept))
        (λ c same. Same-InStep s.db c same) (get_all_contacts-Agrees jid f s agrees))
  perform-Kept (put_push user name) f s has agrees =
      ignored-Kept (put_push_name jid user name) f s (
        Post-mono _ (λ a c. InStep jid c) (InStep jid) (InStep jid)
          (put_push_name jid user name f s) (λ a c h. h.0) (λ c h. h)
          (put_push_name-Put jid user name f s agrees))
  perform-Kept (put_business user name) f s has agrees =
      ignored-Kept (put_business_name jid user name) f s (
        Post-mono _ (λ a c. InStep jid c) (InStep jid) (InStep jid)
          (put_business_name jid user name f s) (λ a c h. h.0) (λ c h. h)
          (put_business_name-Put jid user name f s agrees))
  perform-Kept (put_name user first full) f s has agrees =
      put_contact_name-InStep jid user first full f s agrees
  perform-Kept (put_all_names []) f s has agrees = agrees
  perform-Kept (put_all_names (e ∷ es)) f s has agrees =
      batch-Kept (set_all_names jid) (dedup_names (e ∷ es)) (λ m. []) f s (λ t. refl)
        (set_all_names-append jid) agrees (λ user info h. ground (arith, h))
  perform-Kept (put_phones []) f s has agrees = agrees
  perform-Kept (put_phones (e ∷ es)) f s has agrees =
      batch-Kept (set_all_phones jid) (dedup_phones (e ∷ es))
        (refresh_phones (dedup_phones (e ∷ es))) f s (λ t. refl) (set_all_phones-append jid) agrees
        (refresh_phones-Agrees jid (dedup_phones (e ∷ es)) s.db s.mem has agrees)

  -- Over any run of operations, whichever statements fail, the contact cache agrees with the table, if
  -- the entries of PutManyRedactedPhones have phones.
  pub run-InStep :
      (os : List Operation) (f : Faults) (s : Conn ContactDb ContactCache)
      → All HasPhones os
      → InStep jid s
      → InStep jid (run os f s)
  unfolding run
  run-InStep [] f s has agrees = agrees
  run-InStep (o ∷ os) f s has agrees =
      run-InStep os f (perform o f s).1 has.1
        (state (perform o f s) (perform-Kept o f s has.0 agrees))
    where
      state : (r : Result (Unit {0}) × Conn ContactDb ContactCache) → Kept r → InStep jid r.1
      state (ok u, c) k = k
      state (err e, c) k = k
