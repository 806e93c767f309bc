-- ===== src/Contacts/InStep.antt =====
-- The contact cache of store/sqlstore/store.go shows what the table has.
use zev_bot.Prelude.{
  some-injective, String, ◌≡◌, ◌≢◌, refl, Option, none, some, arith, string_discrete, subst, sym,
  ap, ◌∙◌, ite, if_pos, if_neg, value_or,
}
use mathlib.Core.Option
use zev_bot.Table.{lookup, upsert, lookup-upsert}
use zev_bot.Sql.{ok-injective, ok, Conn, Faults, exec, query_or, modify}
use zev_bot.Sql.Post.{Post, Post-mono, bind-Post, exec-Post, query_or-Post}
use zev_bot.Signal.{Key, key_discrete}
use zev_bot.Contacts.Store.{
  Columns, ContactDb, ContactInfo, ContactCache, no_columns, info_of, set_columns, cached_or_fetch,
  get_contact, write_contact,
}

value_or-map : {A : Type 0} (o : Option A) → value_or none (Option.map some o) ≡ o
value_or-map none = refl
value_or-map (some a) = refl

pub if_same : {A : Type 0} (a b : A) (u : String) → ite (string_discrete u u) a b ≡ a
if_same a b u = if_pos (string_discrete u u) refl a b

module _ (jid : String) where
  abbrev pub row_of : String → ContactDb → Option Columns
  row_of user t = lookup key_discrete (jid, user) t

  -- A cached contact shows the row that the table has, or that it has none.
  abbrev pub Agrees : ContactDb → ContactCache → Type 0
  Agrees t m =
      (user : String) (info : ContactInfo)
      → lookup string_discrete user m ≡ some info
      → info ≡ info_of (row_of user t)

  abbrev pub InStep : Conn ContactDb ContactCache → Type 0
  InStep s = Agrees s.db s.mem

  pub row_of-set_columns :
      (user other : String) (g : Columns → Columns) (t : ContactDb)
      → row_of other (set_columns (jid, user) g t)
        ≡ ite
            (string_discrete user other)
            (some (g (value_or no_columns (row_of user t))))
            (row_of other t)
  row_of-set_columns user other g t = ground (
    arith,
    lookup-upsert key_discrete (jid, other) (jid, user) (g (value_or no_columns (row_of user t))) t,
    ap {B = String} (λ (k : Key). k.1) {x = (jid, user)} {y = (jid, other)},
    ap {B = Key} (λ (u : String). (jid, u)) {x = user} {y = other},
  )

  -- A new copy of one contact, in agreement with its row.
  pub written-Agrees :
      (user : String) (info : ContactInfo) (t t' : ContactDb) (m : ContactCache)
      → Agrees t m
      → info ≡ info_of (row_of user t')
      → ((other : String) → user ≢ other → row_of other t' ≡ row_of other t)
      → Agrees t' (upsert string_discrete user info m)
  written-Agrees user info t t' m agrees is others other i e =
      at (string_discrete user other) (sym (lookup-upsert string_discrete other user info m) ∙ e)
    where
      at :
          (d : Dec (user ≡ other))
          → ite d (some info) (lookup string_discrete other m) ≡ some i
          → i ≡ info_of (row_of other t')
      at (yes q) h = some-injective (sym h) ∙ is ∙ ap (λ u. info_of (row_of u t')) q
      at (no n) h = agrees other i h ∙ ap info_of (sym (others other n))

  -- The state after a read: a contact that shows its row, in the cache.
  abbrev pub Read : String → ContactDb → ContactInfo → Conn ContactDb ContactCache → Type 0
  Read user t info s = (info ≡ info_of (row_of user t)) × (s.db ≡ t) × Agrees t s.mem

  abbrev pub Same : ContactDb → Conn ContactDb ContactCache → Type 0
  Same t s = (s.db ≡ t) × Agrees t s.mem

  -- On a cache that agrees with the table, GetContact returns the names and the phone of the row, or
  -- that there is none, or the failure of the query, and leaves the table as it was and the cache in
  -- agreement with it.
  get_contact-Read :
      (user : String) (f : Faults) (s : Conn ContactDb ContactCache)
      → InStep s
      → Post (Read user s.db) (Same s.db) (get_contact jid user f s)
  unfolding get_contact cached_or_fetch
  get_contact-Read user f s agrees = at (lookup string_discrete user s.mem) refl
    where
      at :
          (o : Option ContactInfo)
          → lookup string_discrete user s.mem ≡ o
          → Post (Read user s.db) (Same s.db) (cached_or_fetch jid user o f s)
      at (some info) e = (agrees user info e, refl, agrees)
      at none e =
          bind-Post (λ row c. (row ≡ row_of user s.db) × (c.db ≡ s.db) × (c.mem ≡ s.mem)) _
            (Same s.db)
            (query_or none (λ (d : ContactDb). Option.map some (lookup key_discrete (jid, user) d)))
            _ f s
            (query_or-Post (Same s.db) f s _ none
              (λ (d : ContactDb). Option.map some (lookup key_discrete (jid, user) d))
              (refl, agrees) (value_or-map (row_of user s.db), refl, refl))
            (λ row c (is, same, kept). (
              ap info_of is,
              same,
              subst (λ m. Agrees s.db (upsert string_discrete user (info_of row) m)) (sym kept)
                  (written-Agrees user (info_of row) s.db s.db s.mem agrees (ap info_of is)
                    (λ other n. refl)),
            ))

  pub get_contact-InStep :
      (user : String) (f : Faults) (s : Conn ContactDb ContactCache)
      → InStep s
      → Post (Read user s.db) InStep (get_contact jid user f s)
  get_contact-InStep user f s agrees =
      Post-mono (Read user s.db) (Read user s.db) (Same s.db) InStep (get_contact jid user f s)
        (λ i c r. r) (λ c (same, agrees'). subst (λ d. Agrees d c.mem) (sym same) agrees')
        (get_contact-Read user f s agrees)

  -- What a name that is written may do to the cached copy.
  abbrev pub Follows : (Columns → Columns) → (ContactInfo → ContactInfo) → Type 0
  Follows g h = (o : Option Columns) → h (info_of o) ≡ info_of (some (g (value_or no_columns o)))

  pub write_contact-InStep :
      (user : String) (g : Columns → Columns) (h : ContactInfo → ContactInfo) (info : ContactInfo)
      (f : Faults) (s : Conn ContactDb ContactCache) (t : ContactDb)
      → Follows g h
      → Read user t info s
      → Post
          (λ u c. (c.db ≡ set_columns (jid, user) g t) × InStep c)
          InStep
          (write_contact jid user g (h info) f s)
  unfolding write_contact
  write_contact-InStep user g h info f s t follows (is, same, agrees) =
      let set : ContactDb → ContactDb = set_columns (jid, user) g in
      bind-Post (λ u c. (c.db ≡ set t) × (c.mem ≡ s.mem)) (λ u c. (c.db ≡ set t) × InStep c) InStep
        (exec (λ d. ok (set d))) (λ u. modify (upsert string_discrete user (h info))) f s
        (exec-Post (λ u c. (c.db ≡ set t) × (c.mem ≡ s.mem)) InStep (λ d. ok (set d)) f s
          (subst (λ d. Agrees d s.mem) (sym same) agrees)
          (λ d e. (sym (ok-injective e) ∙ ap set same, refl)))
        (λ u c (db, kept). (
          db,
          subst (λ d. Agrees d (upsert string_discrete user (h info) c.mem)) (sym db)
              (written-Agrees user (h info) t (set t) c.mem (subst (Agrees t) (sym kept) agrees)
                (ap h is
                  ∙ follows (row_of user t)
                  ∙ ap info_of (sym (row_of-set_columns user user g t ∙ if_same _ _ user)))
                (λ other n.
                  row_of-set_columns user other g t ∙ if_neg (string_discrete user other) n _ _)),
        ))
