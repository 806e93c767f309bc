-- ===== src/Contacts/Everyone.antt =====
-- `GetAllContacts` of store/sqlstore/store.go, and the contact cache after it.
use zev_bot.Prelude.{
  ℕ, zero, suc, String, ◌≡◌, refl, ap, sym, Option, none, some, List, [], ◌∷◌, All, take, arith,
  string_discrete, subst,
}
use zev_bot.Table.{lookup, upsert}
use zev_bot.Sql.{Error, Conn, Faults, query_rows}
use zev_bot.Sql.Post.{Post, bind-Post, query_rows-Post}
use zev_bot.Signal.{key_discrete}
use zev_bot.Contacts.Store.{
  ContactDb, ContactCache, ContactInfo, info_of, rows_at, device_rows, collect, all_contacts,
  get_all_contacts,
}
use zev_bot.Contacts.InStep.{Agrees, InStep, row_of, written-Agrees}

module _ (jid : String) where
  -- A row that a query gives shows what the table has for its JID.
  abbrev Shown : ContactDb → String × ContactInfo → Type 0
  Shown t (user, info) = info ≡ info_of (row_of jid user t)

  rows_at-Shown : (table t : ContactDb) → All (Shown table) (rows_at jid table t)
  unfolding rows_at
  rows_at-Shown table [] = tt
  rows_at-Shown table ((k, c) ∷ t) =
      let here = λ (e : k.0 ≡ jid). ap (λ j. info_of (lookup key_discrete (j, k.1) table)) e in
      ground (arith, here, rows_at-Shown table t)

  All-take :
      (t : ContactDb) (rows : List (String × ContactInfo)) (n : ℕ)
      → All (Shown t) rows
      → All (Shown t) (take n rows)
  All-take t rows zero a = tt
  All-take t [] (suc n) a = tt
  All-take t (r ∷ rows) (suc n) a = (a.0, All-take t rows n a.1)

  collect-Agrees :
      (t : ContactDb) (rows : List (String × ContactInfo)) (m : ContactCache)
      → All (Shown t) rows
      → Agrees jid t m
      → Agrees jid t (collect jid rows m)
  unfolding collect
  collect-Agrees t [] m a agrees = agrees
  collect-Agrees t ((user, info) ∷ rows) m a agrees =
      collect-Agrees t rows (upsert string_discrete user info m) a.1
        (written-Agrees jid user info t t m agrees a.0 (λ other n. refl))

  -- On a cache in step, GetAllContacts returns a map that shows the table too, or the error of its query;
  -- the cache shows the same table afterwards, also where the rows stop short.
  pub get_all_contacts-Agrees :
      (f : Faults) (s : Conn ContactDb ContactCache)
      → InStep jid s
      → Post
          (λ all c. Agrees jid s.db all × (c.db ≡ s.db) × Agrees jid s.db c.mem)
          (λ c. (c.db ≡ s.db) × Agrees jid s.db c.mem)
          (get_all_contacts jid f s)
  unfolding get_all_contacts lookup
  get_all_contacts-Agrees f s agrees =
      bind-Post Rows Q E (query_rows (device_rows jid)) (all_contacts jid) f s
        (query_rows-Post E f s Rows (device_rows jid) (λ n e. (refl, refl, All-take s.db _ n shown))
          (refl, refl, shown))
        (λ (rows, e) c (db, mem, a). scanned rows e c db mem a)
    where
      shown : All (Shown s.db) (device_rows jid s.db)
      shown = rows_at-Shown s.db s.db

      Rows : List (String × ContactInfo) × Option Error → Conn ContactDb ContactCache → Type 0
      Rows (rows, e) c = (c.db ≡ s.db) × (c.mem ≡ s.mem) × All (Shown s.db) rows

      Q : ContactCache → Conn ContactDb ContactCache → Type 0
      Q all c = Agrees jid s.db all × (c.db ≡ s.db) × Agrees jid s.db c.mem

      E : Conn ContactDb ContactCache → Type 0
      E c = (c.db ≡ s.db) × Agrees jid s.db c.mem

      cached :
          (rows : List (String × ContactInfo)) (c : Conn ContactDb ContactCache)
          → c.mem ≡ s.mem
          → All (Shown s.db) rows
          → Agrees jid s.db (collect jid rows c.mem)
      cached rows c mem a =
          subst (λ m. Agrees jid s.db (collect jid rows m)) (sym mem)
            (collect-Agrees s.db rows s.mem a agrees)

      scanned :
          (rows : List (String × ContactInfo)) (e : Option Error) (c : Conn ContactDb ContactCache)
          → c.db ≡ s.db
          → c.mem ≡ s.mem
          → All (Shown s.db) rows
          → Post Q E (all_contacts jid (rows, e) f c)
      scanned rows none c db mem a = (
        collect-Agrees s.db rows [] a (λ user info h. ground (arith, h)),
        db,
        cached rows c mem a,
      )
      scanned rows (some e) c db mem a = (db, cached rows c mem a)
