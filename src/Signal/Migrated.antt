-- ===== src/Signal/Migrated.antt =====
-- What `MigratePNToLID` (store/sqlstore/store.go) leaves behind.
use zev_bot.Prelude.{
  ◌≡◌, refl, String, List, ◌∷◌, Bool, true, false, if◌then◌else◌, ◌∙◌, sym, subst, arith, ap,
}
use zev_bot.Table.{Distinct}
use zev_bot.Table.Move.{relocated, Moves, Relocated, relocated-Relocated}
use zev_bot.Sql.{
  Result, ok, err, pure, modify, exec, wrapping, ◌>>◌, Txn, Conn, Faults, ok-injective,
}
use zev_bot.Sql.Post.{Post, bind-Post, exec-Post, wrapping-Post, txn-Post, Post-mono}
use zev_bot.Signal.Tables.{SignalDb, key_discrete, sender_key_id_discrete}
use zev_bot.Signal.Migrate.{
  of_user, of_sender, renamed, sender_renamed, migrate_sessions, migrate_identity_keys,
  migrate_sender_keys, migrate_rows, migrate_pn_to_lid, Migration,
}
use zev_bot.Signal.Store.{
  contains, delete_all_sessions, delete_all_identities, delete_all_sender_keys,
}

contains-head : (a : String) (l : List String) → contains (a ∷ l) a ≡ true
unfolding contains
contains-head a l = ground arith

module _ (jid : String) (like : String → String → Bool)
    (replace : String → String → String → String) where
  -- The three tables with the rows of `pn` moved.
  abbrev pub migrated : String → String → SignalDb → SignalDb
  migrated pn lid d = record {
    sessions =
        relocated key_discrete (of_user jid like replace pn) (renamed jid like replace pn lid)
          d.sessions;
    identity_keys =
        relocated key_discrete (of_user jid like replace pn) (renamed jid like replace pn lid)
          d.identity_keys;
    sender_keys =
        relocated sender_key_id_discrete (of_sender jid like replace pn)
          (sender_renamed jid like replace pn lid) d.sender_keys;
  }

  Migrated : SignalDb → List String → Unit {0} → Conn SignalDb (List String) → Type 0
  Migrated d mem u c = (c.db ≡ d) × (c.mem ≡ mem)

  step-Post :
      (d : SignalDb) (mem : List String) (what : String) (g : SignalDb → SignalDb) (f : Faults)
      (s : Conn SignalDb (List String))
      → s.db ≡ d
      → s.mem ≡ mem
      → Post (Migrated (g d) mem) (λ c. c.mem ≡ mem) (wrapping what (exec (λ d. ok (g d))) f s)
  unfolding Migrated
  step-Post d mem what g f s e m =
      wrapping-Post (Migrated (g d) mem) (λ c. c.mem ≡ mem) what (exec (λ d. ok (g d))) f s
        (exec-Post (Migrated (g d) mem) (λ c. c.mem ≡ mem) (λ d. ok (g d)) f s m
          (λ d' e'. (sym (ok-injective e') ∙ ap g e, m)))

  then-Post :
      (R : Unit {0} → Conn SignalDb (List String) → Type 0) (d : SignalDb) (mem : List String)
      (what : String) (g : SignalDb → SignalDb) (n : Migration (Unit {0})) (f : Faults)
      (s : Conn SignalDb (List String))
      → s.db ≡ d
      → s.mem ≡ mem
      → ((c : Conn SignalDb (List String))
          → c.db ≡ g d
          → c.mem ≡ mem
          → Post R (λ c. c.mem ≡ mem) (n f c))
      → Post R (λ c. c.mem ≡ mem) ((wrapping what (exec (λ d. ok (g d))) >> n) f s)
  unfolding Migrated
  then-Post R d mem what g n f s e m next =
      bind-Post (Migrated (g d) mem) R (λ c. c.mem ≡ mem) (wrapping what (exec (λ d. ok (g d))))
        (λ _. n) f s (step-Post d mem what g f s e m) (λ u c (e', m'). next c e' m')

  migrate_rows-Post :
      (pn lid : String) (f : Faults) (s : Conn SignalDb (List String))
      → Post
          (Migrated (migrated pn lid s.db) s.mem)
          (λ c. c.mem ≡ s.mem)
          (migrate_rows jid like replace pn lid f s)
  unfolding migrate_rows migrate_sessions migrate_identity_keys migrate_sender_keys
      delete_all_sessions delete_all_identities delete_all_sender_keys
  migrate_rows-Post pn lid f s = then-Post _ _ s.mem _ _ _ f s refl refl λ c₁ e₁ m₁.
      then-Post _ _ s.mem _ _ _ f c₁ e₁ m₁ λ c₂ e₂ m₂.
        then-Post _ _ s.mem _ _ _ f c₂ e₂ m₂ λ c₃ e₃ m₃.
          then-Post _ _ s.mem _ _ _ f c₃ e₃ m₃ λ c₄ e₄ m₄.
            then-Post _ _ s.mem _ _ _ f c₄ e₄ m₄ λ c₅ e₅ m₅. step-Post _ s.mem _ _ f c₅ e₅ m₅

  -- What a call leaves: the rows of `pn` moved in all three tables, or nothing changed where it fails
  -- or where `pn` is done; `pn` counts as done in each case.
  pub migrate_pn_to_lid-Post :
      (txn : Txn SignalDb (List String)) (pn lid : String) (f : Faults)
      (s : Conn SignalDb (List String))
      → Post
          (λ u c.
            (c.db ≡ (if contains s.mem pn then s.db else migrated pn lid s.db))
            × (contains c.mem pn ≡ true))
          (λ c. (c.db ≡ s.db) × (contains c.mem pn ≡ true))
          (migrate_pn_to_lid jid like replace txn pn lid f s)
  unfolding migrate_pn_to_lid Migrated contains
  migrate_pn_to_lid-Post txn pn lid f s = at (contains s.mem pn) refl
    where
      s' : Conn SignalDb (List String)
      s' = record s { mem = pn ∷ s.mem }

      added : (c : Conn SignalDb (List String)) → c.mem ≡ s'.mem → contains c.mem pn ≡ true
      added c m = ap (λ l. contains l pn) m ∙ contains-head pn s.mem

      at :
          (b : Bool)
          → contains s.mem pn ≡ b
          → Post
              (λ u c.
                (c.db ≡ (if b then s.db else migrated pn lid s.db)) × (contains c.mem pn ≡ true))
              (λ c. (c.db ≡ s.db) × (contains c.mem pn ≡ true))
              ((if b
                  then pure tt
                  else (do modify (λ c. pn ∷ c); txn.run (migrate_rows jid like replace pn lid)))
                f s)
      at true e = (refl, e)
      at false e =
          Post-mono (λ u c. (c.db ≡ migrated pn lid s.db) × (c.mem ≡ s'.mem)) _
            (λ c. (c.db ≡ s.db) × (c.mem ≡ s'.mem)) _
            (txn.run (migrate_rows jid like replace pn lid) f s') (λ u c (d, m). (d, added c m))
            (λ c (d, m). (d, added c m))
            (txn-Post txn (migrate_rows jid like replace pn lid) f s'
              (λ d. d ≡ migrated pn lid s.db)
              (λ n. migrate_rows-Post pn lid f (record s' { clock = n })))

-- What the two ways to end agree on.
both-Post :
    (A : Unit {0} → Conn SignalDb (List String) → Type 0) (E : Conn SignalDb (List String) → Type 0)
    (P : Conn SignalDb (List String) → Type 0) (r : Result (Unit {0}) × Conn SignalDb (List String))
    → Post (λ u c. A u c × P c) (λ c. E c × P c) r
    → P r.1
both-Post A E P (ok u, c) h = h.1
both-Post A E P (err e, c) h = h.1

module _ (jid : String) (like : String → String → Bool)
    (replace : String → String → String → String) (txn : Txn SignalDb (List String)) where
  done-migrate_pn_to_lid :
      (pn lid : String) (f : Faults) (s : Conn SignalDb (List String))
      → contains s.mem pn ≡ true
      → migrate_pn_to_lid jid like replace txn pn lid f s ≡ (ok tt, s)
  unfolding migrate_pn_to_lid
  done-migrate_pn_to_lid pn lid f s e = ground (arith, e)

  -- After a `MigratePNToLID`, whether it succeeded or failed, another one for the same phone number
  -- returns success, executes no statement and changes nothing: a failed migration is not tried again.
  pub migrate_pn_to_lid-once :
      (pn lid lid' : String) (f g : Faults) (s : Conn SignalDb (List String))
      → migrate_pn_to_lid jid like replace txn pn lid' g
          (migrate_pn_to_lid jid like replace txn pn lid f s).1
        ≡ (ok tt, (migrate_pn_to_lid jid like replace txn pn lid f s).1)
  migrate_pn_to_lid-once pn lid lid' f g s = done-migrate_pn_to_lid pn lid' g _ (
      both-Post
        (λ u c. c.db ≡ (if contains s.mem pn then s.db else migrated jid like replace pn lid s.db))
        (λ c. c.db ≡ s.db) (λ c. contains c.mem pn ≡ true) _
        (migrate_pn_to_lid-Post jid like replace txn pn lid f s))

  abbrev pub Moved : String → String → SignalDb → SignalDb → Type 0
  Moved pn lid before after =
      Relocated key_discrete (of_user jid like replace pn) (renamed jid like replace pn lid)
        before.sessions after.sessions
      × Relocated key_discrete (of_user jid like replace pn) (renamed jid like replace pn lid)
          before.identity_keys after.identity_keys
      × Relocated sender_key_id_discrete (of_sender jid like replace pn)
          (sender_renamed jid like replace pn lid) before.sender_keys after.sender_keys

  -- The rows of the phone number in each table move to different addresses that are not of it.
  pub record Movable (pn lid : String) (d : SignalDb) : Type 0 where
    pub sessions :
        Moves key_discrete
          (of_user jid like replace pn)
          (renamed jid like replace pn lid)
          d.sessions
    pub identity_keys :
        Moves key_discrete
          (of_user jid like replace pn)
          (renamed jid like replace pn lid)
          d.identity_keys
    pub sender_keys :
        Moves sender_key_id_discrete
          (of_sender jid like replace pn)
          (sender_renamed jid like replace pn lid)
          d.sender_keys

  -- A migration of a phone number that is not done yet fails with the tables as they were, or succeeds
  -- with each session, identity key and sender key of an address of the phone number under the address
  -- of the LID, none under the old one, and every row that neither is one of them nor gives way to one
  -- as it was. The addresses that are stored for the phone number are renamed to different ones, none of
  -- which is of the phone number.
  pub migrate_pn_to_lid-Moved :
      (pn lid : String) (f : Faults) (s : Conn SignalDb (List String))
      → contains s.mem pn ≡ false
      → Movable pn lid s.db
      → Distinct key_discrete s.db.sessions
      → Distinct key_discrete s.db.identity_keys
      → Distinct sender_key_id_discrete s.db.sender_keys
      → Post
          (λ u c. Moved pn lid s.db c.db)
          (λ c. c.db ≡ s.db)
          (migrate_pn_to_lid jid like replace txn pn lid f s)
  migrate_pn_to_lid-Moved pn lid f s new m sessions identities senders =
      Post-mono
        (λ u c.
          (c.db ≡ (if contains s.mem pn then s.db else migrated jid like replace pn lid s.db))
          × (contains c.mem pn ≡ true))
        _ (λ c. (c.db ≡ s.db) × (contains c.mem pn ≡ true)) _
        (migrate_pn_to_lid jid like replace txn pn lid f s)
        (λ u c (d, e).
          subst (Moved pn lid s.db)
            (ap (λ b. if b then s.db else migrated jid like replace pn lid s.db) (sym new) ∙ sym d)
            (
              relocated-Relocated key_discrete _ _ s.db.sessions m.sessions sessions,
              relocated-Relocated key_discrete _ _ s.db.identity_keys m.identity_keys identities,
              relocated-Relocated sender_key_id_discrete _ _ s.db.sender_keys m.sender_keys senders,
            ))
        (λ c (d, e). d) (migrate_pn_to_lid-Post jid like replace txn pn lid f s)
