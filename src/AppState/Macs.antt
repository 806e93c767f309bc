-- ===== src/AppState/Macs.antt =====
-- PutAppStateMutationMACs and GetAppStateMutationMAC (store/sqlstore/store.go).
use zev_bot.Prelude.{
  ℕ, String, ◌≡◌, refl, ap, ◌∙◌, subst, none, some, List, [], ◌∷◌, ◌++◌, All, arith, length,
  value_or,
}
use mathlib.Core.Option
use zev_bot.Sql.{ok, Faults, Conn, Txn, exec, query_or-quiet}
use zev_bot.Sql.Post.{Post, Post-mono, bind-Post, exec-Post, txn-Post}
use zev_bot.Contacts.{chunks}
use zev_bot.Contacts.Batches.{concat, concat-chunks}
use zev_bot.AppState.Store.{
  Mutation, AppStateDb, newest, insert_macs, mutation_batch_size, put_mac_batches,
  put_app_state_mutation_macs, get_app_state_mutation_mac,
}
use zev_bot.AppState.Rows.{Below, Extended, insert_macs-Extended, Extended-append}

module _ {C : Type 0} (jid name : String) (version : ℕ) where
  put_mac_batches-Post :
      (bs : List (List Mutation)) (f : Faults) (s : Conn AppStateDb C)
      → Below jid name version s.db.macs
      → Post
          (λ u c. Extended jid name version (concat bs) s.db c.db × (c.mem ≡ s.mem))
          (λ c. c.mem ≡ s.mem)
          (put_mac_batches jid name version bs f s)
  unfolding put_mac_batches concat
  put_mac_batches-Post [] f s h = ((h, (λ i v e. e), tt), refl)
  put_mac_batches-Post (b ∷ bs) f s h =
      bind-Post (λ u c. Extended jid name version b s.db c.db × (c.mem ≡ s.mem))
        (λ u c. Extended jid name version (b ++ concat bs) s.db c.db × (c.mem ≡ s.mem))
        (λ c. c.mem ≡ s.mem) (exec (insert_macs jid name version b))
        (λ _. put_mac_batches jid name version bs) f s
        (exec-Post (λ u c. Extended jid name version b s.db c.db × (c.mem ≡ s.mem))
          (λ c. c.mem ≡ s.mem) (insert_macs jid name version b) f s refl
          (λ d e. (insert_macs-Extended jid name version b s.db d h e, refl)))
        (λ u c (x, m).
          Post-mono (λ u c'. Extended jid name version (concat bs) c.db c'.db × (c'.mem ≡ c.mem)) _
            (λ c'. c'.mem ≡ c.mem) _ (put_mac_batches jid name version bs f c)
            (λ u c' (x', m').
              (Extended-append jid name version b (concat bs) s.db c.db c'.db x x', m' ∙ m))
            (λ c' m'. m' ∙ m) (put_mac_batches-Post bs f c x.0))

  -- What a later query of an index returns.
  abbrev pub Served : Conn AppStateDb C → Mutation → Type 0
  Served c m =
      (g : Faults)
      → g c.clock ≡ none
      → (get_app_state_mutation_mac jid name m.index_mac g c).0 ≡ ok (some m.value_mac)

  newest-Served :
      (c : Conn AppStateDb C) (m : Mutation)
      → newest jid name m.index_mac c.db.macs ≡ some (version, m.value_mac)
      → Served c m
  unfolding get_app_state_mutation_mac
  newest-Served c m e g quiet =
      ap (λ r. r.0) (query_or-quiet none _ g c quiet)
      ∙ ap (λ o. ok (value_or none (Option.map (λ best. some best.1) o))) e

  All-Served :
      (c : Conn AppStateDb C) (ms : List Mutation)
      → All (λ m. newest jid name m.index_mac c.db.macs ≡ some (version, m.value_mac)) ms
      → All (Served c) ms
  All-Served c [] h = tt
  All-Served c (m ∷ ms) (e, h) = (newest-Served c m e, All-Served c ms h)

  -- MACs that are put under a version that no stored one of the name exceeds, however many statements
  -- they take, are all what a query of their index returns, until the tables change, or the call fails
  -- and the tables are as they were.
  pub put_app_state_mutation_macs-Served :
      (txn : Txn AppStateDb C) (ms : List Mutation) (f : Faults) (s : Conn AppStateDb C)
      → Below jid name version s.db.macs
      → Post
          (λ u c. All (Served c) ms)
          (λ c. c.db ≡ s.db)
          (put_app_state_mutation_macs jid txn name version ms f s)
  unfolding put_app_state_mutation_macs
  put_app_state_mutation_macs-Served txn [] f s h = tt
  put_app_state_mutation_macs-Served txn (m ∷ ms) f s h =
      Post-mono (λ u c. Extended jid name version (m ∷ ms) s.db c.db × (c.mem ≡ s.mem)) _
        (λ c. (c.db ≡ s.db) × (c.mem ≡ s.mem)) _
        (txn.run (put_mac_batches jid name version batches) f s)
        (λ u c (x, _). All-Served c (m ∷ ms) x.2) (λ c (d, _). d)
        (txn-Post txn (put_mac_batches jid name version batches) f s
          (Extended jid name version (m ∷ ms) s.db)
          λ n.
            subst
              (λ all.
                Post (λ u c. Extended jid name version all s.db c.db × (c.mem ≡ s.mem))
                  (λ c. c.mem ≡ s.mem)
                  (put_mac_batches jid name version batches f (record s { clock = n })))
              (concat-chunks (length (m ∷ ms)) mutation_batch_size (m ∷ ms) (omega arith)
                (omega arith))
              (put_mac_batches-Post batches f (record s { clock = n }) h))
    where
      batches : List (List Mutation)
      batches = chunks (length (m ∷ ms)) mutation_batch_size (m ∷ ms)
