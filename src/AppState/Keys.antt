-- ===== src/AppState/Keys.antt =====
-- PutAppStateSyncKey (store/sqlstore/store.go) in either order of two keys.
use zev_bot.Prelude.{
  ℕ, ◌≡◌, ◌≢◌, refl, sym, ap, ap₂, ◌∙◌, Option, none, some, true, false, not, arith, if_pos, ite,
  String,
}
use zev_bot.Table.{lookup, lookup-upsert}
use zev_bot.Sql.{Conn, Faults, exec-quiet}
use zev_bot.Signal.{Bytes}
use zev_bot.Chats.{ℤ, pos, negsuc}
use zev_bot.AppState.Store.{
  SyncKey, SyncKeyId, AppStateDb, sync_key_id_discrete, less, newer, put_app_state_sync_key,
}

less_swap : (a b : ℤ) → a ≢ b → less b a ≡ not (less a b)
unfolding less
less_swap (pos a) (pos b) n = ground (arith, n, ap pos {x = a} {y = b})
less_swap (pos a) (negsuc b) n = refl
less_swap (negsuc a) (pos b) n = refl
less_swap (negsuc a) (negsuc b) n = ground (arith, n, ap negsuc {x = a} {y = b})

less_trans : (a b c : ℤ) → less a b ≡ true → less b c ≡ true → less a c ≡ true
unfolding less
less_trans (pos a) (pos b) (pos c) p q = ground (arith, p, q)
less_trans (pos a) (pos b) (negsuc c) p q = ground (arith, p, q)
less_trans (pos a) (negsuc b) c p q = ground (arith, p)
less_trans (negsuc a) b (pos c) p q = refl
less_trans (negsuc a) (pos b) (negsuc c) p q = ground (arith, q)
less_trans (negsuc a) (negsuc b) (negsuc c) p q = ground (arith, p, q)

-- What is not less is reached by no chain of what is not less.
less_split : (a b c : ℤ) → less a c ≡ true → less a b ≡ false → less b c ≡ true
unfolding less
less_split (pos a) (pos b) (pos c) p q = ground (arith, p, q)
less_split (pos a) b (negsuc c) p q = ground (arith, p)
less_split (pos a) (negsuc b) (pos c) p q = refl
less_split (negsuc a) (pos b) c p q = ground (arith, q)
less_split (negsuc a) (negsuc b) (pos c) p q = refl
less_split (negsuc a) (negsuc b) (negsuc c) p q = ground (arith, p, q)

newer-newer :
    (o : Option SyncKey) (a b : SyncKey)
    → a.timestamp ≢ b.timestamp
    → newer (some (newer o a)) b ≡ newer (some (newer o b)) a
unfolding newer
newer-newer none a b n = ground (arith, less_swap a.timestamp b.timestamp n)
newer-newer (some c) a b n = ground (
  arith,
  less_swap a.timestamp b.timestamp n,
  less_trans c.timestamp a.timestamp b.timestamp,
  less_trans c.timestamp b.timestamp a.timestamp,
  less_split c.timestamp a.timestamp b.timestamp,
  less_split c.timestamp b.timestamp a.timestamp,
)

ite-ite : {P : Type 0} {A : Type 0} (d : Dec P) (a b c : A) → ite d a (ite d b c) ≡ ite d a c
ite-ite (yes p) a b c = refl
ite-ite (no n) a b c = refl

module _ {C : Type 0} (jid : String) (id : Bytes) where
  -- The row after a put.
  put-row :
      (a : SyncKey) (f : Faults) (s : Conn AppStateDb C) (k : SyncKeyId)
      → f s.clock ≡ none
      → lookup sync_key_id_discrete k (put_app_state_sync_key jid id a f s).1.db.sync_keys
        ≡ ite
            (sync_key_id_discrete (jid, id) k)
            (some (newer (lookup sync_key_id_discrete (jid, id) s.db.sync_keys) a))
            (lookup sync_key_id_discrete k s.db.sync_keys)
  unfolding put_app_state_sync_key
  put-row a f s k quiet =
      ap (λ r. lookup sync_key_id_discrete k r.1.db.sync_keys) (exec-quiet _ f s _ quiet refl)
      ∙ lookup-upsert sync_key_id_discrete k (jid, id) _ s.db.sync_keys

  -- The row after two puts.
  put-put-row :
      (a b : SyncKey) (f : Faults) (s : Conn AppStateDb C) (k : SyncKeyId)
      → ((n : ℕ) → f n ≡ none)
      → lookup sync_key_id_discrete k
          (put_app_state_sync_key jid id b f (put_app_state_sync_key jid id a f s).1).1.db.sync_keys
        ≡ ite
            (sync_key_id_discrete (jid, id) k)
            (some (newer (some (newer (lookup sync_key_id_discrete (jid, id) s.db.sync_keys) a)) b))
            (lookup sync_key_id_discrete k s.db.sync_keys)
  put-put-row a b f s k quiet =
      put-row b f (put_app_state_sync_key jid id a f s).1 k (quiet _)
      ∙ ap₂ (λ x y. ite (sync_key_id_discrete (jid, id) k) (some (newer x b)) y)
          (put-row a f s (jid, id) (quiet _)
            ∙ if_pos (sync_key_id_discrete (jid, id) (jid, id)) refl _ _)
          (put-row a f s k (quiet _))
      ∙ ite-ite (sync_key_id_discrete (jid, id) k) _ _ _

  -- Two sync keys under one ID that have different timestamps leave the same rows in either order of
  -- arrival, where no statement fails.
  pub put_app_state_sync_key-commutes :
      (a b : SyncKey) (f : Faults) (s : Conn AppStateDb C) (k : SyncKeyId)
      → a.timestamp ≢ b.timestamp
      → ((n : ℕ) → f n ≡ none)
      → lookup sync_key_id_discrete k
          (put_app_state_sync_key jid id b f (put_app_state_sync_key jid id a f s).1).1.db.sync_keys
        ≡ lookup sync_key_id_discrete k
            (put_app_state_sync_key jid id a f
              (put_app_state_sync_key jid id b f s).1).1.db.sync_keys
  put_app_state_sync_key-commutes a b f s k n quiet =
      put-put-row a b f s k quiet
      ∙ ap
          (λ v.
            ite (sync_key_id_discrete (jid, id) k) (some v)
              (lookup sync_key_id_discrete k s.db.sync_keys))
          (newer-newer (lookup sync_key_id_discrete (jid, id) s.db.sync_keys) a b n)
      ∙ sym (put-put-row b a f s k quiet)
