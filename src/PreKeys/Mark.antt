-- ===== src/PreKeys/Mark.antt =====
-- `MarkPreKeysAsUploaded` of store/sqlstore/store.go, and what `GetOrGenPreKeys` returns after it.
use zev_bot.Prelude.{
  ℕ, ◌≤◌, ◌<◌, String, ◌≡◌, refl, Option, none, some, [], ◌∷◌, Bool, true, false, All, length, leb,
  ◌&&◌, str_eq, if◌then◌else◌, arith, ite, inl, inr, ◌⊎◌, subst, sym, ◌∙◌, ap,
}
use mathlib.Core.Option
use zev_bot.Table.{Distinct, lookup}
use zev_bot.Sql.{ok, Conn, Faults, ◌>>◌}
use zev_bot.Sql.Post.{Post, Post-mono, bind-Post, exec-Post}
use zev_bot.Signal.{Bytes}
use zev_bot.PreKeys.Store.{
  PreKeyId, pre_key_id_discrete, Row, PreKeyDb, PreKey, max_id, mark_rows,
  mark_pre_keys_as_uploaded, get_or_gen_pre_keys,
}
use zev_bot.PreKeys.Rows.{All-mono, Held, lookup-max_id}
use zev_bot.PreKeys.Insert.{Valid, Grown}
use zev_bot.PreKeys.Generate.{Batch, get_or_gen_pre_keys-Batch}

module _ (jid : String) (up_to : ℕ) where
  abbrev marked : PreKeyId → Row → Row
  marked k r = if str_eq k.0 jid && leb k.1 up_to then record r { uploaded = true } else r

  lookup-mark_rows :
      (k : PreKeyId) (t : PreKeyDb)
      → lookup pre_key_id_discrete k (mark_rows jid up_to t)
        ≡ Option.map (marked k) (lookup pre_key_id_discrete k t)
  unfolding lookup mark_rows
  lookup-mark_rows k [] = refl
  lookup-mark_rows k ((i, q) ∷ t) = at (pre_key_id_discrete k i) (lookup-mark_rows k t)
    where
      at :
          (d : Dec (k ≡ i))
          → lookup pre_key_id_discrete k (mark_rows jid up_to t)
            ≡ Option.map (marked k) (lookup pre_key_id_discrete k t)
          → ite d (some (marked i q)) (lookup pre_key_id_discrete k (mark_rows jid up_to t))
            ≡ Option.map (marked k) (ite d (some q) (lookup pre_key_id_discrete k t))
      at (yes e) h = ap (λ i. some (marked i q)) (sym e)
      at (no n) h = h

  mark_rows-Distinct :
      (t : PreKeyDb)
      → Distinct pre_key_id_discrete t
      → Distinct pre_key_id_discrete (mark_rows jid up_to t)
  unfolding mark_rows
  mark_rows-Distinct [] d = tt
  mark_rows-Distinct ((i, q) ∷ t) d =
      (lookup-mark_rows i t ∙ ap (Option.map (marked i)) d.0, mark_rows-Distinct t d.1)

  mark_rows-Valid : (t : PreKeyDb) → Valid t → Valid (mark_rows jid up_to t)
  mark_rows-Valid t v = record {
    distinct = mark_rows-Distinct t v.distinct;
    bounded =
        λ k r e. at k (lookup pre_key_id_discrete k t) refl r (sym (lookup-mark_rows k t) ∙ e);
  }
    where
      at :
          (k : PreKeyId) (o : Option Row)
          → lookup pre_key_id_discrete k t ≡ o
          → (r : Row) → Option.map (marked k) o ≡ some r
          → (k.1 < 16777216) × (length r.key ≡ 32)
      at k none h r e = ground (arith, e)
      at k (some q) h r e =
          ground (
            arith,
            e,
            v.bounded k q h,
            ap {B = Option ℕ} (Option.map (λ (o : Row). length o.key)) e,
          )

  -- No key up to `up_to` is left to upload.
  mark_rows-Held :
      (t : PreKeyDb) (k : PreKey) → Held jid (mark_rows jid up_to t) k → up_to < k.key_id
  mark_rows-Held t k h =
      at (lookup pre_key_id_discrete (jid, k.key_id) t)
        (sym (lookup-mark_rows (jid, k.key_id) t) ∙ h)
    where
      at :
          (o : Option Row)
          → Option.map (marked (jid, k.key_id)) o ≡ some (record { key = k.priv; uploaded = false })
          → up_to < k.key_id
      at none e = ground (arith, e)
      at (some q) e =
          ground (arith, e, ap {B = Option Bool} (Option.map (λ (o : Row). o.uploaded)) e)

  module _ {C : Type 0} (random : ℕ → Bytes) (drawn : (n : ℕ) → length (random n) ≡ 32) where
    -- Once the keys up to an id that the device has are marked as uploaded, GetOrGenPreKeys returns none
    -- of them again: all the keys that it returns have greater ids.
    pub mark-get_or_gen_pre_keys :
        (count : ℕ) (f : Faults) (s : Conn PreKeyDb C) (r : Row)
        → Valid s.db
        → lookup pre_key_id_discrete (jid, up_to) s.db ≡ some r
        → Post
            (λ ks c. All (λ (k : PreKey). up_to < k.key_id) ks × (length ks ≡ count))
            (λ c. Valid c.db)
            ((mark_pre_keys_as_uploaded jid up_to >> get_or_gen_pre_keys random jid count) f s)
    unfolding mark_pre_keys_as_uploaded
    mark-get_or_gen_pre_keys count f s r v e =
        bind-Post (λ u c. c.db ≡ mark_rows jid up_to s.db) _ (λ c. Valid c.db)
          (mark_pre_keys_as_uploaded jid up_to) (λ u. get_or_gen_pre_keys random jid count) f s
          (exec-Post _ (λ c. Valid c.db) (λ d. ok (mark_rows jid up_to d)) f s v
            (λ d h. ground (arith, h)))
          (λ u c same.
            let valid : Valid c.db = subst Valid (sym same) (mark_rows-Valid s.db v) in
            let found =
              ap (lookup pre_key_id_discrete (jid, up_to)) same
              ∙ lookup-mark_rows (jid, up_to) s.db
              ∙ ap (Option.map (marked (jid, up_to))) e in
            let low : up_to ≤ max_id jid c.db = lookup-max_id jid c.db up_to _ found in
            let above : (k : PreKey)
                → Held jid c.db k ⊎ (max_id jid c.db < k.key_id)
                → up_to < k.key_id =
              λ k h. elim h [
                | inl held ↦
                    mark_rows-Held s.db k
                      (ap (lookup pre_key_id_discrete (jid, k.key_id)) (sym same) ∙ held)
                | inr m ↦ omega (arith, low, m)
              ] in
            Post-mono (Batch random drawn jid count c.db) _ (λ d. Grown c.db d.db) (λ d. Valid d.db)
              (get_or_gen_pre_keys random jid count f c)
              (λ ks d (grown, held, ascending, long, fresh). (All-mono above ks fresh, long))
              (λ d grown. grown.1) (get_or_gen_pre_keys-Batch random drawn jid count f c valid))
