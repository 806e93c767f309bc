-- ===== src/Device/Trust.antt =====
-- Which identities a device trusts (store/signal.go, over store/sqlstore/store.go and store/noop.go).
use zev_bot.Prelude.{
  some-injective, ℕ, ◌+◌, String, ◌≡◌, refl, sym, ap, ◌∙◌, Option, none, some, Bool, true, false,
  ite, arith, length, if_pos, value_or,
}
use mathlib.Core.Option
use zev_bot.Table.{lookup, upsert, lookup-upsert}
use zev_bot.Sql.{
  tick, wrapped, bind-ok, query_or, wrap, ok, err, device_deleted, Conn, Faults, exec-quiet,
  query_or-quiet, wrapping,
}
use zev_bot.Jid.{Jid}
use zev_bot.Signal.{
  Bytes, SignalDb, key_discrete, bytes_discrete, put_identity, is_trusted_identity, check_identity,
}
use zev_bot.Device.Types.{Device, sql_store, noop_store}
use zev_bot.Device.Container.{all_stores}
use zev_bot.Device.Noop.{noop_refused}
use zev_bot.Device.Methods.{call}
use zev_bot.Device.Protocol.{save_identity, device_trusts}

value_or-map : {A : Type 0} (o : Option A) → value_or none (Option.map some o) ≡ o
value_or-map none = refl
value_or-map (some a) = refl

module _ {C : Type 0} (text : Jid → String) (f : Faults) (s : Conn SignalDb C) where
  -- What is trusted of a stored identity.
  abbrev pub trusted : Option Bytes → Bytes → Bool
  trusted none key = true
  trusted (some stored) key = ite (bytes_discrete stored key) true false

  -- The identities of a device in use are those of its JID.
  in_use-device_trusts :
      (d : Device) (id : Jid) (address : String) (key : Bytes)
      → d.stores ≡ all_stores (sql_store id)
      → device_trusts text d address key f s
        ≡ wrapping "failed to check if identity is trusted"
            (is_trusted_identity (text id) address key)
            f
            s
  unfolding device_trusts call
  in_use-device_trusts d id address key h =
      ap
        (λ st.
          wrapping "failed to check if identity is trusted"
            (call (λ j. is_trusted_identity (text j) address key) noop_refused st.identities) f s)
        h

  is_trusted_identity-quiet :
      (id : Jid) (address : String) (key : Bytes) (stored : Option Bytes)
      → f s.clock ≡ none
      → lookup key_discrete (text id, address) s.db.identity_keys ≡ stored
      → is_trusted_identity (text id) address key f s
        ≡ check_identity (text id) key stored f (tick s)
  unfolding is_trusted_identity
  is_trusted_identity-quiet id address key stored quiet e =
      bind-ok (query_or none (found id address)) (check_identity (text id) key) f s _ _
        (query_or-quiet none (found id address) f s quiet)
      ∙ ap (λ o. check_identity (text id) key o f (tick s))
          (ap (λ o. value_or none (Option.map some o)) e ∙ value_or-map stored)
    where
      found : Jid → String → SignalDb → Option (Option Bytes)
      found id address d = Option.map some (lookup key_discrete (text id, address) d.identity_keys)

  pub device_trusts-stored :
      (d : Device) (id : Jid) (address : String) (key : Bytes) (stored : Option Bytes)
      → d.stores ≡ all_stores (sql_store id)
      → f s.clock ≡ none
      → lookup key_discrete (text id, address) s.db.identity_keys ≡ stored
      → ((b : Bytes) → stored ≡ some b → length b ≡ 32)
      → (device_trusts text d address key f s).0 ≡ ok (trusted stored key)
  unfolding check_identity
  device_trusts-stored d id address key stored h quiet e l =
      ap (λ r. r.0) (in_use-device_trusts d id address key h)
      ∙ ap (λ r. wrapped "failed to check if identity is trusted" r.0)
          (is_trusted_identity-quiet id address key stored quiet e)
      ∙ checked stored l
    where
      checked :
          (o : Option Bytes)
          → ((b : Bytes) → o ≡ some b → length b ≡ 32)
          → wrapped "failed to check if identity is trusted"
              (check_identity (text id) key o f (tick s)).0
            ≡ ok (trusted o key)
      checked none l = refl
      checked (some b) l = ground (arith, l b refl)

  in_use-save_identity :
      (d : Device) (id : Jid) (address : String) (key : Bytes)
      → d.stores ≡ all_stores (sql_store id)
      → f s.clock ≡ none
      → save_identity text d address key f s ≡ (
        ok tt,
        record s {
          db = record s.db {
            identity_keys = upsert key_discrete (text id, address) key s.db.identity_keys;
          };
          clock = s.clock + 1;
        },
      )
  unfolding save_identity call put_identity
  in_use-save_identity d id address key h quiet =
      ap
        (λ st.
          wrapping "failed to save identity"
            (call (λ j. put_identity (text j) address key) noop_refused st.identities) f s)
        h
      ∙ ap (λ r. (wrapped "failed to save identity" r.0, r.1)) (exec-quiet _ f s _ quiet refl)

-- A device in use trusts the identity that was saved last for an address, and no other one, and it
-- trusts every identity of an address that has none; a deleted device answers with an error. Identities
-- have 32 bytes and no statement fails.
pub save_identity-device_trusts :
    {C : Type 0} (text : Jid → String) (d : Device) (id : Jid) (address : String)
    (key other : Bytes) (f : Faults) (s : Conn SignalDb C)
    → d.stores ≡ all_stores (sql_store id)
    → ((n : ℕ) → f n ≡ none)
    → length key ≡ 32
    → ((device_trusts text d address other f (save_identity text d address key f s).1).0
        ≡ ok (ite (bytes_discrete key other) true false))
      × (lookup key_discrete (text id, address) s.db.identity_keys ≡ none
          → (device_trusts text d address other f s).0 ≡ ok true)
      × ((gone : Device)
          → gone.stores ≡ all_stores (noop_store device_deleted)
          → device_trusts text gone address other f s
            ≡ (err (wrap "failed to check if identity is trusted" device_deleted), s))
unfolding device_trusts call
save_identity-device_trusts text d id address key other f s h quiet l = (
  ap (λ r. (device_trusts text d address other f r.1).0)
        (in_use-save_identity text f s d id address key h (quiet _))
      ∙ device_trusts-stored text f _ d id address other (some key) h (quiet _)
          (lookup-upsert key_discrete (text id, address) (text id, address) key s.db.identity_keys
            ∙ if_pos (key_discrete (text id, address) (text id, address)) refl _ _)
          (λ b e. ap length (sym (some-injective e)) ∙ l),
  (λ none_stored.
      device_trusts-stored text f s d id address other none h (quiet _) none_stored
        (λ b e. ground (arith, e))),
  (λ gone g.
      ap
        (λ st.
          wrapping "failed to check if identity is trusted"
            (call (λ j. is_trusted_identity (text j) address other) noop_refused st.identities) f s)
        g),
)
