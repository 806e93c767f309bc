-- ===== src/Device/Protocol.antt =====
-- The methods of `Device` that libsignal calls (store/signal.go), but for those on sessions, through the
-- stores that the device holds. `text` is `JID.String`; an address is its text.
use zev_bot.Prelude.{ℕ, String, Option, none, some, Bool, ◌==◌, if◌then◌else◌}
use zev_bot.Sql.{wrap, external, Prog, pure, raise, wrapping, ◌>>=◌}
use zev_bot.Jid.{Jid}
use zev_bot.Signal.{
  Bytes, SignalDb, put_identity, is_trusted_identity, put_sender_key, get_sender_key,
}
use zev_bot.PreKeys
use zev_bot.PreKeys.{PreKeyDb, get_pre_key, remove_pre_key}
use zev_bot.Device.Types.{KeyPair, PreKey, Device}
use zev_bot.Device.Noop.{noop_identities, noop_pre_keys, noop_sender_keys}
use zev_bot.Device.Methods.{call}

abbrev pub get_identity_key_pair : Device → KeyPair
get_identity_key_pair d = d.identity_key

abbrev pub get_local_registration_id : Device → ℕ
get_local_registration_id d = d.registration_id

-- The device's one signed pre key.
abbrev pub load_signed_pre_key : Device → ℕ → Option PreKey
load_signed_pre_key d id = if id == d.signed_pre_key.key_id then some d.signed_pre_key else none

module _ {C : Type 0} (text : Jid → String) (d : Device) where
  unfoldable pub save_identity : String → Bytes → Prog SignalDb C (Unit {0})
  unfolding call
  save_identity address key = wrapping "failed to save identity" (
      call (λ j. put_identity (text j) address key)
        (λ e. (noop_identities e).put_identity address key) d.stores.identities)

  unfoldable pub device_trusts : String → Bytes → Prog SignalDb C Bool
  unfolding call
  device_trusts address key = wrapping "failed to check if identity is trusted" (
      call (λ j. is_trusted_identity (text j) address key)
        (λ e. (noop_identities e).is_trusted_identity address key) d.stores.identities)

  unfoldable pub store_sender_key : String → String → Bytes → Prog SignalDb C (Unit {0})
  unfolding call
  store_sender_key group sender raw = wrapping "failed to store sender key" (
      call (λ j. put_sender_key (text j) group sender raw)
        (λ e. (noop_sender_keys e).put_sender_key group sender raw) d.stores.sender_keys)

  unfoldable pub load_pre_key : ℕ → Prog PreKeyDb C (Option PreKeys.PreKey)
  unfolding call
  load_pre_key id = wrapping "failed to load prekey" (
      call (λ j. get_pre_key (text j) id) (λ e. (noop_pre_keys e).get_pre_key id) d.stores.pre_keys)

  unfoldable pub device_removes_pre_key : ℕ → Prog PreKeyDb C (Unit {0})
  unfolding call
  device_removes_pre_key id = wrapping "failed to remove prekey" (
      call (λ j. remove_pre_key (text j) id) (λ e. (noop_pre_keys e).remove_pre_key id)
        d.stores.pre_keys)

  -- `groupRecord.SenderKey` with its serializer is not in the repository: `read` reads a stored key,
  -- `fresh` is a new one.
  module _ {K : Type 0} (read : Bytes → Option K) (fresh : K) where
    abbrev key_of : Option K → Prog SignalDb C K
    key_of none = raise (wrap "failed to deserialize sender key" (external 0))
    key_of (some k) = pure k

    abbrev from_raw : Option Bytes → Prog SignalDb C K
    from_raw none = pure fresh
    from_raw (some raw) = key_of (read raw)

    unfoldable pub load_sender_key : String → String → Prog SignalDb C K
    unfolding call
    load_sender_key group sender =
        wrapping "failed to load sender key" (
          call (λ j. get_sender_key (text j) group sender)
            (λ e. (noop_sender_keys e).get_sender_key group sender) d.stores.sender_keys)
        >>= from_raw
