-- ===== src/Device/Refusal.antt =====
-- What every method of every store of a deleted device answers (store/noop.go).
use zev_bot.Prelude.{◌≡◌, refl, Option, none, some, String, ℕ, Bool, List, []}
use zev_bot.Sql.{Error, ok, err, device_deleted, Conn, Faults, Prog}
use zev_bot.Jid.{Jid}
use zev_bot.Signal.{Bytes}
use zev_bot.Contacts.{ContactEntry, RedactedPhoneEntry}
use zev_bot.Chats.{Time}
use zev_bot.AppState.{SyncKey, Mutation}
use zev_bot.Tokens.{PrivacyToken}
use zev_bot.Events.{MessageSecretInsert}
use zev_bot.Device.Types.{Store, unset, sql_store, noop_store, Stores}
use zev_bot.Device.Container.{all_stores}
use zev_bot.Device.Interfaces.{
  IdentityStore, SessionStore, PreKeyStore, SenderKeyStore, AppStateSyncKeyStore, AppStateStore,
  ContactStore, ChatSettingsStore, MsgSecretStore, PrivacyTokenStore, NctSaltStore, EventBuffer,
}
use zev_bot.Device.Noop.{
  noop_identities, noop_sessions, noop_pre_keys, noop_sender_keys, noop_app_state_keys,
  noop_app_state, noop_contacts, noop_chat_settings, noop_msg_secrets, noop_privacy_tokens,
  noop_nct_salt, noop_event_buffer,
}

-- The `SQLStore` of a JID as a value of each interface.
pub record SqlStores (D C : Type 0) : Type 0 where
  pub identities : Jid → IdentityStore D C
  pub sessions : Jid → SessionStore D C
  pub pre_keys : Jid → PreKeyStore D C
  pub sender_keys : Jid → SenderKeyStore D C
  pub app_state_keys : Jid → AppStateSyncKeyStore D C
  pub app_state : Jid → AppStateStore D C
  pub contacts : Jid → ContactStore D C
  pub chat_settings : Jid → ChatSettingsStore D C
  pub msg_secrets : Jid → MsgSecretStore D C
  pub privacy_tokens : Jid → PrivacyTokenStore D C
  pub nct_salt : Jid → NctSaltStore D C
  pub event_buffer : Jid → EventBuffer D C

-- What a field of an interface holds, if anything.
abbrev pub held : {I : Type 0} → (Jid → I) → (Error → I) → Store → Option I
held sql noop unset = none
held sql noop (sql_store j) = some (sql j)
held sql noop (noop_store e) = some (noop e)

abbrev pub Holds : {I : Type 0} → (I → Type 0) → Option I → Type 0
Holds P none = ⊥
Holds P (some i) = P i

module _ {D C : Type 0} (f : Faults) (s : Conn D C) where
  -- The error of a deleted device, and nothing done.
  abbrev pub Refused : {A : Type 0} → Prog D C A → Type 0
  Refused m = m f s ≡ (err device_deleted, s)

  -- The zero value and no error, and nothing done.
  abbrev pub Blank : {A : Type 0} → A → Prog D C A → Type 0
  Blank a m = m f s ≡ (ok a, s)

  abbrev pub RefusesIdentities : IdentityStore D C → Type 0
  RefusesIdentities i =
      ((a : String) (b : Bytes) → Refused (i.put_identity a b))
      × ((a : String) → Refused (i.delete_all_identities a))
      × ((a : String) → Refused (i.delete_identity a))
      × ((a : String) (b : Bytes) → Refused (i.is_trusted_identity a b))

  abbrev pub RefusesSessions : SessionStore D C → Type 0
  RefusesSessions i =
      ((a : String) → Refused (i.get_session a))
      × ((a : String) → Refused (i.has_session a))
      × ((a : List String) → Refused (i.get_many_sessions a))
      × ((a : String) (b : Bytes) → Refused (i.put_session a b))
      × ((a : List (String × Bytes)) → Refused (i.put_many_sessions a))
      × ((a : String) → Refused (i.delete_all_sessions a))
      × ((a : String) → Refused (i.delete_session a))
      × ((a : String) (b : String) → Refused (i.migrate_pn_to_lid a b))

  abbrev pub RefusesPreKeys : PreKeyStore D C → Type 0
  RefusesPreKeys i =
      ((a : ℕ) → Refused (i.get_or_gen_pre_keys a))
      × (Refused i.gen_one_pre_key)
      × ((a : ℕ) → Refused (i.get_pre_key a))
      × ((a : ℕ) → Refused (i.remove_pre_key a))
      × ((a : ℕ) → Refused (i.mark_pre_keys_as_uploaded a))
      × (Refused i.uploaded_pre_key_count)

  abbrev pub RefusesSenderKeys : SenderKeyStore D C → Type 0
  RefusesSenderKeys i =
      ((a : String) (b : String) (c : Bytes) → Refused (i.put_sender_key a b c))
      × ((a : String) (b : String) → Refused (i.get_sender_key a b))

  abbrev pub RefusesAppStateKeys : AppStateSyncKeyStore D C → Type 0
  RefusesAppStateKeys i =
      ((a : Bytes) (b : SyncKey) → Refused (i.put_app_state_sync_key a b))
      × ((a : Bytes) → Refused (i.get_app_state_sync_key a))
      × (Refused i.get_latest_app_state_sync_key_id)
      × (Blank [] i.get_all_app_state_sync_keys)

  abbrev pub RefusesAppState : AppStateStore D C → Type 0
  RefusesAppState i =
      ((a : String) (b : ℕ) (c : Bytes) → Refused (i.put_app_state_version a b c))
      × ((a : String) → Refused (i.get_app_state_version a))
      × ((a : String) → Refused (i.delete_app_state_version a))
      × ((a : String) (b : ℕ) (c : List Mutation) → Refused (i.put_app_state_mutation_macs a b c))
      × ((a : String) (b : List Bytes) → Refused (i.delete_app_state_mutation_macs a b))
      × ((a : String) (b : Bytes) → Refused (i.get_app_state_mutation_mac a b))

  abbrev pub RefusesContacts : ContactStore D C → Type 0
  RefusesContacts i =
      ((a : String) (b : String) → Refused (i.put_push_name a b))
      × ((a : String) (b : String) → Refused (i.put_business_name a b))
      × ((a : String) (b : String) (c : String) → Refused (i.put_contact_name a b c))
      × ((a : List ContactEntry) → Refused (i.put_all_contact_names a))
      × ((a : List RedactedPhoneEntry) → Refused (i.put_many_redacted_phones a))
      × ((a : String) → Refused (i.get_contact a))
      × (Refused i.get_all_contacts)

  abbrev pub RefusesChatSettings : ChatSettingsStore D C → Type 0
  RefusesChatSettings i =
      ((a : String) (b : Time) → Refused (i.put_muted_until a b))
      × ((a : String) (b : Bool) → Refused (i.put_pinned a b))
      × ((a : String) (b : Bool) → Refused (i.put_archived a b))
      × ((a : String) → Refused (i.get_chat_settings a))

  abbrev pub RefusesMsgSecrets : MsgSecretStore D C → Type 0
  RefusesMsgSecrets i =
      ((a : List MessageSecretInsert) → Refused (i.put_message_secrets a))
      × ((a : Jid) (b : Jid) (c : String) (d : Bytes) → Refused (i.put_message_secret a b c d))
      × ((a : Jid) (b : Jid) (c : String) → Refused (i.get_message_secret a b c))

  abbrev pub RefusesPrivacyTokens : PrivacyTokenStore D C → Type 0
  RefusesPrivacyTokens i =
      ((a : List PrivacyToken) → Refused (i.put_privacy_tokens a))
      × ((a : Jid) → Refused (i.get_privacy_token a))
      × ((a : Time) → Refused (i.delete_expired_privacy_tokens a))

  abbrev pub RefusesNctSalt : NctSaltStore D C → Type 0
  RefusesNctSalt i =
      ((a : Bytes) → Refused (i.put_nct_salt a))
      × (Refused i.get_nct_salt)
      × (Refused i.delete_nct_salt)

  abbrev pub RefusesEventBuffer : EventBuffer D C → Type 0
  RefusesEventBuffer i =
      ((a : Bytes) → Blank none (i.get_buffered_event a))
      × ((a : Bytes) (b : Bytes) (c : Time) → Blank tt (i.put_buffered_event a b c))
      × ((fn : Prog D C (Unit {0})) → i.do_decryption_txn fn f s ≡ fn f s)
      × ((a : Bytes) → Blank tt (i.clear_buffered_event_plaintext a))
      × (Blank tt i.delete_old_buffered_hashes)
      × ((a : Jid) (b : Jid) (c : String) → Blank ("", []) (i.get_outgoing_event a b c))
      × ((a : Jid) (b : String) (c : String) (d : Bytes) → Blank tt (i.add_outgoing_event a b c d))
      × (Blank tt i.delete_old_outgoing_events)

  -- What each of the twelve stores holds refuses, or answers blank.
  abbrev pub AllRefuse : SqlStores D C → Stores → Type 0
  AllRefuse sql st =
      Holds RefusesIdentities (held sql.identities noop_identities st.identities)
      × Holds RefusesSessions (held sql.sessions noop_sessions st.sessions)
      × Holds RefusesPreKeys (held sql.pre_keys noop_pre_keys st.pre_keys)
      × Holds RefusesSenderKeys (held sql.sender_keys noop_sender_keys st.sender_keys)
      × Holds RefusesAppStateKeys (held sql.app_state_keys noop_app_state_keys st.app_state_keys)
      × Holds RefusesAppState (held sql.app_state noop_app_state st.app_state)
      × Holds RefusesContacts (held sql.contacts noop_contacts st.contacts)
      × Holds RefusesChatSettings (held sql.chat_settings noop_chat_settings st.chat_settings)
      × Holds RefusesMsgSecrets (held sql.msg_secrets noop_msg_secrets st.msg_secrets)
      × Holds RefusesPrivacyTokens (held sql.privacy_tokens noop_privacy_tokens st.privacy_tokens)
      × Holds RefusesNctSalt (held sql.nct_salt noop_nct_salt st.nct_salt)
      × Holds RefusesEventBuffer (held sql.event_buffer noop_event_buffer st.event_buffer)

  pub noop-AllRefuse :
      (sql : SqlStores D C) → AllRefuse sql (all_stores (noop_store device_deleted))
  noop-AllRefuse sql = (
    (λ _ _. refl, λ _. refl, λ _. refl, λ _ _. refl),
    (λ _. refl, λ _. refl, λ _. refl, λ _ _. refl, λ _. refl, λ _. refl, λ _. refl, λ _ _. refl),
    (λ _. refl, refl, λ _. refl, λ _. refl, λ _. refl, refl),
    (λ _ _ _. refl, λ _ _. refl),
    (λ _ _. refl, λ _. refl, refl, refl),
    (λ _ _ _. refl, λ _. refl, λ _. refl, λ _ _ _. refl, λ _ _. refl, λ _ _. refl),
    (λ _ _. refl, λ _ _. refl, λ _ _ _. refl, λ _. refl, λ _. refl, λ _. refl, refl),
    (λ _ _. refl, λ _ _. refl, λ _ _. refl, λ _. refl),
    (λ _. refl, λ _ _ _ _. refl, λ _ _ _. refl),
    (λ _. refl, λ _. refl, λ _. refl),
    (λ _. refl, refl, refl),
    (λ _. refl, λ _ _ _. refl, λ _. refl, λ _. refl, refl, λ _ _ _. refl, λ _ _ _ _. refl, refl),
  )
