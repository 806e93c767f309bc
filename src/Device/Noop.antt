-- ===== src/Device/Noop.antt =====
-- `NoopStore` (store/noop.go): a store that reads and writes nothing. Most of its methods return the zero
-- value and its error, `GetManyLIDsForPNs` as two values; the list of all sync keys and the event buffer
-- return the zero value and no error.
use zev_bot.Prelude.{none, some, []}
use zev_bot.Sql.{Error, Prog, pure, raise}
use zev_bot.Device.Interfaces.{
  IdentityStore, SessionStore, PreKeyStore, SenderKeyStore, AppStateSyncKeyStore, AppStateStore,
  ContactStore, ChatSettingsStore, MsgSecretStore, PrivacyTokenStore, NctSaltStore, EventBuffer,
  LidStore, DeviceContainer,
}

module _ {D C : Type 0} where
  -- `return …, n.Error`
  abbrev pub noop_refused : {A : Type 0} → Error → Prog D C A
  noop_refused error = raise error

  abbrev pub noop_identities : Error → IdentityStore D C
  noop_identities error = record {
    put_identity = λ _ _. noop_refused error;
    delete_all_identities = λ _. noop_refused error;
    delete_identity = λ _. noop_refused error;
    is_trusted_identity = λ _ _. noop_refused error;
  }

  abbrev pub noop_sessions : Error → SessionStore D C
  noop_sessions error = record {
    get_session = λ _. noop_refused error;
    has_session = λ _. noop_refused error;
    get_many_sessions = λ _. noop_refused error;
    put_session = λ _ _. noop_refused error;
    put_many_sessions = λ _. noop_refused error;
    delete_all_sessions = λ _. noop_refused error;
    delete_session = λ _. noop_refused error;
    migrate_pn_to_lid = λ _ _. noop_refused error;
  }

  abbrev pub noop_pre_keys : Error → PreKeyStore D C
  noop_pre_keys error = record {
    get_or_gen_pre_keys = λ _. noop_refused error;
    gen_one_pre_key = noop_refused error;
    get_pre_key = λ _. noop_refused error;
    remove_pre_key = λ _. noop_refused error;
    mark_pre_keys_as_uploaded = λ _. noop_refused error;
    uploaded_pre_key_count = noop_refused error;
  }

  abbrev pub noop_sender_keys : Error → SenderKeyStore D C
  noop_sender_keys error = record {
    put_sender_key = λ _ _ _. noop_refused error;
    get_sender_key = λ _ _. noop_refused error;
  }

  abbrev pub noop_app_state_keys : Error → AppStateSyncKeyStore D C
  noop_app_state_keys error = record {
    put_app_state_sync_key = λ _ _. noop_refused error;
    get_app_state_sync_key = λ _. noop_refused error;
    get_latest_app_state_sync_key_id = noop_refused error;
    get_all_app_state_sync_keys = pure [];
  }

  abbrev pub noop_app_state : Error → AppStateStore D C
  noop_app_state error = record {
    put_app_state_version = λ _ _ _. noop_refused error;
    get_app_state_version = λ _. noop_refused error;
    delete_app_state_version = λ _. noop_refused error;
    put_app_state_mutation_macs = λ _ _ _. noop_refused error;
    delete_app_state_mutation_macs = λ _ _. noop_refused error;
    get_app_state_mutation_mac = λ _ _. noop_refused error;
  }

  abbrev pub noop_contacts : Error → ContactStore D C
  noop_contacts error = record {
    put_push_name = λ _ _. noop_refused error;
    put_business_name = λ _ _. noop_refused error;
    put_contact_name = λ _ _ _. noop_refused error;
    put_all_contact_names = λ _. noop_refused error;
    put_many_redacted_phones = λ _. noop_refused error;
    get_contact = λ _. noop_refused error;
    get_all_contacts = noop_refused error;
  }

  abbrev pub noop_chat_settings : Error → ChatSettingsStore D C
  noop_chat_settings error = record {
    put_muted_until = λ _ _. noop_refused error;
    put_pinned = λ _ _. noop_refused error;
    put_archived = λ _ _. noop_refused error;
    get_chat_settings = λ _. noop_refused error;
  }

  abbrev pub noop_msg_secrets : Error → MsgSecretStore D C
  noop_msg_secrets error = record {
    put_message_secrets = λ _. noop_refused error;
    put_message_secret = λ _ _ _ _. noop_refused error;
    get_message_secret = λ _ _ _. noop_refused error;
  }

  abbrev pub noop_privacy_tokens : Error → PrivacyTokenStore D C
  noop_privacy_tokens error = record {
    put_privacy_tokens = λ _. noop_refused error;
    get_privacy_token = λ _. noop_refused error;
    delete_expired_privacy_tokens = λ _. noop_refused error;
  }

  abbrev pub noop_nct_salt : Error → NctSaltStore D C
  noop_nct_salt error = record {
    put_nct_salt = λ _. noop_refused error;
    get_nct_salt = noop_refused error;
    delete_nct_salt = noop_refused error;
  }

  abbrev pub noop_event_buffer : Error → EventBuffer D C
  noop_event_buffer error = record {
    get_buffered_event = λ _. pure none;
    put_buffered_event = λ _ _ _. pure tt;
    do_decryption_txn = λ fn. fn;
    clear_buffered_event_plaintext = λ _. pure tt;
    delete_old_buffered_hashes = pure tt;
    get_outgoing_event = λ _ _ _. pure ("", []);
    add_outgoing_event = λ _ _ _ _. pure tt;
    delete_old_outgoing_events = pure tt;
  }

  abbrev pub noop_lids : Error → LidStore D C
  noop_lids error = record {
    get_lid_for_pn = λ _. noop_refused error;
    get_many_lids_for_pns = λ _. pure ([], some error);
    get_pn_for_lid = λ _. noop_refused error;
    put_many_lid_mappings = λ _. noop_refused error;
    put_lid_mapping = λ _ _. noop_refused error;
  }

  abbrev pub noop_container : Error → DeviceContainer D C
  noop_container error = record {
    put_device = noop_refused error;
    delete_device = noop_refused error;
  }
