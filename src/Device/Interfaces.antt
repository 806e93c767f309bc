-- ===== src/Device/Interfaces.antt =====
-- The interfaces of store/store.go that the fields of a device hold.
use zev_bot.Prelude.{ℕ, String, Option, List, Bool}
use zev_bot.Table.{Table}
use zev_bot.Sql.{Error, Prog}
use zev_bot.Jid.{Jid}
use zev_bot.Lid.{LidMapping}
use zev_bot.Signal.{Bytes}
use zev_bot.PreKeys
use zev_bot.Contacts.{ContactEntry, RedactedPhoneEntry, ContactInfo}
use zev_bot.Chats.{Time, LocalChatSettings}
use zev_bot.AppState.{SyncKey, Mutation}
use zev_bot.Tokens.{PrivacyToken}
use zev_bot.Events.{MessageSecretInsert, BufferedEvent}

pub record IdentityStore (D C : Type 0) : Type 0 where
  pub put_identity : String → Bytes → Prog D C (Unit {0})
  pub delete_all_identities : String → Prog D C (Unit {0})
  pub delete_identity : String → Prog D C (Unit {0})
  pub is_trusted_identity : String → Bytes → Prog D C Bool

pub record SessionStore (D C : Type 0) : Type 0 where
  pub get_session : String → Prog D C (Option Bytes)
  pub has_session : String → Prog D C Bool
  pub get_many_sessions : List String → Prog D C (Table String (Option Bytes))
  pub put_session : String → Bytes → Prog D C (Unit {0})
  pub put_many_sessions : List (String × Bytes) → Prog D C (Unit {0})
  pub delete_all_sessions : String → Prog D C (Unit {0})
  pub delete_session : String → Prog D C (Unit {0})
  pub migrate_pn_to_lid : String → String → Prog D C (Unit {0})

pub record PreKeyStore (D C : Type 0) : Type 0 where
  pub get_or_gen_pre_keys : ℕ → Prog D C (List PreKeys.PreKey)
  pub gen_one_pre_key : Prog D C PreKeys.PreKey
  pub get_pre_key : ℕ → Prog D C (Option PreKeys.PreKey)
  pub remove_pre_key : ℕ → Prog D C (Unit {0})
  pub mark_pre_keys_as_uploaded : ℕ → Prog D C (Unit {0})
  pub uploaded_pre_key_count : Prog D C ℕ

pub record SenderKeyStore (D C : Type 0) : Type 0 where
  pub put_sender_key : String → String → Bytes → Prog D C (Unit {0})
  pub get_sender_key : String → String → Prog D C (Option Bytes)

pub record AppStateSyncKeyStore (D C : Type 0) : Type 0 where
  pub put_app_state_sync_key : Bytes → SyncKey → Prog D C (Unit {0})
  pub get_app_state_sync_key : Bytes → Prog D C (Option SyncKey)
  pub get_latest_app_state_sync_key_id : Prog D C (Option Bytes)
  pub get_all_app_state_sync_keys : Prog D C (List SyncKey)

pub record AppStateStore (D C : Type 0) : Type 0 where
  pub put_app_state_version : String → ℕ → Bytes → Prog D C (Unit {0})
  pub get_app_state_version : String → Prog D C (ℕ × Option Bytes)
  pub delete_app_state_version : String → Prog D C (Unit {0})
  pub put_app_state_mutation_macs : String → ℕ → List Mutation → Prog D C (Unit {0})
  pub delete_app_state_mutation_macs : String → List Bytes → Prog D C (Unit {0})
  pub get_app_state_mutation_mac : String → Bytes → Prog D C (Option Bytes)

pub record ContactStore (D C : Type 0) : Type 0 where
  pub put_push_name : String → String → Prog D C (Bool × String)
  pub put_business_name : String → String → Prog D C (Bool × String)
  pub put_contact_name : String → String → String → Prog D C (Unit {0})
  pub put_all_contact_names : List ContactEntry → Prog D C (Unit {0})
  pub put_many_redacted_phones : List RedactedPhoneEntry → Prog D C (Unit {0})
  pub get_contact : String → Prog D C ContactInfo
  pub get_all_contacts : Prog D C (Table String ContactInfo)

pub record ChatSettingsStore (D C : Type 0) : Type 0 where
  pub put_muted_until : String → Time → Prog D C (Unit {0})
  pub put_pinned : String → Bool → Prog D C (Unit {0})
  pub put_archived : String → Bool → Prog D C (Unit {0})
  pub get_chat_settings : String → Prog D C LocalChatSettings

pub record MsgSecretStore (D C : Type 0) : Type 0 where
  pub put_message_secrets : List MessageSecretInsert → Prog D C (Unit {0})
  pub put_message_secret : Jid → Jid → String → Bytes → Prog D C (Unit {0})
  pub get_message_secret : Jid → Jid → String → Prog D C (Option Bytes × Jid)

pub record PrivacyTokenStore (D C : Type 0) : Type 0 where
  pub put_privacy_tokens : List PrivacyToken → Prog D C (Unit {0})
  pub get_privacy_token : Jid → Prog D C (Option PrivacyToken)
  pub delete_expired_privacy_tokens : Time → Prog D C ℕ

pub record NctSaltStore (D C : Type 0) : Type 0 where
  pub put_nct_salt : Bytes → Prog D C (Unit {0})
  pub get_nct_salt : Prog D C (Option Bytes)
  pub delete_nct_salt : Prog D C (Unit {0})

pub record EventBuffer (D C : Type 0) : Type 0 where
  pub get_buffered_event : Bytes → Prog D C (Option BufferedEvent)
  pub put_buffered_event : Bytes → Bytes → Time → Prog D C (Unit {0})
  pub do_decryption_txn : Prog D C (Unit {0}) → Prog D C (Unit {0})
  pub clear_buffered_event_plaintext : Bytes → Prog D C (Unit {0})
  pub delete_old_buffered_hashes : Prog D C (Unit {0})
  pub get_outgoing_event : Jid → Jid → String → Prog D C (String × Bytes)
  pub add_outgoing_event : Jid → String → String → Bytes → Prog D C (Unit {0})
  pub delete_old_outgoing_events : Prog D C (Unit {0})

pub record LidStore (D C : Type 0) : Type 0 where
  pub get_lid_for_pn : Jid → Prog D C Jid
  pub get_many_lids_for_pns : List Jid → Prog D C (Table Jid Jid × Option Error)
  pub get_pn_for_lid : Jid → Prog D C Jid
  pub put_many_lid_mappings : List LidMapping → Prog D C (Unit {0})
  pub put_lid_mapping : Jid → Jid → Prog D C (Unit {0})

pub record DeviceContainer (D C : Type 0) : Type 0 where
  pub put_device : Prog D C (Unit {0})
  pub delete_device : Prog D C (Unit {0})
