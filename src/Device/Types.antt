-- ===== src/Device/Types.antt =====
-- `Device` of store/store.go, and the table `device` with the tables that refer to it.
use zev_bot.Prelude.{ℕ, ◌≡◌, String, Option, Bool}
use zev_bot.Table.{Table}
use zev_bot.Sql.{Error, Prog}
use zev_bot.Jid.{Jid}
use zev_bot.Signal.{Bytes, SignalDb}
use zev_bot.Chats.{ℤ, ChatDb}
use zev_bot.PreKeys.{PreKeyDb}
use zev_bot.AppState.{AppStateDb}
use zev_bot.Contacts.{ContactDb}
use zev_bot.Events.{SecretId, BufferDb}
use zev_bot.Tokens.{TokenId, TokenRow}

-- `keys.KeyPair`: the package is not in the repository.
pub record KeyPair : Type 0 where
  pub private_key : Bytes
  pub public_key : Bytes

-- `keys.NewKeyPairFromPrivateKey` keeps the private key that it is given.
pub record Keys : Type 0 where
  pub from_private : Bytes → KeyPair
  pub from_private_lem : (b : Bytes) → (from_private b).private_key ≡ b

-- `keys.PreKey`
pub record PreKey : Type 0 where
  pub key_pair : KeyPair
  pub key_id : ℕ
  pub signature : Bytes

-- `waAdv.ADVSignedDeviceIdentity`, by the fields that the row has.
pub record Account : Type 0 where
  pub details : Bytes
  pub account_signature : Bytes
  pub account_signature_key : Bytes
  pub device_signature : Bytes

-- What an interface field of a device holds: nothing, the `SQLStore` of a JID, or a `NoopStore`.
pub data Store : Type 0 where
  unset : Store
  sql_store : Jid → Store
  noop_store : Error → Store

-- What `LIDs` and `Container` hold: nothing, what the container put there, or a `NoopStore`.
pub data Shared : Type 0 where
  unshared : Shared
  of_container : Shared
  noop_shared : Error → Shared

-- The session specific stores.
pub record Stores : Type 0 where
  pub identities : Store
  pub sessions : Store
  pub pre_keys : Store
  pub sender_keys : Store
  pub app_state_keys : Store
  pub app_state : Store
  pub contacts : Store
  pub chat_settings : Store
  pub msg_secrets : Store
  pub privacy_tokens : Store
  pub nct_salt : Store
  pub event_buffer : Store

-- `facebook_uuid` is the number of the UUID: 0 is `uuid.Nil`.
pub record Device : Type 0 where
  pub noise_key : KeyPair
  pub identity_key : KeyPair
  pub signed_pre_key : PreKey
  pub registration_id : ℕ
  pub adv_secret_key : Bytes
  pub id : Option Jid
  pub lid : Jid
  pub account : Option Account
  pub platform : String
  pub business_name : String
  pub push_name : String
  pub lid_migration_timestamp : ℤ
  pub facebook_uuid : ℕ
  pub initialized : Bool
  pub deleted : Bool
  pub stores : Stores
  pub lids : Shared
  pub container : Shared

-- A row of `device`.
pub record DeviceRow : Type 0 where
  pub lid : Jid
  pub registration_id : ℕ
  pub noise_key : Bytes
  pub identity_key : Bytes
  pub signed_pre_key : Bytes
  pub signed_pre_key_id : ℕ
  pub signed_pre_key_sig : Bytes
  pub adv_key : Bytes
  pub adv_details : Bytes
  pub adv_account_sig : Bytes
  pub adv_account_sig_key : Bytes
  pub adv_device_sig : Bytes
  pub platform : String
  pub business_name : String
  pub push_name : String
  pub facebook_uuid : Option ℕ
  pub lid_migration_ts : ℤ

-- The table `device`, those that refer to it, and `privacy_tokens`, which does not.
pub record DeviceDb : Type 0 where
  pub devices : Table Jid DeviceRow
  pub signal : SignalDb
  pub pre_keys : PreKeyDb
  pub app_state : AppStateDb
  pub contacts : ContactDb
  pub chats : ChatDb
  pub secrets : Table SecretId Bytes
  pub salts : Table String Bytes
  pub buffers : BufferDb
  pub tokens : Table TokenId TokenRow

-- A program that works on one device, which is the memory of the process that it changes.
abbrev pub DeviceProg : Type 0 → Type 0
DeviceProg A = Prog DeviceDb Device A
