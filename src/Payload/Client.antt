-- ===== src/Payload/Client.antt =====
-- The payload of a device and the settings that it is made of (store/clientpayload.go). `md5` is
-- `md5.Sum`, `marshal` is `proto.Marshal` of the device properties, `user_int` is `JID.UserInt`.
use zev_bot.Prelude.{
  ℕ, ◌/◌, ◌%◌, ◌^◌, String, Option, none, some, [], ◌∷◌, Bool, true, false, ite, value_or,
  if◌then◌else◌,
}
use zev_bot.Jid.{Jid, empty_jid}
use zev_bot.Lid.Many.{jid_discrete}
use zev_bot.Signal.{Bytes}
use zev_bot.Device.{Device}
use zev_bot.Payload.Version.{WaVersionContainer, version_string, is_zero}

-- The package's variables `waVersion` and `waVersionHash`, and what the functions change of
-- `BaseClientPayload` and `DeviceProps`.
pub record Globals : Type 0 where
  pub wa_version : WaVersionContainer
  pub wa_version_hash : Bytes
  pub app_version : WaVersionContainer
  pub os_version : Bytes
  pub os_build_number : Bytes
  pub lc : Option ℕ
  pub props_os : String
  pub props_version : WaVersionContainer

abbrev pub version : ℕ → ℕ → ℕ → WaVersionContainer
version a b c = record { primary = a; secondary = b; tertiary = c }

abbrev pub initial_version : WaVersionContainer
initial_version = version 2 3000 1041871181

module _ (md5 : Bytes → Bytes) where
  abbrev pub initial_globals : Globals
  initial_globals = record {
    wa_version = initial_version;
    wa_version_hash = md5 (version_string initial_version);
    app_version = initial_version;
    os_version = b'0' ∷ b'.' ∷ b'1' ∷ [];
    os_build_number = b'0' ∷ b'.' ∷ b'1' ∷ [];
    lc = none;
    props_os = "zevBot";
    props_version = version 0 1 0;
  }

  unfoldable pub set_wa_version : WaVersionContainer → Globals → Globals
  unfolding is_zero
  set_wa_version v g =
      if is_zero v
      then g
      else record g { wa_version = v; wa_version_hash = md5 (version_string v); app_version = v }

abbrev pub set_os_info : String → WaVersionContainer → Globals → Globals
set_os_info name v g = record g {
  props_os = name;
  props_version = v;
  os_version = version_string v;
  os_build_number = version_string v;
}

-- `binary.BigEndian.PutUint32`
abbrev pub big_endian : ℕ → Bytes
big_endian n = n / 2 ^ 24 % 256 ∷ n / 2 ^ 16 % 256 ∷ n / 2 ^ 8 % 256 ∷ n % 256 ∷ []

abbrev pub tail : Bytes → Bytes
tail [] = []
tail (b ∷ bs) = bs

-- `DevicePairingRegistrationData`
pub record PairingData : Type 0 where
  pub e_regid : Bytes
  pub e_keytype : Bytes
  pub e_ident : Bytes
  pub e_skey_id : Bytes
  pub e_skey_val : Bytes
  pub e_skey_sig : Bytes
  pub build_hash : Bytes
  pub device_props : Bytes

-- `waWa6.ClientPayload`, by the fields that the code sets or changes.
pub record ClientPayload : Type 0 where
  pub app_version : WaVersionContainer
  pub os_version : Bytes
  pub os_build_number : Bytes
  pub lc : Option ℕ
  pub username : Option ℕ
  pub device : Option ℕ
  pub passive : Option Bool
  pub pull : Option Bool
  pub lid_db_migrated : Option Bool
  pub device_pairing_data : Option PairingData

-- `proto.Clone(BaseClientPayload)`
abbrev pub clone : Globals → ClientPayload
clone g = record {
  app_version = g.app_version;
  os_version = g.os_version;
  os_build_number = g.os_build_number;
  lc = g.lc;
  username = none;
  device = none;
  passive = none;
  pull = none;
  lid_db_migrated = none;
  device_pairing_data = none;
}

-- A payload, or the panic on an empty JID.
pub data Connects : Type 0 where
  connects_with : ClientPayload → Connects
  panics : Connects

module _ (djb_type : ℕ) (marshal : Globals → Bytes) (user_int : Jid → ℕ) where
  abbrev pub get_registration_payload : Globals → Device → ClientPayload
  get_registration_payload g d = record (clone g) {
    device_pairing_data = some (record {
      e_regid = big_endian d.registration_id;
      e_keytype = djb_type ∷ [];
      e_ident = d.identity_key.public_key;
      e_skey_id = tail (big_endian d.signed_pre_key.key_id);
      e_skey_val = d.signed_pre_key.key_pair.public_key;
      e_skey_sig = d.signed_pre_key.signature;
      build_hash = g.wa_version_hash;
      device_props = marshal g;
    });
    passive = some false;
    pull = some false;
  }

  abbrev pub get_login_payload : Globals → Jid → ClientPayload
  get_login_payload g id = record (clone g) {
    username = some (user_int id);
    device = some id.device;
    passive = some true;
    pull = some true;
    lid_db_migrated = some true;
    lc = some (value_or 1 g.lc);
  }

  unfoldable pub get_client_payload : Globals → Device → Connects
  get_client_payload g d = elim d.id [
    | none ↦ connects_with (get_registration_payload g d)
    | some id ↦ ite (jid_discrete id empty_jid) panics (connects_with (get_login_payload g id))
  ]
