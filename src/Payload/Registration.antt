-- ===== src/Payload/Registration.antt =====
-- What the payload of a device that is not registered says (store/clientpayload.go).
use zev_bot.Prelude.{
  ℕ, ◌+◌, ◌*◌, ◌%◌, ◌^◌, ◌<◌, ◌≡◌, refl, String, none, some, List, [], ◌∷◌, All, arith, length,
  Bool-cases, inl, inr,
}
use zev_bot.Jid.{Jid}
use zev_bot.Signal.{Bytes}
use zev_bot.Device.{Device}
use zev_bot.Payload.Version.{WaVersionContainer, version_string, is_zero}
use zev_bot.Payload.Client.{
  Globals, initial_globals, set_wa_version, set_os_info, big_endian, tail, PairingData,
  ClientPayload, connects_with, get_registration_payload, get_client_payload,
}

pub data Setting : Type 0 where
  wa_version : WaVersionContainer → Setting
  os_info : String → WaVersionContainer → Setting

-- The number that bytes spell, the most significant first.
abbrev pub spelled : ℕ → Bytes → ℕ
spelled n [] = n
spelled n (b ∷ bs) = spelled (n * 256 + b) bs

abbrev pub IsByte : ℕ → Type 0
IsByte b = b < 256

spelled-big_endian : (n : ℕ) → n < 2 ^ 32 → spelled 0 (big_endian n) ≡ n
spelled-big_endian n h = omega (arith, h)

spelled-tail : (n : ℕ) → n < 2 ^ 32 → spelled 0 (tail (big_endian n)) ≡ n % 2 ^ 24
spelled-tail n h = omega (arith, h)

big_endian-IsByte : (n : ℕ) → All IsByte (big_endian n)
big_endian-IsByte n = (omega arith, (omega arith, (omega arith, (omega arith, tt))))

module _ (md5 : Bytes → Bytes) where
  abbrev pub apply : Setting → Globals → Globals
  apply (wa_version v) g = set_wa_version md5 v g
  apply (os_info name v) g = set_os_info name v g

  abbrev pub configured : List Setting → Globals → Globals
  configured [] g = g
  configured (x ∷ xs) g = configured xs (apply x g)

  Hashed : Globals → Type 0
  Hashed g =
      (g.wa_version_hash ≡ md5 (version_string g.app_version)) × (g.app_version ≡ g.wa_version)

  apply-Hashed : (x : Setting) (g : Globals) → Hashed g → Hashed (apply x g)
  unfolding Hashed set_wa_version
  apply-Hashed (os_info name v) g h = h
  apply-Hashed (wa_version v) g h = elim (Bool-cases (is_zero v)) [
    | inl e ↦ rw e h
    | inr e ↦ rw e (refl, refl)
  ]

  configured-Hashed : (xs : List Setting) (g : Globals) → Hashed g → Hashed (configured xs g)
  configured-Hashed [] g h = h
  configured-Hashed (x ∷ xs) g h = configured-Hashed xs (apply x g) (apply-Hashed x g h)

-- What the server reads in the payload of a device: its registration ID in four bytes, its signed pre
-- key's ID in three, and the hash of the version that the payload has.
pub record Registers (md5 : Bytes → Bytes) (d : Device) (p : ClientPayload) : Type 0 where
  pub pairing : PairingData
  pub sent : p.device_pairing_data ≡ some pairing
  pub registration_id : spelled 0 pairing.e_regid ≡ d.registration_id
  pub regid_bytes : All IsByte pairing.e_regid × (length pairing.e_regid ≡ 4)
  pub key_id : spelled 0 pairing.e_skey_id ≡ d.signed_pre_key.key_id % 2 ^ 24
  pub key_id_bytes : All IsByte pairing.e_skey_id × (length pairing.e_skey_id ≡ 3)
  pub build_hash : pairing.build_hash ≡ md5 (version_string p.app_version)

-- Whatever versions and names were set before, a device without a JID sends its registration ID whole,
-- the last 24 bits of its signed pre key's ID, each in bytes, and the hash of the version that it
-- sends. Both numbers have 32 bits.
pub get_client_payload-Registers :
    (md5 : Bytes → Bytes) (djb_type : ℕ) (marshal : Globals → Bytes) (user_int : Jid → ℕ)
    (settings : List Setting) (d : Device)
    → d.id ≡ none
    → d.registration_id < 2 ^ 32
    → d.signed_pre_key.key_id < 2 ^ 32
    → (p : ClientPayload) × (get_client_payload djb_type marshal user_int
          (configured md5 settings (initial_globals md5))
          d
        ≡ connects_with p)
      × Registers md5 d p
unfolding get_client_payload Hashed
get_client_payload-Registers md5 djb_type marshal user_int settings d e reg key =
    let g = configured md5 settings (initial_globals md5) in
    let hashed = configured-Hashed md5 settings (initial_globals md5) (refl, refl) in
    (
      get_registration_payload djb_type marshal user_int g d,
      ground (arith, e),
      record {
        pairing = _;
        sent = refl;
        registration_id = spelled-big_endian d.registration_id reg;
        regid_bytes = (big_endian-IsByte d.registration_id, refl);
        key_id = spelled-tail d.signed_pre_key.key_id key;
        key_id_bytes = ((big_endian-IsByte d.signed_pre_key.key_id).1, refl);
        build_hash = hashed.0;
      },
    )
