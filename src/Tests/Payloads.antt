-- ===== src/Tests/Payloads.antt =====
-- The theorems on versions and payloads, at the version that the client starts with.
use zev_bot.Prelude.{◌≡◌, refl, [], ◌∷◌, ltb, ◌==◌, arith}
use zev_bot.Signal.{Bytes}
use zev_bot.Device.{KeyPair, Device, new_device}
use zev_bot.Payload.{
  WaVersionContainer, version, initial_version, parsed, parse_version, version_string, less_than,
  is_zero, initial_globals, ClientPayload, connects_with, get_client_payload, not_a_number,
  split_dots, atoi, scan,
}
use zev_bot.Payload.Order.{IsVersion, number, less_than-number}
use zev_bot.Payload.Printed.{parse_version-version_string}
use zev_bot.Payload.Registration.{
  wa_version, os_info, configured, Registers, get_client_payload-Registers,
}

initial-IsVersion : IsVersion initial_version
initial-IsVersion = record {
  primary = omega arith;
  secondary = omega arith;
  tertiary = omega arith;
}

abbrev older : WaVersionContainer
older = version 2 2999 4294967295

older-IsVersion : IsVersion older
older-IsVersion = record { primary = omega arith; secondary = omega arith; tertiary = omega arith }

parse_version-version_string_example :
    parse_version (version_string initial_version) ≡ parsed initial_version
parse_version-version_string_example =
    parse_version-version_string initial_version initial-IsVersion

less_than-number_example :
    (less_than older initial_version ≡ ltb (number older) (number initial_version))
    × (is_zero older ≡ (number older == 0))
less_than-number_example = less_than-number older initial_version older-IsVersion initial-IsVersion

-- A part that 32 bits do not hold, and a negative one, are taken modulo 2^32.
wrapped_parts :
    parse_version (
      b'4' ∷ b'2' ∷ b'9' ∷ b'4' ∷ b'9' ∷ b'6' ∷ b'7' ∷ b'2' ∷ b'9' ∷ b'8' ∷ b'.' ∷ b'-' ∷ b'1'
      ∷ b'.' ∷ b'7' ∷ [])
    ≡ parsed (version 2 4294967295 7)
unfolding parse_version split_dots atoi scan
wrapped_parts = refl

bad_part : parse_version (b'1' ∷ b'.' ∷ b'x' ∷ b'.' ∷ b'7' ∷ []) ≡ not_a_number 2
unfolding parse_version split_dots atoi scan
bad_part = refl

abbrev key : KeyPair
key = record { private_key = []; public_key = [] }

abbrev device : Device
device =
    new_device key key 4294967295 [] (record { key_pair = key; key_id = 16777217; signature = [] })

abbrev first_byte : Bytes → Bytes
first_byte [] = []
first_byte (b ∷ bs) = b ∷ []

get_client_payload-Registers_example :
    (p : ClientPayload) × (get_client_payload 5
        (λ g. [])
        (λ j. 0)
        (configured first_byte
          (wa_version older ∷ os_info "zev" initial_version ∷ [])
          (initial_globals first_byte))
        device
      ≡ connects_with p)
    × Registers first_byte device p
get_client_payload-Registers_example =
    get_client_payload-Registers first_byte 5 (λ g. []) (λ j. 0)
      (wa_version older ∷ os_info "zev" initial_version ∷ []) device refl (omega arith)
      (omega arith)
