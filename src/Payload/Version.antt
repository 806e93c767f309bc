-- ===== src/Payload/Version.antt =====
-- `WAVersionContainer` of store/clientpayload.go.
use zev_bot.Prelude.{ℕ, Option, none, some, List, [], ◌∷◌, ◌++◌, Bool, ltb, ◌==◌, ◌&&◌, ◌||◌}
use zev_bot.Signal.{Bytes}
use zev_bot.Chats.{ℤ}
use zev_bot.Payload.Decimal.{atoi, to_uint32, itoa, split_dots}

pub record WaVersionContainer : Type 0 where
  pub primary : ℕ
  pub secondary : ℕ
  pub tertiary : ℕ

pub data Parsed : Type 0 where
  parsed : WaVersionContainer → Parsed
  not_three_parts : Parsed
  not_a_number : ℕ → Parsed

abbrev pub three : Option ℤ → Option ℤ → Option ℤ → Parsed
three none b c = not_a_number 1
three (some a) none c = not_a_number 2
three (some a) (some b) none = not_a_number 3
three (some a) (some b) (some c) =
    parsed (record { primary = to_uint32 a; secondary = to_uint32 b; tertiary = to_uint32 c })

abbrev pub parse_parts : List Bytes → Parsed
parse_parts (a ∷ b ∷ c ∷ []) = three (atoi a) (atoi b) (atoi c)
parse_parts _ = not_three_parts

unfoldable pub parse_version : Bytes → Parsed
unfolding split_dots atoi
parse_version version = parse_parts (split_dots version)

unfoldable pub version_string : WaVersionContainer → Bytes
unfolding itoa
version_string v = itoa v.primary ++ b'.' ∷ (itoa v.secondary ++ b'.' ∷ itoa v.tertiary)

unfoldable pub less_than : WaVersionContainer → WaVersionContainer → Bool
less_than v other =
    ltb v.primary other.primary
    || (v.primary == other.primary && ltb v.secondary other.secondary)
    || (v.primary == other.primary
        && v.secondary == other.secondary
        && ltb v.tertiary other.tertiary)

unfoldable pub is_zero : WaVersionContainer → Bool
is_zero v = v.primary == 0 && v.secondary == 0 && v.tertiary == 0
