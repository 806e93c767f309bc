-- ===== src/Payload/Order.antt =====
-- `LessThan` and `IsZero` of store/clientpayload.go as the order of numbers.
use zev_bot.Prelude.{ℕ, ◌+◌, ◌*◌, ◌^◌, ◌<◌, ◌≡◌, ltb, ◌==◌, arith}
use zev_bot.Payload.Version.{WaVersionContainer, less_than, is_zero}

-- The parts are numbers of 32 bits.
pub record IsVersion (v : WaVersionContainer) : Type 0 where
  pub primary : v.primary < 2 ^ 32
  pub secondary : v.secondary < 2 ^ 32
  pub tertiary : v.tertiary < 2 ^ 32

-- The parts as the digits of one number, to base 2^32.
abbrev pub number : WaVersionContainer → ℕ
number v = (v.primary * 2 ^ 32 + v.secondary) * 2 ^ 32 + v.tertiary

-- Versions of 32 bit parts are ordered as the numbers that their parts spell, so the order is strict
-- and total, and `IsZero` holds of the least of them.
pub less_than-number :
    (v w : WaVersionContainer)
    → IsVersion v
    → IsVersion w
    → (less_than v w ≡ ltb (number v) (number w)) × (is_zero v ≡ (number v == 0))
unfolding less_than is_zero
less_than-number v w p q = (
  ground (arith, p.primary, p.secondary, p.tertiary, q.primary, q.secondary, q.tertiary),
  ground (arith, p.primary, p.secondary, p.tertiary),
)
