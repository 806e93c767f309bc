-- ===== src/Payload/Printed.antt =====
-- `ParseVersion` of what `String` prints (store/clientpayload.go).
use zev_bot.Prelude.{
  ℕ_discrete, subst, ℕ, zero, suc, ◌+◌, ◌/◌, ◌%◌, ◌^◌, ◌<◌, ◌≤◌, ◌≡◌, ◌≢◌, refl, sym, ap, ◌∙◌, some,
  [], ◌∷◌, ◌++◌, All, arith,
}
use zev_bot.Signal.{Bytes}
use zev_bot.Chats.{pos}
use zev_bot.Payload.Decimal.{scan, positive, atoi, digits, itoa, split_dots}
use zev_bot.Payload.Version.{
  WaVersionContainer, three, parsed, parse_parts, parse_version, version_string,
}
use zev_bot.Payload.Order.{IsVersion}

abbrev IsDigit : ℕ → Type 0
IsDigit c = (b'0' ≤ c) × (c ≤ b'9')

-- The fuel reaches the end of `n`.
abbrev Fits : ℕ → ℕ → Type 0
Fits zero n = n ≡ 0
Fits (suc fuel) n = Fits fuel (n / 10)

Fits-zero : (fuel : ℕ) → Fits fuel 0
Fits-zero zero = refl
Fits-zero (suc fuel) = Fits-zero fuel

uint32-Fits : (n : ℕ) → n < 2 ^ 32 → Fits 10 n
uint32-Fits n h = omega (arith, h)

scan-digits : (fuel n : ℕ) (out : Bytes) → Fits fuel n → scan (digits fuel n out) 0 ≡ scan out n
unfolding scan digits
scan-digits zero n out h = ap (scan out) (sym h)
scan-digits (suc fuel) n out h = ground (arith, scan-digits fuel (n / 10) ((b'0' + n % 10) ∷ out) h)

digits-IsDigit : (fuel n : ℕ) (out : Bytes) → All IsDigit out → All IsDigit (digits fuel n out)
unfolding digits
digits-IsDigit zero n out h = h
digits-IsDigit (suc fuel) n out h =
    ground (arith, digits-IsDigit fuel (n / 10) ((b'0' + n % 10) ∷ out))

digits-cons : (fuel n c : ℕ) (s : Bytes) → (d : ℕ) × (t : Bytes) × (digits fuel n (c ∷ s) ≡ d ∷ t)
unfolding digits
digits-cons zero n c s = (c, s, refl)
digits-cons (suc fuel) n c s = elim (ℕ_discrete n 0) [
  | yes e ↦ (c, s, ground (arith, e))
  | no e ↦
      let (d, t, h) = digits-cons fuel (n / 10) (b'0' + n % 10) (c ∷ s) in
      (d, t, ground (arith, e, h))
]

-- What the text of a number is: digits, at least one, that spell the number.
record Printed (n : ℕ) (s : Bytes) : Type 0 where
  all_digits : All IsDigit s
  spells : scan s 0 ≡ some n
  first : ℕ
  others : Bytes
  shape : s ≡ first ∷ others

text_of_zero : Printed 0 (itoa 0)
unfolding itoa scan
text_of_zero = record {
  all_digits = ground arith;
  spells = refl;
  first = b'0';
  others = [];
  shape = refl;
}

digits-Printed : (n : ℕ) → n < 2 ^ 32 → n ≢ 0 → Printed n (digits 10 n [])
unfolding digits scan
digits-Printed n h e =
    let (d, t, q) = digits-cons 9 (n / 10) (b'0' + n % 10) [] in
    record {
      all_digits = digits-IsDigit 10 n [] tt;
      spells = scan-digits 10 n [] (uint32-Fits n h);
      first = d;
      others = t;
      shape = ground (arith, e, q);
    }

itoa-Printed : (n : ℕ) → n < 2 ^ 32 → Printed n (itoa n)
unfolding itoa
itoa-Printed n h = elim (ℕ_discrete n 0) [
  | yes e ↦ subst (λ m. Printed m (itoa m)) (sym e) text_of_zero
  | no e ↦ subst (Printed n) (ground (arith, e)) (digits-Printed n h e)
]

-- A text of digits is no sign and its digits, and the number fits in an `int`.
atoi-digits :
    (n c : ℕ) (s : Bytes)
    → n < 2 ^ 32
    → IsDigit c
    → scan (c ∷ s) 0 ≡ some n
    → atoi (c ∷ s) ≡ some (pos n)
unfolding atoi
atoi-digits n c s h d e = ground (arith, d) ∙ ap positive e ∙ ground (arith, h)

atoi-Printed : (n : ℕ) (s : Bytes) → n < 2 ^ 32 → Printed n s → atoi s ≡ some (pos n)
atoi-Printed n s h p =
    ap atoi p.shape
    ∙ atoi-digits n p.first p.others h (subst (All IsDigit) p.shape p.all_digits).0
        (ap (λ s. scan s 0) (sym p.shape) ∙ p.spells)

split-one : (s : Bytes) → All IsDigit s → split_dots s ≡ s ∷ []
unfolding split_dots
split-one [] d = refl
split-one (c ∷ s) d = ground (arith, d, split-one s)

split-more : (s rest : Bytes) → All IsDigit s → split_dots (s ++ b'.' ∷ rest) ≡ s ∷ split_dots rest
unfolding split_dots
split-more [] rest d = refl
split-more (c ∷ s) rest d = ground (arith, d, split-more s rest)

-- `ParseVersion` reads back what `String` prints. The parts are numbers of 32 bits.
pub parse_version-version_string :
    (v : WaVersionContainer) → IsVersion v → parse_version (version_string v) ≡ parsed v
unfolding parse_version version_string
parse_version-version_string v p = ap parse_parts parts ∙ numbers
  where
    a : Printed v.primary (itoa v.primary)
    a = itoa-Printed v.primary p.primary

    b : Printed v.secondary (itoa v.secondary)
    b = itoa-Printed v.secondary p.secondary

    c : Printed v.tertiary (itoa v.tertiary)
    c = itoa-Printed v.tertiary p.tertiary

    parts :
        split_dots (itoa v.primary ++ b'.' ∷ (itoa v.secondary ++ b'.' ∷ itoa v.tertiary))
        ≡ itoa v.primary ∷ itoa v.secondary ∷ itoa v.tertiary ∷ []
    parts =
        split-more (itoa v.primary) (itoa v.secondary ++ b'.' ∷ itoa v.tertiary) a.all_digits
        ∙ ap (λ l. itoa v.primary ∷ l)
            (split-more (itoa v.secondary) (itoa v.tertiary) b.all_digits
              ∙ ap (λ l. itoa v.secondary ∷ l) (split-one (itoa v.tertiary) c.all_digits))

    numbers :
        three (atoi (itoa v.primary)) (atoi (itoa v.secondary)) (atoi (itoa v.tertiary)) ≡ parsed v
    numbers =
        rw
          (
            atoi-Printed _ _ p.primary a,
            atoi-Printed _ _ p.secondary b,
            atoi-Printed _ _ p.tertiary c,
          )
          (ground (arith, p.primary, p.secondary, p.tertiary))
