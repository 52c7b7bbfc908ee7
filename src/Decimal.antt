-- ===== src/Decimal.antt =====
-- What the source uses of Rust's integers as text: `Display` and `FromStr` of the unsigned types.
-- A type is its greatest value. `from_str` takes a leading `+`, and tests for overflow before it
-- multiplies and before it adds.
pub mod RoundTrip
pub mod Accept
pub mod Signed
use libsystemd_rs.Base.{
  ℕ, zero, suc, ◌+◌, ◌-◌, ◌*◌, ◌/◌, ◌%◌, ◌^◌, ◌<◌, Bool, true, false, ◌||◌, ◌&&◌, [], ◌∷◌, ltb,
  ◌==◌, if◌then◌else◌, is_empty, is_ascii_digit, Str, codes, Result, ok, err, ◌≡◌, refl,
}

abbrev pub u8_max : ℕ
u8_max = 255

abbrev pub u32_max : ℕ
u32_max = 2 ^ 32 - 1

abbrev pub u64_max : ℕ
u64_max = 2 ^ 64 - 1

-- `std::num::IntErrorKind`, as far as parsing of unsigned numbers gives it
pub data IntError : Type 0 where
  empty invalid_digit pos_overflow : IntError

-- The texts that `ParseIntError` displays.
unfoldable pub describe : IntError → Str
describe empty = codes "cannot parse integer from empty string"
describe invalid_digit = codes "invalid digit found in string"
describe pos_overflow = codes "number too large to fit in target type"

digits : ℕ → ℕ → Str → Str
digits zero n out = out
digits (suc fuel) n out =
    let rest = digits fuel (n / 10) ((b'0' + n % 10) ∷ out) in
    if ltb n 10 then (b'0' + n) ∷ out else rest

-- Each round divides by ten, so `n + 1` rounds are enough.
unfoldable pub display : ℕ → Str
unfolding digits
display n = digits (suc n) n []

scan : ℕ → Str → ℕ → Result IntError ℕ
scan max [] n = ok n
scan max (c ∷ s) n =
    let d = c - b'0' in
    if is_ascii_digit c
    then if ltb max (n * 10)
      then err pos_overflow
      else if ltb max (n * 10 + d)
      then err pos_overflow
      else scan max s (n * 10 + d)
    else err invalid_digit

unfoldable pub parse : ℕ → Str → Result IntError ℕ
unfolding scan
parse max [] = err empty
parse max (c ∷ s) =
    if (c == b'+' || c == b'-') && is_empty s
    then err invalid_digit
    else if c == b'+'
    then scan max s 0
    else scan max (c ∷ s) 0

parse_u32_cases :
    (parse u32_max (codes "4294967295") ≡ ok 4294967295)
    × (parse u32_max (codes "4294967296") ≡ err pos_overflow)
    × (parse u32_max (codes "+7") ≡ ok 7)
    × (parse u32_max (codes "-7") ≡ err invalid_digit)
    × (parse u32_max (codes "+") ≡ err invalid_digit)
    × (parse u32_max [] ≡ err empty)
unfolding parse
parse_u32_cases = (refl, refl, refl, refl, refl, refl)

display_u32_cases : (display 4294967295 ≡ codes "4294967295") × (display 0 ≡ codes "0")
unfolding display
display_u32_cases = (refl, refl)
