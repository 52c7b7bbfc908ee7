-- ===== src/Id128/Hex.antt =====
-- The hexadecimal form is read back.
use libsystemd_rs.Base.{
  ℕ, ◌+◌, ◌-◌, ◌*◌, ◌/◌, ◌%◌, ◌<◌, [], ◌∷◌, Option, none, some, within, if◌then◌else◌, length, Str,
  Bytes, IsByte, All, ok, ◌≡◌, refl, arith,
}
use libsystemd_rs.Error.{context}
use libsystemd_rs.Id128.{Crates, Id128, hex_bytes, lower_hex, parse_str}
use libsystemd_rs.Unit.{hex_digit}

-- The value of a hexadecimal digit, of either case.
abbrev pub digit_value : ℕ → Option ℕ
digit_value c =
    if within b'0' b'9' c
    then some (c - b'0')
    else if within b'a' b'f' c
    then some (c - b'a' + 10)
    else if within b'A' b'F' c
    then some (c - b'A' + 10)
    else none

unfoldable pub pair : Option ℕ → Option ℕ → Option Bytes → Option Bytes
pair (some h) (some l) (some bs) = some ((h * 16 + l) ∷ bs)
pair _ _ _ = none

-- The bytes that pairs of hexadecimal digits denote.
unfoldable pub unhex : Str → Option Bytes
unfolding pair
unhex [] = some []
unhex (h ∷ []) = none
unhex (h ∷ l ∷ s) = pair (digit_value h) (digit_value l) (unhex s)

-- `Uuid::parse_str` reads the simple form: 32 hexadecimal digits.
abbrev pub ReadsSimple : Crates → Type 0
ReadsSimple crates =
    (s : Str) (bs : Bytes) → unhex s ≡ some bs → length bs ≡ 16 → crates.parse_uuid s ≡ ok bs

digit_value-hex_digit : (d : ℕ) → d < 16 → digit_value (hex_digit d) ≡ some d
unfolding hex_digit
digit_value-hex_digit d h = ground arith

pub unhex-hex_bytes : (bs : Bytes) → All IsByte bs → unhex (hex_bytes bs) ≡ some bs
unfolding unhex hex_bytes pair
unhex-hex_bytes [] h = refl
unhex-hex_bytes (b ∷ bs) (h, hs) = ground (
  arith,
  digit_value-hex_digit (b / 16) (omega (arith, h)),
  digit_value-hex_digit (b % 16) (omega arith),
  unhex-hex_bytes bs hs,
)

-- An ID of 16 bytes is read back from its hexadecimal form, if uuid reads 32 hexadecimal digits as the
-- bytes that they denote.
pub parse_str-lower_hex :
    (crates : Crates) (i : Id128)
    → ReadsSimple crates
    → length i.uuid_v4 ≡ 16
    → All IsByte i.uuid_v4
    → parse_str crates (lower_hex i) ≡ ok i
unfolding parse_str lower_hex context
parse_str-lower_hex crates i reads full valid =
    rw (reads (hex_bytes i.uuid_v4) i.uuid_v4 (unhex-hex_bytes i.uuid_v4 valid) full) refl
