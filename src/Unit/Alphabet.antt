-- ===== src/Unit/Alphabet.antt =====
-- Which characters an escaped name or path is made of, and how long it is.
use libsystemd_rs.Base.{
  ℕ, suc, ◌*◌, ◌/◌, ◌%◌, ◌≤◌, ◌<◌, Bool, true, false, ◌||◌, [], ◌∷◌, ◌==◌, concat,
  is_ascii_alphanumeric, All, All-append, length, length-append, Str, Bytes, bytes, len, ◌≡◌, ◌⊎◌,
  refl, arith, starts_with, contains, IsByte, IsChar, bytes-IsByte,
}
use libsystemd_rs.Unit.{hex_digit, escape_byte, escape_each, escape_name}

-- The characters that systemd allows in a unit name, as far as escaping can write them.
abbrev pub is_unit_char : ℕ → Bool
is_unit_char c =
    is_ascii_alphanumeric c || c == b':' || c == b'_' || c == b'.' || c == b'-' || c == b'\\'

abbrev pub IsUnitChar : ℕ → Type 0
IsUnitChar c = is_unit_char c ≡ true

hex_digit-IsUnitChar : (d : ℕ) → d < 16 → IsUnitChar (hex_digit d)
unfolding hex_digit
hex_digit-IsUnitChar d h = ground arith

pub escape_byte-IsUnitChar : (b n : ℕ) → IsByte b → All IsUnitChar (escape_byte b n)
unfolding escape_byte
escape_byte-IsUnitChar b n h =
    ground (arith, hex_digit-IsUnitChar (b / 16), hex_digit-IsUnitChar (b % 16))

pub escape_each-IsUnitChar :
    (n : ℕ) (bs : Bytes) → All IsByte bs → All IsUnitChar (concat (escape_each n bs))
unfolding escape_each
escape_each-IsUnitChar n [] h = tt
escape_each-IsUnitChar n (b ∷ bs) (h, hs) =
    All-append IsUnitChar _ _ (escape_byte-IsUnitChar b n h) (escape_each-IsUnitChar (suc n) bs hs)

-- One character is escaped to one or to four, whatever its place: the source's first quickcheck
-- property.
pub length-escape_byte : (b n : ℕ) → (length (escape_byte b n) ≡ 1) ⊎ (length (escape_byte b n) ≡ 4)
unfolding escape_byte
length-escape_byte b n = ground arith

pub length-escape_each :
    (n : ℕ) (bs : Bytes)
    → (length bs ≤ length (concat (escape_each n bs)))
      × (length (concat (escape_each n bs)) ≤ 4 * length bs)
unfolding escape_each
length-escape_each n [] = omega arith
length-escape_each n (b ∷ bs) = omega (
  arith,
  length-escape_byte b n,
  length-escape_each (suc n) bs,
  length-append (escape_byte b n) (concat (escape_each (suc n) bs)),
)

-- The first character is no dot.
pub escape_each-no_leading_dot : (bs : Bytes) → starts_with b'.' (concat (escape_each 0 bs)) ≡ false
unfolding escape_each escape_byte
escape_each-no_leading_dot [] = refl
escape_each-no_leading_dot (b ∷ bs) = ground arith

-- Text of unit characters holds no slash.
pub IsUnitChar-no_slash : (s : Str) → All IsUnitChar s → contains b'/' s ≡ false
unfolding contains
IsUnitChar-no_slash [] h = refl
IsUnitChar-no_slash (c ∷ s) (h, hs) = ground (arith, IsUnitChar-no_slash s hs)

-- For a name of Unicode characters the escaped name is made of unit characters alone, does not start
-- with a dot, and has between once and four times as many characters as the name has bytes.
pub escape_name_shape :
    (s : Str)
    → All IsChar s
    → All IsUnitChar (escape_name s)
      × (starts_with b'.' (escape_name s) ≡ false)
      × (len s ≤ length (escape_name s))
      × (length (escape_name s) ≤ 4 * len s)
unfolding escape_name
escape_name_shape [] h = unfold bytes in (tt, refl, omega arith, omega arith)
escape_name_shape (c ∷ s) h =
    let bs = bytes (c ∷ s) in
    (
      escape_each-IsUnitChar 0 bs (bytes-IsByte (c ∷ s) h),
      escape_each-no_leading_dot bs,
      (length-escape_each 0 bs).0,
      (length-escape_each 0 bs).1,
    )
