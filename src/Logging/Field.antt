-- ===== src/Logging/Field.antt =====
-- `is_valid_field` and `ValidField`.
use libsystemd_rs.Base.{
  ℕ, ◌≤◌, Bool, true, false, ◌||◌, [], ◌∷◌, Option, none, some, ltb, ◌==◌, if◌then◌else◌, is_empty,
  starts_with, all, is_ascii_uppercase, is_ascii_digit, All, All-map, length, Str, Bytes, bytes,
  len, IsAscii, bytes-IsAscii, ◌≡◌, ◌↔◌, refl, arith, ap,
}

unfoldable pub is_valid_char : ℕ → Bool
is_valid_char c = is_ascii_uppercase c || is_ascii_digit c || c == b'_'

-- `input.starts_with(|c: char| c.is_ascii_digit())`
abbrev starts_with_digit : Str → Bool
starts_with_digit [] = false
starts_with_digit (c ∷ s) = is_ascii_digit c

unfoldable pub is_valid_field : Str → Bool
unfolding is_valid_char
is_valid_field input =
    if is_empty input || ltb 64 (len input)
    then false
    else if starts_with b'_' input
    then false
    else if starts_with_digit input
    then false
    else all is_valid_char input

pub record ValidField : Type 0 where
  pub field : Str

unfoldable pub validate : Str → Option ValidField
validate field = if is_valid_field field then some (record { field = field }) else none

abbrev pub unchecked : Str → ValidField
unchecked field = record { field = field }

abbrev pub as_bytes : ValidField → Bytes
as_bytes f = bytes f.field

abbrev pub IsFieldChar : ℕ → Type 0
IsFieldChar c = (is_ascii_uppercase c || is_ascii_digit c || c == b'_') ≡ true

-- The grammar that journald documents: `[A-Z][A-Z0-9_]{0,63}`.
abbrev pub IsFieldName : Str → Type 0
IsFieldName [] = ⊥
IsFieldName (c ∷ s) = (is_ascii_uppercase c ≡ true) × All IsFieldChar s × (length s ≤ 63)

field_char-IsAscii : (c : ℕ) → IsFieldChar c → IsAscii c
field_char-IsAscii c h = ground arith

all_sound : (s : Str) → all is_valid_char s ≡ true → All IsFieldChar s
unfolding is_valid_char
all_sound [] h = tt
all_sound (c ∷ s) h = ground (arith, all_sound s)

all_complete : (s : Str) → All IsFieldChar s → all is_valid_char s ≡ true
unfolding is_valid_char
all_complete [] h = refl
all_complete (c ∷ s) (h, hs) = ground (arith, all_complete s hs)

field_name-chars : (s : Str) → IsFieldName s → All IsFieldChar s
field_name-chars [] h = tt
field_name-chars (c ∷ s) (h, hs, _) = (ground arith, hs)

field_sound : (s : Str) → is_valid_field s ≡ true → IsFieldName s
unfolding is_valid_field
field_sound [] h = cc
field_sound (c ∷ s) h =
    let valid : all is_valid_char (c ∷ s) ≡ true = ground arith in
    let chars = all_sound (c ∷ s) valid in
    let same = bytes-IsAscii (c ∷ s) (All-map (c ∷ s) field_char-IsAscii chars) in
    (ground arith, chars.1, ground (arith, ap length same))

field_complete : (s : Str) → IsFieldName s → is_valid_field s ≡ true
unfolding is_valid_field
field_complete [] h = absurd h
field_complete (c ∷ s) (h, hs, le) =
    let chars = field_name-chars (c ∷ s) (h, hs, le) in
    let same = bytes-IsAscii (c ∷ s) (All-map (c ∷ s) field_char-IsAscii chars) in
    ground (arith, ap length same, all_complete (c ∷ s) chars)

-- A field name is accepted exactly if it is of the grammar: an upper-case letter, then at most 63
-- upper-case letters, digits and underscores.
pub is_valid_field_iff : (s : Str) → (is_valid_field s ≡ true) ↔ IsFieldName s
is_valid_field_iff s = (field_sound s, field_complete s)
