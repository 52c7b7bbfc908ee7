-- ===== src/Sysusers/Name/Grammar.antt =====
-- The grammar of names: `[A-Za-z_][A-Za-z0-9_-]{0,30}`.
use libsystemd_rs.Base.{
  ℕ, ◌+◌, ◌≤◌, ◌<◌, true, ◌||◌, [], ◌∷◌, ltb, ◌==◌, is_ascii_alphabetic, is_ascii_alphanumeric,
  length, Str, utf8_char, len, ok, err, All, All-map, IsAscii, bytes-IsAscii, ◌≡◌, ◌↔◌, refl, arith,
  ap, inl, inr, Bool-cases,
}
use libsystemd_rs.Error.{SdError, generic}
use libsystemd_rs.Sysusers.Name.{check_chars, validate_name_strict}

abbrev pub IsStart : ℕ → Type 0
IsStart c = (is_ascii_alphabetic c || c == b'_') ≡ true

abbrev pub IsNameChar : ℕ → Type 0
IsNameChar c = (is_ascii_alphanumeric c || c == b'_' || c == b'-') ≡ true

-- A name: one starting character and at most thirty others.
abbrev pub IsName : Str → Type 0
IsName [] = ⊥
IsName (c ∷ s) = IsStart c × All IsNameChar s × (length s ≤ 30)

utf8_char_pos : (c : ℕ) → 0 < length (utf8_char c)
unfolding utf8_char
utf8_char_pos c = ground arith

-- Behind the first character the loop accepts exactly the characters of names.
check_chars_sound :
    (input s : Str) (index : ℕ) → 0 < index → check_chars input index s ≡ ok tt → All IsNameChar s
unfolding check_chars
check_chars_sound input [] index pos h = tt
check_chars_sound input (c ∷ s) index pos h =
    ground (arith, check_chars_sound input s (index + length (utf8_char c)), utf8_char_pos c)

check_chars_complete :
    (input s : Str) (index : ℕ) → 0 < index → All IsNameChar s → check_chars input index s ≡ ok tt
unfolding check_chars
check_chars_complete input [] index pos h = refl
check_chars_complete input (c ∷ s) index pos h =
    ground (arith, check_chars_complete input s (index + length (utf8_char c)), utf8_char_pos c)

start-IsAscii : (c : ℕ) → IsStart c → IsAscii c
start-IsAscii c h = ground arith

name_char-IsAscii : (c : ℕ) → IsNameChar c → IsAscii c
name_char-IsAscii c h = ground arith

-- A valid name is ASCII, so that its bytes are its characters.
pub IsName-IsAscii : (s : Str) → IsName s → All IsAscii s
IsName-IsAscii [] h = tt
IsName-IsAscii (c ∷ s) (h, hs, _) = (start-IsAscii c h, All-map s name_char-IsAscii hs)

first_step :
    (c : ℕ) (s : Str) → check_chars (c ∷ s) 0 (c ∷ s) ≡ ok tt → IsStart c × All IsNameChar s
unfolding check_chars
first_step c s h =
    ground (arith, check_chars_sound (c ∷ s) s (0 + length (utf8_char c)), utf8_char_pos c)

first_step_back :
    (c : ℕ) (s : Str) → IsStart c → All IsNameChar s → check_chars (c ∷ s) 0 (c ∷ s) ≡ ok tt
unfolding check_chars
first_step_back c s h hs =
    ground (arith, check_chars_complete (c ∷ s) s (0 + length (utf8_char c)), utf8_char_pos c)

pub validate-IsName : (s : Str) → validate_name_strict s ≡ ok tt → IsName s
unfolding validate_name_strict
validate-IsName [] h = cc
validate-IsName (c ∷ s) h = elim (Bool-cases (ltb 31 (len (c ∷ s)))) [
  | inl long ↦ let refused = rw long at h in cc
  | inr short ↦
      let (start, rest) = first_step c s (rw short at h) in
      let same = bytes-IsAscii (c ∷ s) (start-IsAscii c start, All-map s name_char-IsAscii rest) in
      (start, rest, ground (arith, ap length same))
]

pub IsName-validate : (s : Str) → IsName s → validate_name_strict s ≡ ok tt
unfolding validate_name_strict
IsName-validate [] h = absurd h
IsName-validate (c ∷ s) (h, hs, le) =
    let same = bytes-IsAscii (c ∷ s) (IsName-IsAscii (c ∷ s) (h, hs, le)) in
    ground (arith, ap length same, first_step_back c s h hs)

-- `validate_name_strict` accepts exactly the names of the grammar: one of `[A-Za-z_]`, then at most
-- thirty of `[A-Za-z0-9_-]`.
pub validate_name_strict_iff : (s : Str) → (validate_name_strict s ≡ ok tt) ↔ IsName s
validate_name_strict_iff s = (validate-IsName s, IsName-validate s)

check_chars-generic :
    (input s : Str) (index : ℕ) (e : SdError) → check_chars input index s ≡ err e → e.kind ≡ generic
unfolding check_chars
check_chars-generic input [] index e h = cc
check_chars-generic input (c ∷ s) index e h =
    ground (arith, check_chars-generic input s (index + length (utf8_char c)) e)

-- A refusal is of the generic kind.
pub validate-generic : (s : Str) (e : SdError) → validate_name_strict s ≡ err e → e.kind ≡ generic
unfolding validate_name_strict
validate-generic s e h = ground (arith, check_chars-generic s s 0 e)
