-- ===== src/Decimal/Accept.antt =====
-- What `FromStr` accepts.
use libsystemd_rs.Base.{
  ℕ, ◌+◌, ◌-◌, ◌*◌, ◌≤◌, true, false, [], ◌∷◌, ◌==◌, is_ascii_digit, Str, ok, err, ◌≡◌, arith, All,
  Ensures, Result-cases, inl, inr,
}
use libsystemd_rs.Decimal.{invalid_digit, scan, parse}

abbrev pub IsDigit : ℕ → Type 0
IsDigit c = is_ascii_digit c ≡ true

-- The number that digits spell behind `n`, with no bound.
abbrev pub value : ℕ → Str → ℕ
value n [] = n
value n (c ∷ s) = value (n * 10 + (c - b'0')) s

scan-IsDigit :
    (max : ℕ) (s : Str) (n : ℕ) {r : ℕ} → scan max s n ≡ ok r → All IsDigit s × (r ≡ value n s)
unfolding scan
scan-IsDigit max [] n h = ground arith
scan-IsDigit max (c ∷ s) n {r} h = ground (arith, scan-IsDigit max s (n * 10 + (c - b'0')) {r = r})

scan-le : (max : ℕ) (s : Str) (n : ℕ) {r : ℕ} → n ≤ max → scan max s n ≡ ok r → r ≤ max
unfolding scan
scan-le max [] n le h = ground arith
scan-le max (c ∷ s) n {r} le h = ground (arith, scan-le max s (n * 10 + (c - b'0')) {r = r})

-- An accepted number fits its type.
pub parse-le : (max : ℕ) (s : Str) {r : ℕ} → parse max s ≡ ok r → r ≤ max
unfolding parse
parse-le max [] h = cc
parse-le max (c ∷ s) {r = r} h =
    ground
      (arith, scan-le max s 0 {r = r} (omega arith), scan-le max (c ∷ s) 0 {r = r} (omega arith))

pub parse-Ensures : (max : ℕ) (s : Str) → Ensures (λ r. r ≤ max) (parse max s)
parse-Ensures max s = elim (Result-cases (parse max s)) [
  | inl (e, bad) ↦ rw bad tt
  | inr (r, good) ↦ rw good (parse-le max s good)
]

-- A text whose first character is neither a digit nor `+` is no number.
pub parse-not_digit :
    (max c : ℕ) (s : Str)
    → is_ascii_digit c ≡ false
    → (c == b'+') ≡ false
    → parse max (c ∷ s) ≡ err invalid_digit
unfolding parse
parse-not_digit max c s d p = ground arith

-- A text that parses is made of digits behind an optional `+`.
pub parse-IsDigit :
    (max c : ℕ) (s : Str) {r : ℕ}
    → (c == b'+') ≡ false
    → parse max (c ∷ s) ≡ ok r
    → All IsDigit (c ∷ s)
unfolding parse
parse-IsDigit max c s {r} p h = ground (arith, scan-IsDigit max (c ∷ s) 0 {r = r})
