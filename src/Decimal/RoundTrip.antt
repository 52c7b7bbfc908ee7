-- ===== src/Decimal/RoundTrip.antt =====
-- A printed number is read back.
use libsystemd_rs.Base.{
  ℕ, zero, suc, ◌+◌, ◌/◌, ◌%◌, ◌≤◌, ◌<◌, false, [], ◌∷◌, is_empty, Str, ok, ◌≡◌, arith, All, ◌∙◌,
}
use libsystemd_rs.Decimal.Accept.{IsDigit}
use libsystemd_rs.Decimal.{digits, display, scan, parse}

digits-IsDigit : (fuel n : ℕ) (out : Str) → All IsDigit out → All IsDigit (digits fuel n out)
unfolding digits
digits-IsDigit zero n out h = h
digits-IsDigit (suc f) n out h = ground (arith, digits-IsDigit f (n / 10) ((b'0' + n % 10) ∷ out))

digits-not_empty :
    (fuel n : ℕ) (out : Str) → is_empty out ≡ false → is_empty (digits fuel n out) ≡ false
unfolding digits
digits-not_empty zero n out h = h
digits-not_empty (suc f) n out h =
    ground (arith, digits-not_empty f (n / 10) ((b'0' + n % 10) ∷ out))

pub display-IsDigit : (n : ℕ) → All IsDigit (display n)
unfolding display
display-IsDigit n = digits-IsDigit (suc n) n [] tt

pub display-not_empty : (n : ℕ) → is_empty (display n) ≡ false
unfolding display
display-not_empty n = ground (arith, digits-not_empty n (n / 10) ((b'0' + n % 10) ∷ []))

-- Reading the last digit of `n` after the digits before it gives `n`.
scan_last :
    (max n : ℕ) (out : Str) → n ≤ max → scan max ((b'0' + n % 10) ∷ out) (n / 10) ≡ scan max out n
unfolding scan
scan_last max n out h = ground arith

scan_first :
    (max n : ℕ) (out : Str) → n ≤ max → n < 10 → scan max ((b'0' + n) ∷ out) 0 ≡ scan max out n
unfolding scan
scan_first max n out h k = ground arith

scan-digits :
    (max fuel n : ℕ) (out : Str)
    → n ≤ max
    → n < fuel
    → scan max (digits fuel n out) 0 ≡ scan max out n
unfolding digits
scan-digits max zero n out h k = absurd (omega arith)
scan-digits max (suc f) n out h k = ground (
  arith,
  scan-digits max f (n / 10) ((b'0' + n % 10) ∷ out),
  scan_last max n out,
  scan_first max n out,
)

parse-scan : (max : ℕ) (s : Str) → All IsDigit s → is_empty s ≡ false → parse max s ≡ scan max s 0
unfolding parse
parse-scan max [] d h = cc
parse-scan max (c ∷ s) d h = ground arith

pub parse-display : (max n : ℕ) → n ≤ max → parse max (display n) ≡ ok n
unfolding display scan
parse-display max n h =
    parse-scan max _ (digits-IsDigit (suc n) n [] tt) (display-not_empty n)
    ∙ scan-digits max (suc n) n [] h (omega arith)
