-- ===== src/Decimal/Signed.antt =====
-- `Display` and `FromStr` of `i32`, the latter with its error forgotten (`.ok()`).
use libsystemd_rs.Base.{
  ℕ, zero, suc, ◌-◌, ◌^◌, Bool, false, ◌||◌, ◌&&◌, [], ◌∷◌, Option, none, some, ◌==◌, if◌then◌else◌,
  is_empty, Str, codes, Result, ok, err, ◌≡◌, refl,
}
use libsystemd_rs.Decimal.{IntError, scan, display}

pub data ℤ : Type 0 where
  pos negsuc : ℕ → ℤ

negated : ℕ → ℤ
negated zero = pos 0
negated (suc n) = negsuc n

negative : Result IntError ℕ → Option ℤ
unfolding negated
negative (ok n) = some (negated n)
negative (err e) = none

positive : Result IntError ℕ → Option ℤ
positive (ok n) = some (pos n)
positive (err e) = none

-- The digits behind `-` may go up to `2 ^ 31`.
unfoldable pub parse_i32 : Str → Option ℤ
unfolding scan negative positive
parse_i32 [] = none
parse_i32 (c ∷ s) =
    if (c == b'+' || c == b'-') && is_empty s
    then none
    else if c == b'-'
    then negative (scan (2 ^ 31) s 0)
    else if c == b'+'
    then positive (scan (2 ^ 31 - 1) s 0)
    else positive (scan (2 ^ 31 - 1) (c ∷ s) 0)

unfoldable pub display_int : ℤ → Str
display_int (pos n) = display n
display_int (negsuc n) = b'-' ∷ display (suc n)

abbrev pub same_int : ℤ → ℤ → Bool
same_int (pos m) (pos n) = m == n
same_int (negsuc m) (negsuc n) = m == n
same_int _ _ = false

i32_cases :
    (parse_i32 (codes "2147483647") ≡ some (pos 2147483647))
    × (parse_i32 (codes "2147483648") ≡ none)
    × (parse_i32 (codes "-2147483648") ≡ some (negsuc 2147483647))
    × (parse_i32 (codes "-2147483649") ≡ none)
    × (parse_i32 (codes "-0") ≡ some (pos 0))
    × (parse_i32 (codes "-") ≡ none)
unfolding parse_i32
i32_cases = (refl, refl, refl, refl, refl, refl)
