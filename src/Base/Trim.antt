-- ===== src/Base/Trim.antt =====
-- `str::trim` of a trimmed text
use libsystemd_rs.Base.Text.{Str, trim_start, trim_end, trim, is_whitespace}
use mathlib.Core.Bool.{Bool}
use mathlib.Core.List.{[], ◌∷◌}
use mathlib.Core.Path.{◌≡◌, refl}
use native.Mathlib.Omega.{arith}
use Prim.Native.Nat.{ℕ}

trim_end-trim_end : (p : ℕ → Bool) (s : Str) → trim_end p (trim_end p s) ≡ trim_end p s
unfolding trim_end
trim_end-trim_end p [] = refl
trim_end-trim_end p (c ∷ s) = ground (arith, trim_end-trim_end p s)

trim_start-trim_end :
    (p : ℕ → Bool) (s : Str)
    → trim_start p (trim_end p (trim_start p s)) ≡ trim_end p (trim_start p s)
unfolding trim_start trim_end
trim_start-trim_end p [] = refl
trim_start-trim_end p (c ∷ s) = ground (arith, trim_start-trim_end p s)

pub trim-trim : (s : Str) → trim (trim s) ≡ trim s
unfolding trim
trim-trim s =
    rw (trim_start-trim_end is_whitespace s)
      (trim_end-trim_end is_whitespace (trim_start is_whitespace s))
