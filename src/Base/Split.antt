-- ===== src/Base/Split.antt =====
-- Facts on `split`.
use mathlib.Core.Bool.{Bool, true}
use mathlib.Core.List.{List, [], ◌∷◌, ◌++◌}
use mathlib.Core.Logic.{◌≢◌, ◌⊎◌, inl, inr}
use mathlib.Core.Path.{◌≡◌, refl}
use Prim.Native.Nat.{ℕ}
use native.Mathlib.Omega.{arith}
use libsystemd_rs.Base.Lists.{All, keep}
use libsystemd_rs.Base.Text.{Str, split}

abbrev pub Lacks : ℕ → Str → Type 0
Lacks c = All (λ x. x ≢ c)

pub List-cases {ℓ} :
    {A : Type ℓ} (ps : List A) → (ps ≡ []) ⊎ ((p : A) × (qs : List A) × (ps ≡ p ∷ qs))
List-cases [] = inl refl
List-cases (p ∷ qs) = inr (p, qs, refl)

pub split-All : (P : ℕ → Type 0) (sep : ℕ) (s : Str) → All P s → All (All P) (split sep s)
unfolding split
split-All P sep [] h = (tt, tt)
split-All P sep (c ∷ s) (h, hs) = ground (arith, List-cases (split sep s), split-All P sep s hs)

-- No part holds the separator.
pub split-Lacks : (sep : ℕ) (s : Str) → All (Lacks sep) (split sep s)
unfolding split
split-Lacks sep [] = (tt, tt)
split-Lacks sep (c ∷ s) = ground (arith, List-cases (split sep s), split-Lacks sep s)

-- Text without the separator is one part.
pub split_one : (sep : ℕ) (s : Str) → Lacks sep s → split sep s ≡ s ∷ []
unfolding split
split_one sep [] h = refl
split_one sep (c ∷ s) (h, hs) = ground (arith, split_one sep s hs)

-- Text up to the separator is the first part.
pub split_first :
    (sep : ℕ) (s rest : Str) → Lacks sep s → split sep (s ++ sep ∷ rest) ≡ s ∷ split sep rest
unfolding split
split_first sep [] rest h = ground arith
split_first sep (c ∷ s) rest (h, hs) = ground (arith, split_first sep s rest hs)

pub keep-All {ℓ κ} :
    {A : Type ℓ} (P : A → Type κ) (p : A → Bool) (xs : List A) → All P xs → All P (keep p xs)
keep-All P p [] h = tt
keep-All P p (x ∷ xs) (h, hs) = ground (arith, keep-All P p xs hs)

pub keep-true {ℓ} : {A : Type ℓ} (p : A → Bool) (xs : List A) → All (λ x. p x ≡ true) (keep p xs)
keep-true p [] = tt
keep-true p (x ∷ xs) = ground (arith, keep-true p xs)

pub keep_everything {ℓ} :
    {A : Type ℓ} (p : A → Bool) (xs : List A) → All (λ x. p x ≡ true) xs → keep p xs ≡ xs
keep_everything p [] h = refl
keep_everything p (x ∷ xs) (h, hs) = ground (arith, keep_everything p xs hs)
