-- ===== src/Sysusers/Nom.antt =====
-- The parsers that src/sysusers/parse.rs takes from the nom crate: `anychar`, `multispace0` and
-- `multispace1` of `character::complete`, `tag` and `take_while1` of `bytes::complete`. They are a
-- parameter of the model; `NomLaws` is what their documentation promises.
use libsystemd_rs.Base.{
  ℕ, Bool, true, false, ◌||◌, [], ◌∷◌, ◌++◌, ◌==◌, is_empty, All, Str, Result, ok, err, ◌≡◌,
}

-- `nom::error::Error`, with the description of its code
pub record NomError : Type 0 where
  pub description : Str
  pub input : Str

-- The complete parsers never ask for more input, so that a result is the rest and a value, or an error.
abbrev pub IResult {ℓ} : Type ℓ → Type ℓ
IResult A = Result NomError (Str × A)

pub record Nom : Type 0 where
  pub anychar : Str → IResult ℕ
  pub multispace0 : Str → IResult Str
  pub multispace1 : Str → IResult Str
  pub take_while1 : (ℕ → Bool) → Str → IResult Str
  pub tag : Str → Str → IResult Str

-- Space, tab, line feed and carriage return
abbrev pub is_multispace : ℕ → Bool
is_multispace c = c == b' ' || c == b'\t' || c == b'\r' || c == b'\n'

-- The input ends, or its next character fails the test.
abbrev pub Stops : (ℕ → Bool) → Str → Type 0
Stops p [] = Unit
Stops p (c ∷ s) = p c ≡ false

abbrev pub Passes : (ℕ → Bool) → Str → Type 0
Passes p = All (λ c. p c ≡ true)

abbrev pub Fails {ℓ} : {A : Type ℓ} → IResult A → Type ℓ
Fails r = (e : NomError) × (r ≡ err e)

-- Each parser takes the longest prefix of its kind; `1` and `anychar` want one character at least.
pub record NomLaws (n : Nom) : Type 0 where
  pub anychar_some : (c : ℕ) (s : Str) → n.anychar (c ∷ s) ≡ ok (s, c)
  pub anychar_none : Fails (n.anychar [])
  pub multispace0_some :
      (s rest : Str)
      → Passes is_multispace s
      → Stops is_multispace rest
      → n.multispace0 (s ++ rest) ≡ ok (rest, s)
  pub multispace1_some :
      (s rest : Str)
      → is_empty s ≡ false
      → Passes is_multispace s
      → Stops is_multispace rest
      → n.multispace1 (s ++ rest) ≡ ok (rest, s)
  pub multispace1_none : (s : Str) → Stops is_multispace s → Fails (n.multispace1 s)
  pub take_while1_some :
      (p : ℕ → Bool) (s rest : Str)
      → is_empty s ≡ false
      → Passes p s
      → Stops p rest
      → n.take_while1 p (s ++ rest) ≡ ok (rest, s)
  pub take_while1_none : (p : ℕ → Bool) (s : Str) → Stops p s → Fails (n.take_while1 p s)
  pub tag_some : (t rest : Str) → n.tag t (t ++ rest) ≡ ok (rest, t)
  pub tag_none : (c d : ℕ) (s : Str) → (c == d) ≡ false → Fails (n.tag (c ∷ []) (d ∷ s))
  pub tag_end : (c : ℕ) → Fails (n.tag (c ∷ []) [])
