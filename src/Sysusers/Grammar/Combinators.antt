-- ===== src/Sysusers/Grammar/Combinators.antt =====
-- What nom's parsers return, by the laws of `NomLaws`: exactly the longest beginnings of their kind.
use libsystemd_rs.Base.{
  ℕ, true, [], ◌∷◌, ◌==◌, is_empty, Bool, Str, ok, ◌≡◌, ◌↔◌, refl, sym, ap, arith, Bool-cases, inl,
  inr, ==_iff,
}
use mathlib.Core.Path.{subst}
use libsystemd_rs.Sysusers.Grammar.{Longest, Longest1}
use libsystemd_rs.Sysusers.Nom.{Nom, NomLaws, IResult, Stops, is_multispace}

-- Every text has a longest beginning of each kind.
pub longest : (p : ℕ → Bool) (s : Str) → (value : Str) × (rest : Str) × Longest p s rest value
longest p [] = ([], [], (refl, tt, tt))
longest p (c ∷ s) = elim (Bool-cases (p c)) [
  | inl passes ↦
      let (value, rest, (same, all, stops)) = longest p s in
      (c ∷ value, rest, (ap (◌∷◌ c) same, (passes, all), stops))
  | inr stops ↦ ([], c ∷ s, (refl, tt, stops))
]

-- An empty longest beginning says that the text stops there.
empty-Stops :
    (p : ℕ → Bool) (s rest value : Str) → Longest p s rest value → is_empty value ≡ true → Stops p s
empty-Stops p s rest [] (same, all, stops) h = subst (Stops p) (sym same) stops
empty-Stops p s rest (c ∷ value) l h = absurd (cc h)

-- Nothing begins an empty text.
pub not-Longest1-nil : (p : ℕ → Bool) (rest value : Str) → ¬ Longest1 p [] rest value
not-Longest1-nil p rest [] (full, _) = cc
not-Longest1-nil p rest (c ∷ value) (full, longest) = cc (longest.0)

-- A result of a parser is the only one.
only :
    {r : IResult Str} {rest rest' value value' : Str} (P : Str → Str → Type 0)
    → r ≡ ok (rest, value)
    → r ≡ ok (rest', value')
    → P rest value
    → P rest' value'
only {rest} {rest'} {value} {value'} P h k holds =
    let same : rest ≡ rest' = cc in
    let also : value ≡ value' = cc in subst (λ r. P r value') same (subst (P rest) also holds)

module _ (n : Nom) (laws : NomLaws n) where
  pub anychar_iff : (s rest : Str) (c : ℕ) → (n.anychar s ≡ ok (rest, c)) ↔ (s ≡ c ∷ rest)
  anychar_iff [] rest c = let (e, bad) = laws.anychar_none in (λ h. cc, λ h. cc)
  anychar_iff (x ∷ s) rest c = (λ h. cc (laws.anychar_some x s), λ h. cc (laws.anychar_some x s))

  multispace0_of :
      (s rest value : Str) → Longest is_multispace s rest value → n.multispace0 s ≡ ok (rest, value)
  multispace0_of s rest value (same, all, stops) =
      rw same (laws.multispace0_some value rest all stops)

  pub multispace0_iff :
      (s rest value : Str)
      → (n.multispace0 s ≡ ok (rest, value)) ↔ Longest is_multispace s rest value
  multispace0_iff s rest value =
      let (v, r, l) = longest is_multispace s in
      (
        λ h. only (Longest is_multispace s) (multispace0_of s r v l) h l,
        λ l. multispace0_of s rest value l,
      )

  multispace1_of :
      (s rest value : Str)
      → Longest1 is_multispace s rest value
      → n.multispace1 s ≡ ok (rest, value)
  multispace1_of s rest value (full, (same, all, stops)) =
      rw same (laws.multispace1_some value rest full all stops)

  pub multispace1_iff :
      (s rest value : Str)
      → (n.multispace1 s ≡ ok (rest, value)) ↔ Longest1 is_multispace s rest value
  multispace1_iff s rest value =
      let (v, r, l) = longest is_multispace s in
      (
        λ h. elim (Bool-cases (is_empty v)) [
          | inl empty ↦
              let (e, bad) = laws.multispace1_none s (empty-Stops is_multispace s r v l empty) in cc
          | inr full ↦ only (Longest1 is_multispace s) (multispace1_of s r v (full, l)) h (full, l)
        ],
        λ l. multispace1_of s rest value l,
      )

  take_while1_of :
      (p : ℕ → Bool) (s rest value : Str)
      → Longest1 p s rest value
      → n.take_while1 p s ≡ ok (rest, value)
  take_while1_of p s rest value (full, (same, all, stops)) =
      rw same (laws.take_while1_some p value rest full all stops)

  pub take_while1_iff :
      (p : ℕ → Bool) (s rest value : Str)
      → (n.take_while1 p s ≡ ok (rest, value)) ↔ Longest1 p s rest value
  take_while1_iff p s rest value =
      let (v, r, l) = longest p s in
      (
        λ h. elim (Bool-cases (is_empty v)) [
          | inl empty ↦ let (e, bad) = laws.take_while1_none p s (empty-Stops p s r v l empty) in cc
          | inr full ↦ only (Longest1 p s) (take_while1_of p s r v (full, l)) h (full, l)
        ],
        λ l. take_while1_of p s rest value l,
      )

  -- The tag of one character
  pub tag_iff :
      (c : ℕ) (s rest value : Str)
      → (n.tag (c ∷ []) s ≡ ok (rest, value)) ↔ ((s ≡ c ∷ rest) × (value ≡ c ∷ []))
  tag_iff c [] rest value = let (e, bad) = laws.tag_end c in (λ h. cc, λ h. cc (h.0))
  tag_iff c (x ∷ s) rest value = elim (Bool-cases (c == x)) [
    | inl same ↦
        let eq : c ≡ x = (==_iff c x).0 same in
        let found : n.tag (c ∷ []) (x ∷ s) ≡ ok (s, c ∷ []) =
          rw (← eq) (laws.tag_some (c ∷ []) s) in
        (λ h. (cc, cc), λ (h, k). cc (found, h, k))
    | inr differs ↦
        let (e, bad) = laws.tag_none c x s differs in (λ h. cc, λ h. ground (arith, ==_iff c x))
  ]
