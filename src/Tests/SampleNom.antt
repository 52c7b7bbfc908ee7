-- ===== src/Tests/SampleNom.antt =====
-- Parsers that keep the promises of `NomLaws`, for running the model.
use libsystemd_rs.Base.{
  ℕ, Bool, false, [], ◌∷◌, ◌++◌, ◌==◌, if◌then◌else◌, is_empty, Str, codes, ok, err, ◌≡◌, refl,
  arith, ap,
}
use libsystemd_rs.Sysusers.Nom.{Nom, NomLaws, IResult, Stops, Passes, Fails, is_multispace}

-- The rest and the longest prefix that passes a test.
abbrev pub span : (ℕ → Bool) → Str → Str × Str
span p [] = ([], [])
span p (c ∷ s) = if p c then ((span p s).0, c ∷ (span p s).1) else (c ∷ s, [])

abbrev pub some_of : Str → Str × Str → IResult Str
some_of input (rest, []) = err (record { description = codes "TakeWhile1"; input = input })
some_of input (rest, c ∷ s) = ok (rest, c ∷ s)

abbrev pub strip : Str → Str → Str → IResult Str
strip whole [] s = ok (s, whole)
strip whole (t ∷ ts) [] = err (record { description = codes "Tag"; input = [] })
strip whole (t ∷ ts) (c ∷ s) =
    if t == c then strip whole ts s else err (record { description = codes "Tag"; input = c ∷ s })

abbrev pub any : Str → IResult ℕ
any [] = err (record { description = codes "End of file"; input = [] })
any (c ∷ s) = ok (s, c)

abbrev pub sample : Nom
sample = record {
  anychar = any;
  multispace0 = λ s. ok (span is_multispace s);
  multispace1 = λ s. some_of s (span is_multispace s);
  take_while1 = λ p s. some_of s (span p s);
  tag = λ t s. strip t t s;
}

span-append :
    (p : ℕ → Bool) (s rest : Str) → Passes p s → Stops p rest → span p (s ++ rest) ≡ (rest, s)
span-append p [] [] h k = refl
span-append p [] (c ∷ rest) h k = rw k
span-append p (c ∷ s) rest (h, hs) k = rw (h, span-append p s rest hs k)

span-Stops : (p : ℕ → Bool) (s : Str) → Stops p s → span p s ≡ (s, [])
span-Stops p [] h = refl
span-Stops p (c ∷ s) h = rw h

some_of-span :
    (p : ℕ → Bool) (s rest : Str)
    → is_empty s ≡ false
    → Passes p s
    → Stops p rest
    → some_of (s ++ rest) (span p (s ++ rest)) ≡ ok (rest, s)
some_of-span p [] rest full h k = absurd (cc)
some_of-span p (c ∷ s) rest full h k = rw (span-append p (c ∷ s) rest h k)

some_of-Stops : (p : ℕ → Bool) (s : Str) → Stops p s → Fails (some_of s (span p s))
some_of-Stops p s h =
    (record { description = codes "TakeWhile1"; input = s }, ap (some_of s) (span-Stops p s h))

strip-append : (whole t rest : Str) → strip whole t (t ++ rest) ≡ ok (rest, whole)
strip-append whole [] rest = refl
strip-append whole (c ∷ t) rest = ground (arith, strip-append whole t rest)

strip_other : (c d : ℕ) (s : Str) → (c == d) ≡ false → Fails (strip (c ∷ []) (c ∷ []) (d ∷ s))
strip_other c d s h = (record { description = codes "Tag"; input = d ∷ s }, rw h)

pub sample_laws : NomLaws sample
sample_laws = record {
  anychar_some = λ c s. refl;
  anychar_none = (record { description = codes "End of file"; input = [] }, refl);
  multispace0_some = λ s rest h k. ap ok (span-append is_multispace s rest h k);
  multispace1_some = λ s rest full h k. some_of-span is_multispace s rest full h k;
  multispace1_none = λ s h. some_of-Stops is_multispace s h;
  take_while1_some = λ p s rest full h k. some_of-span p s rest full h k;
  take_while1_none = λ p s h. some_of-Stops p s h;
  tag_some = λ t rest. strip-append t t rest;
  tag_none = λ c d s h. strip_other c d s h;
  tag_end = λ c. (record { description = codes "Tag"; input = [] }, refl);
}
