-- ===== src/Unit/Runs.antt =====
-- An escaped path has no two dashes in a row.
use libsystemd_rs.Base.{
  ℕ, suc, ◌/◌, ◌%◌, ◌<◌, Bool, true, false, ◌&&◌, ◌||◌, List, [], ◌∷◌, ◌++◌, ◌==◌, is_empty, All,
  Str, Bytes, bytes, contains, starts_with, concat, ◌≡◌, refl, arith, ◌∙◌, IsByte, IsChar,
  bytes-IsByte, Lacks, All-both, keep-All, split-Lacks, split, keep-true,
}
use libsystemd_rs.Unit.Alphabet.{
  IsUnitChar, escape_each-IsUnitChar, escape_each-no_leading_dot, IsUnitChar-no_slash,
}
use libsystemd_rs.Unit.Components.{components, lead, is_named}
use libsystemd_rs.Unit.Path.{path_of, path_of-IsByte, components-IsByte, escape_path-components}
use libsystemd_rs.Unit.{hex_digit, escape_byte, escape_each, escape_path, is_slash}

-- Whether a character stands twice in a row.
abbrev pub has_run : ℕ → Str → Bool
has_run c [] = false
has_run c (x ∷ s) = x == c && starts_with c s || has_run c s

hex_digit-no_dash : (d : ℕ) → d < 16 → (hex_digit d == b'-') ≡ false
unfolding hex_digit
hex_digit-no_dash d h = ground arith

module _ (b n : ℕ) (rest : Str) (h : IsByte b) where
  escape_byte-starts_with : starts_with b'-' (escape_byte b n ++ rest) ≡ is_slash b
  unfolding escape_byte
  escape_byte-starts_with = ground arith

  escape_byte-has_run :
      has_run b'-' (escape_byte b n ++ rest)
      ≡ (is_slash b && starts_with b'-' rest || has_run b'-' rest)
  unfolding escape_byte
  escape_byte-has_run = ground (arith, hex_digit-no_dash (b / 16), hex_digit-no_dash (b % 16))

escape_each-has_run :
    (n : ℕ) (bs : Bytes)
    → All IsByte bs
    → (has_run b'-' (concat (escape_each n bs)) ≡ has_run b'/' bs)
      × (starts_with b'-' (concat (escape_each n bs)) ≡ starts_with b'/' bs)
unfolding escape_each
escape_each-has_run n [] h = (refl, refl)
escape_each-has_run n (b ∷ bs) (h, hs) =
    let rest = concat (escape_each (suc n) bs) in
    ground (
      arith,
      escape_each-has_run (suc n) bs hs,
      escape_byte-has_run b n rest h,
      escape_byte-starts_with b n rest h,
    )

append-lead-has_run :
    (p : Bytes) (ps : List Bytes)
    → Lacks b'/' p
    → has_run b'/' (lead ps) ≡ false
    → has_run b'/' (p ++ lead ps) ≡ false
append-lead-has_run [] ps h r = r
append-lead-has_run (x ∷ p) ps (h, hs) r = ground (arith, append-lead-has_run p ps hs r)

abbrev IsPart : Bytes → Type 0
IsPart p = Lacks b'/' p × (is_named p ≡ true)

part-starts_with : (p rest : Bytes) → IsPart p → starts_with b'/' (p ++ rest) ≡ false
part-starts_with [] rest h = cc (h.1)
part-starts_with (x ∷ p) rest h = ground (arith, h.0)

lead-has_run : (ps : List Bytes) → All IsPart ps → has_run b'/' (lead ps) ≡ false
lead-has_run [] h = refl
lead-has_run (p ∷ ps) (h, hs) =
    ground
      (arith, part-starts_with p (lead ps) h, append-lead-has_run p ps h.0 (lead-has_run ps hs))

path_of-has_run : (ps : List Bytes) → All IsPart ps → has_run b'/' (path_of ps) ≡ false
path_of-has_run [] h = refl
path_of-has_run (p ∷ ps) (h, hs) = append-lead-has_run p ps h.0 (lead-has_run ps hs)

path_of-not_empty : (ps : List Bytes) → All IsPart ps → is_empty (path_of ps) ≡ false
path_of-not_empty [] h = refl
path_of-not_empty ([] ∷ ps) (h, hs) = cc (h.1)
path_of-not_empty ((x ∷ p) ∷ ps) h = refl

components-IsPart : (s : Bytes) → All IsPart (components s)
components-IsPart s =
    All-both (Lacks b'/') (λ p. is_named p ≡ true) _
      (keep-All (Lacks b'/') is_named _ (split-Lacks b'/' s)) (keep-true is_named (split b'/' s))

escape_each-not_empty :
    (bs : Bytes) → is_empty bs ≡ false → is_empty (concat (escape_each 0 bs)) ≡ false
unfolding escape_each escape_byte
escape_each-not_empty [] h = h
escape_each-not_empty (b ∷ bs) h = ground arith

-- For every text of Unicode characters the escaped path is made of unit characters alone, and is not
-- empty, holds no slash, has no two dashes in a row and does not start with a dot: the properties
-- that the source's quickcheck tests sample.
pub escape_path_shape :
    (s : Str)
    → All IsChar s
    → All IsUnitChar (escape_path s)
      × (is_empty (escape_path s) ≡ false)
      × (contains b'/' (escape_path s) ≡ false)
      × (has_run b'-' (escape_path s) ≡ false)
      × (starts_with b'.' (escape_path s) ≡ false)
escape_path_shape s h =
    let ws = components (bytes s) in
    let byte = path_of-IsByte ws (components-IsByte (bytes s) (bytes-IsByte s h)) in
    let part = components-IsPart (bytes s) in
    let unit = escape_each-IsUnitChar 0 (path_of ws) byte in
    rw escape_path-components (
      unit,
      escape_each-not_empty (path_of ws) (path_of-not_empty ws part),
      IsUnitChar-no_slash _ unit,
      (escape_each-has_run 0 (path_of ws) byte).0 ∙ path_of-has_run ws part,
      escape_each-no_leading_dot (path_of ws),
    )
