-- ===== src/Sysusers/Id/RoundTrip.antt =====
-- The "ID" field is read back from its print.
use libsystemd_rs.Base.{
  ℕ, ◌≤◌, true, false, [], ◌∷◌, ◌++◌, is_empty, keep, starts_with, Str, codes, equal, split,
  split_one, split_first, Lacks, keep_everything, ok, err, All, All-map, ◌≡◌, ◌≢◌, refl, arith, ap,
  ◌∙◌, inl, inr, Result-cases,
}
use libsystemd_rs.Decimal
use libsystemd_rs.Decimal.Accept.{IsDigit, parse-IsDigit, parse-not_digit}
use libsystemd_rs.Decimal.RoundTrip.{display-IsDigit, display-not_empty, parse-display}
use libsystemd_rs.Decimal.{u32_max}
use libsystemd_rs.Error.{context, sd_error_display, int_error_display}
use libsystemd_rs.Sysusers.Id.{
  parse_u32, IdOrPath, id, uid_gid, uid_groupname, GidOrPath, gid, is_token, tokens_to_id,
  id_from_str, gid_from_str, display_id, display_gid,
}
use libsystemd_rs.Sysusers.Name.Grammar.{IsName, IsName-validate, IsNameChar}
use libsystemd_rs.Sysusers.Name.{validate_name_strict}

-- Numbers that fit `u32`, names of the grammar, absolute paths.
abbrev pub IsCanonicalId : IdOrPath → Type 0
IsCanonicalId (id i) = i ≤ u32_max
IsCanonicalId (uid_gid u g) = (u ≤ u32_max) × (g ≤ u32_max)
IsCanonicalId (uid_groupname u g) = (u ≤ u32_max) × IsName g
IsCanonicalId (IdOrPath.path p) = starts_with b'/' p ≡ true
IsCanonicalId IdOrPath.automatic = Unit

abbrev pub IsCanonicalGid : GidOrPath → Type 0
IsCanonicalGid (gid g) = g ≤ u32_max
IsCanonicalGid (GidOrPath.path p) = starts_with b'/' p ≡ true
IsCanonicalGid GidOrPath.automatic = Unit

-- What `from_str` does first with a text that starts with a digit.
abbrev StartsWithDigit : Str → Type 0
StartsWithDigit [] = ⊥
StartsWithDigit (c ∷ s) = IsDigit c

digit_no_marker :
    (s : Str)
    → StartsWithDigit s
    → (equal s (codes "-") ≡ false) × (starts_with b'/' s ≡ false) × (is_empty s ≡ false)
unfolding equal
digit_no_marker [] h = absurd h
digit_no_marker (c ∷ s) h = ground arith

digit_append : (s t : Str) → StartsWithDigit s → StartsWithDigit (s ++ t)
digit_append [] t h = absurd h
digit_append (c ∷ s) t h = h

digits-StartsWithDigit : (s : Str) → All IsDigit s → is_empty s ≡ false → StartsWithDigit s
digits-StartsWithDigit [] h k = cc
digits-StartsWithDigit (c ∷ s) h k = h.0

display-StartsWithDigit : (n : ℕ) → StartsWithDigit (Decimal.display n)
display-StartsWithDigit n = digits-StartsWithDigit _ (display-IsDigit n) (display-not_empty n)

digits-Lacks : (s : Str) → All IsDigit s → Lacks b':' s
digits-Lacks s h = All-map s (λ c d e. digit_no_colon c d e) h
  where
    digit_no_colon : (c : ℕ) → IsDigit c → c ≢ b':'
    digit_no_colon c d = ground arith

All-second : (P : ℕ → Type 0) (s : Str) (c : ℕ) (t : Str) → All P (s ++ c ∷ t) → P c
All-second P [] c t h = h.0
All-second P (x ∷ s) c t h = All-second P s c t h.1

-- A text with a colon in it is no number.
colon_no_number :
    (s t : Str) → StartsWithDigit s → (e : Decimal.IntError) × (parse_u32 (s ++ b':' ∷ t) ≡ err e)
colon_no_number [] t h = absurd h
colon_no_number (c ∷ s) t h = elim (Result-cases (parse_u32 ((c ∷ s) ++ b':' ∷ t))) [
  | inl bad ↦ bad
  | inr (r, good) ↦
      let colon : IsDigit b':' =
        All-second IsDigit (c ∷ s) b':' t (parse-IsDigit u32_max c _ {r = r} (ground arith) good) in
      cc
]

-- A name is no number.
name_no_number : (s : Str) → IsName s → (e : Decimal.IntError) × (parse_u32 s ≡ err e)
name_no_number [] h = absurd h
name_no_number (c ∷ s) h = (_, parse-not_digit u32_max c s (ground arith) (ground arith))

-- `uid:` and a token without a colon reach `tokens_to_id` as two tokens.
id_from_str-tokens :
    (u : ℕ) (token : Str)
    → Lacks b':' token
    → is_empty token ≡ false
    → let text = Decimal.display u ++ b':' ∷ token in
      id_from_str text ≡ tokens_to_id text (Decimal.display u ∷ token ∷ [])
unfolding id_from_str
id_from_str-tokens u token lacks full =
    let first = Decimal.display u in
    let text = first ++ b':' ∷ token in
    let digit = display-StartsWithDigit u in
    let (no_dash, no_slash, _) = digit_no_marker text (digit_append first (b':' ∷ token) digit) in
    let (_, bad) = colon_no_number first token digit in
    let parts : split b':' text ≡ first ∷ token ∷ [] =
      split_first b':' first token (digits-Lacks first (display-IsDigit u))
      ∙ ap (◌∷◌ first) (split_one b':' token lacks) in
    let kept : keep is_token (first ∷ token ∷ []) ≡ first ∷ token ∷ [] =
      keep_everything is_token (first ∷ token ∷ []) (ground (arith, display-not_empty u)) in
    rw (no_dash, no_slash, bad, parts) (ap (tokens_to_id text) kept)

name-Lacks : (s : Str) → IsName s → Lacks b':' s × (is_empty s ≡ false)
name-Lacks [] h = absurd h
name-Lacks (c ∷ s) (h, hs, _) = ((ground arith, All-map s name_no_colon hs), refl)
  where
    name_no_colon : (c : ℕ) → IsNameChar c → c ≢ b':'
    name_no_colon c h = ground arith

-- The two ways to read the second token, behind a user id that parses.
module _ (value first second : Str) (uid : ℕ) (parsed : parse_u32 first ≡ ok uid) where
  tokens_to_gid :
      {group : ℕ}
      → parse_u32 second ≡ ok group
      → tokens_to_id value (first ∷ second ∷ []) ≡ ok (uid_gid uid group)
  unfolding tokens_to_id context
  tokens_to_gid second_parsed = ground arith

  tokens_to_groupname :
      {e : Decimal.IntError}
      → parse_u32 second ≡ err e
      → validate_name_strict second ≡ ok tt
      → tokens_to_id value (first ∷ second ∷ []) ≡ ok (uid_groupname uid second)
  unfolding tokens_to_id context
  tokens_to_groupname bad valid = ground arith

uid_gid_text :
    (u g : ℕ)
    → u ≤ u32_max
    → g ≤ u32_max
    → id_from_str (display_id (uid_gid u g)) ≡ ok (uid_gid u g)
unfolding display_id
uid_gid_text u g hu hg =
    let digit = digits-Lacks _ (display-IsDigit g) in
    id_from_str-tokens u (Decimal.display g) digit (display-not_empty g)
    ∙ tokens_to_gid _ _ _ u (parse-display u32_max u hu) (parse-display u32_max g hg)

uid_groupname_text :
    (u : ℕ) (g : Str)
    → u ≤ u32_max
    → IsName g
    → id_from_str (display_id (uid_groupname u g)) ≡ ok (uid_groupname u g)
unfolding display_id
uid_groupname_text u g hu hg =
    let (lacks, full) = name-Lacks g hg in
    let (_, bad) = name_no_number g hg in
    id_from_str-tokens u g lacks full
    ∙ tokens_to_groupname _ _ g u (parse-display u32_max u hu) bad (IsName-validate g hg)

id_text : (i : ℕ) → i ≤ u32_max → id_from_str (display_id (id i)) ≡ ok (id i)
unfolding id_from_str display_id
id_text i h =
    let (no_dash, no_slash, _) = digit_no_marker _ (display-StartsWithDigit i) in
    rw (no_dash, no_slash, parse-display u32_max i h)

absolute_no_dash : (p : Str) → starts_with b'/' p ≡ true → equal p (codes "-") ≡ false
unfolding equal
absolute_no_dash [] h = cc
absolute_no_dash (c ∷ p) h = ground arith

-- Every canonical "ID" of a user, with numbers that fit, a group name of the grammar or an absolute
-- path, is read back from its print.
pub id_from_str-display_id : (i : IdOrPath) → IsCanonicalId i → id_from_str (display_id i) ≡ ok i
id_from_str-display_id (id i) h = id_text i h
id_from_str-display_id (uid_gid u g) (hu, hg) = uid_gid_text u g hu hg
id_from_str-display_id (uid_groupname u g) (hu, hg) = uid_groupname_text u g hu hg
id_from_str-display_id (IdOrPath.path p) h =
    unfold id_from_str display_id in rw (absolute_no_dash p h, h)
id_from_str-display_id IdOrPath.automatic h = unfold id_from_str display_id equal in refl

-- Every canonical "ID" of a group, with a number that fits or an absolute path, is read back from its
-- print.
pub gid_from_str-display_gid :
    (g : GidOrPath) → IsCanonicalGid g → gid_from_str (display_gid g) ≡ ok g
unfolding gid_from_str display_gid
gid_from_str-display_gid (gid g) h =
    let (no_dash, no_slash, _) = digit_no_marker _ (display-StartsWithDigit g) in
    rw (no_dash, no_slash, parse-display u32_max g h)
gid_from_str-display_gid (GidOrPath.path p) h = rw (absolute_no_dash p h, h)
gid_from_str-display_gid GidOrPath.automatic h = unfold equal in refl
