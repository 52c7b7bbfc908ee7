-- ===== src/Unit/Components.antt =====
-- What trimming and squeezing slashes does to a path: the result depends only on the path's
-- components, the non-empty parts between slashes.
use libsystemd_rs.Base.{
  ℕ, Bool, true, false, not, List, [], ◌∷◌, ◌++◌, is_empty, keep, Str, Bytes, bytes, utf8_char,
  split, trim_start, trim_end, ◌≡◌, refl, arith, ap, ◌∙◌, ◌⊎◌, inl, inr, Bool-cases, ℕ,
}
use libsystemd_rs.Unit.{is_slash, squeeze, trim_slashes}

abbrev pub is_named : Bytes → Bool
is_named p = not (is_empty p)

-- The non-empty parts between slashes.
abbrev pub components : Bytes → List Bytes
components s = keep is_named (split b'/' s)

-- Each part behind a slash.
abbrev pub lead : List Bytes → Bytes
lead [] = []
lead (p ∷ ps) = b'/' ∷ (p ++ lead ps)

-- Parts with a slash between two of them.
abbrev pub join_path : List Bytes → Bytes
join_path [] = []
join_path (p ∷ ps) = p ++ lead ps

-- The first part as it is, the others if they are not empty.
abbrev open_join : List Bytes → Bytes
open_join [] = []
open_join (p ∷ ps) = p ++ lead (keep is_named ps)

is_empty_join : (ws : List Bytes) → is_empty ws ≡ true → (join_path ws ≡ []) × (lead ws ≡ [])
is_empty_join [] h = (refl, refl)
is_empty_join (p ∷ ps) h = cc

lead-join_path : (ws : List Bytes) → is_empty ws ≡ false → lead ws ≡ b'/' ∷ join_path ws
lead-join_path [] h = cc
lead-join_path (p ∷ ps) h = refl

Parts-cases : (ps : List Bytes) → (ps ≡ []) ⊎ ((p : Bytes) × (qs : List Bytes) × (ps ≡ p ∷ qs))
Parts-cases [] = inl refl
Parts-cases (p ∷ qs) = inr (p, qs, refl)

module _ (c : ℕ) (s : Bytes) where
  -- A character that is no slash goes in front of the first part.
  components-other :
      is_slash c ≡ false
      → (join_path (components (c ∷ s)) ≡ c ∷ open_join (split b'/' s))
        × (open_join (split b'/' (c ∷ s)) ≡ c ∷ open_join (split b'/' s))
        × (is_empty (components (c ∷ s)) ≡ false)
  unfolding split
  components-other h = ground (arith, Parts-cases (split b'/' s))

  components-slash : is_slash c ≡ true → components (c ∷ s) ≡ components s
  unfolding split
  components-slash h = ground arith

  open_join-slash : is_slash c ≡ true → open_join (split b'/' (c ∷ s)) ≡ lead (components s)
  unfolding split
  open_join-slash h = ground arith

pub is_empty-components : (s : Bytes) → is_empty (trim_end is_slash s) ≡ is_empty (components s)
unfolding trim_end
is_empty-components [] = unfold split in refl
is_empty-components (c ∷ s) =
    ground (arith, is_empty-components s, components-other c s, components-slash c s)

-- Trimming the end and squeezing, read as a function of the components, from either state of the
-- filter.
squeeze-trim_end :
    (s : Bytes)
    → (squeeze true (trim_end is_slash s) ≡ join_path (components s))
      × (squeeze false (trim_end is_slash s) ≡ open_join (split b'/' s))
unfolding squeeze trim_end
squeeze-trim_end [] = unfold split in (refl, refl)
squeeze-trim_end (c ∷ s) = elim (Bool-cases (is_slash c)) [
  | inl slash ↦ ground (
    arith,
    squeeze-trim_end s,
    components-slash c s slash,
    open_join-slash c s slash,
    is_empty-components s,
    lead-join_path (components s),
    is_empty_join (components s),
  )
  | inr other ↦ ground (arith, squeeze-trim_end s, components-other c s other)
]

-- Trimming both ends and squeezing a path leaves its components with one slash between two.
pub squeeze-trim_slashes : (s : Bytes) → squeeze false (trim_slashes s) ≡ join_path (components s)
unfolding trim_slashes trim_start squeeze
squeeze-trim_slashes [] = (squeeze-trim_end []).0
squeeze-trim_slashes (c ∷ s) = elim (Bool-cases (is_slash c)) [
  | inl slash ↦ ground (arith, squeeze-trim_slashes s, components-slash c s slash)
  | inr other ↦ ground (arith, squeeze-trim_end (c ∷ s), components-other c s other)
]

pub is_empty-trim_slashes : (s : Bytes) → is_empty (trim_slashes s) ≡ is_empty (components s)
unfolding trim_slashes trim_start squeeze
is_empty-trim_slashes [] = is_empty-components []
is_empty-trim_slashes (c ∷ s) =
    ground (arith, is_empty-trim_slashes s, components-slash c s, is_empty-components (c ∷ s))

-- Trimming slashes of a text trims its bytes.
utf8_char-trim_start :
    (c : ℕ) (s : Bytes)
    → is_slash c ≡ false
    → trim_start is_slash (utf8_char c ++ s) ≡ utf8_char c ++ s
unfolding utf8_char trim_start
utf8_char-trim_start c s h = ground arith

utf8_char-trim_end :
    (c : ℕ) (s : Bytes)
    → is_slash c ≡ false
    → trim_end is_slash (utf8_char c ++ s) ≡ utf8_char c ++ trim_end is_slash s
unfolding utf8_char trim_end
utf8_char-trim_end c s h = ground arith

utf8_char-slash : (c : ℕ) → is_slash c ≡ true → utf8_char c ≡ c ∷ []
unfolding utf8_char
utf8_char-slash c h = ground arith

pub is_empty-bytes : (s : Str) → is_empty (bytes s) ≡ is_empty s
unfolding bytes utf8_char
is_empty-bytes [] = refl
is_empty-bytes (c ∷ s) = ground arith

bytes-trim_start : (s : Str) → bytes (trim_start is_slash s) ≡ trim_start is_slash (bytes s)
unfolding bytes trim_start
bytes-trim_start [] = refl
bytes-trim_start (c ∷ s) = elim (Bool-cases (is_slash c)) [
  | inl slash ↦ ground (arith, utf8_char-slash c slash, bytes-trim_start s)
  | inr other ↦ ground (arith, utf8_char-trim_start c (bytes s) other)
]

bytes-trim_end : (s : Str) → bytes (trim_end is_slash s) ≡ trim_end is_slash (bytes s)
unfolding bytes trim_end
bytes-trim_end [] = refl
bytes-trim_end (c ∷ s) = elim (Bool-cases (is_slash c)) [
  | inl slash ↦
      ground
        (arith, utf8_char-slash c slash, bytes-trim_end s, is_empty-bytes (trim_end is_slash s))
  | inr other ↦ ground (arith, utf8_char-trim_end c (bytes s) other, bytes-trim_end s)
]

pub bytes-trim_slashes : (s : Str) → bytes (trim_slashes s) ≡ trim_slashes (bytes s)
unfolding trim_slashes
bytes-trim_slashes s =
    bytes-trim_end (trim_start is_slash s) ∙ ap (trim_end is_slash) (bytes-trim_start s)
