-- ===== src/Unit/Unescape.antt =====
-- The inverse of escaping, as `systemd-escape --unescape` reads a name: `-` is a slash, `\xhh` is the
-- byte with that code, any other character is itself. This is the independent description that the
-- escaping functions are held to.
use libsystemd_rs.Base.{
  ℕ, suc, ◌+◌, ◌-◌, ◌*◌, ◌/◌, ◌%◌, ◌<◌, [], ◌∷◌, ◌++◌, Option, none, some, ◌==◌, within,
  if◌then◌else◌, concat, is_ascii_digit, All, Str, Bytes, bytes, ◌≡◌, refl, arith, append_assoc,
  ◌∙◌, append-nil, ap, IsByte, IsChar, bytes-IsByte, bytes-injective,
}
use libsystemd_rs.Unit.{hex_digit, escape_byte, escape_each, escape_name}

-- What the reader has seen of an escape.
pub data Mode : Type 0 where
  plain after_backslash after_x : Mode
  after_digit : ℕ → Mode

hex_value : ℕ → Option ℕ
hex_value c =
    if is_ascii_digit c
    then some (c - b'0')
    else if within b'a' b'f' c
    then some (c - b'a' + 10)
    else none

-- The next mode and the bytes that are complete.
next : Mode → ℕ → Option (Mode × Bytes)
unfolding hex_value
next plain c =
    if c == b'-'
    then some (plain, b'/' ∷ [])
    else if c == b'\\'
    then some (after_backslash, [])
    else some (plain, c ∷ [])
next after_backslash c = if c == b'x' then some (after_x, []) else none
next after_x c = elim (hex_value c) [ none ↦ none | some d ↦ some (after_digit d, []) ]
next (after_digit h) c = elim (hex_value c) [
  | none ↦ none
  | some d ↦ some (plain, (h * 16 + d) ∷ [])
]

-- The accumulator holds the bytes so far.
read : Mode → Bytes → Str → Option Bytes
unfolding next
read plain out [] = some out
read m out [] = none
read m out (c ∷ s) = elim (next m c) [ none ↦ none | some (m', done) ↦ read m' (out ++ done) s ]

pub unescape : Str → Option Bytes
unfolding read
unescape s = read plain [] s

-- Reading a hexadecimal digit gives its value.
hex_value-hex_digit : (d : ℕ) → d < 16 → hex_value (hex_digit d) ≡ some d
unfolding hex_value hex_digit
hex_value-hex_digit d h = ground arith

read_hex :
    (b : ℕ) (out rest : Bytes)
    → IsByte b
    → read plain out (b'\\' ∷ b'x' ∷ hex_digit (b / 16) ∷ hex_digit (b % 16) ∷ rest)
      ≡ read plain (out ++ b ∷ []) rest
unfolding read next hex_value
read_hex b out rest h = ground (
  arith,
  hex_value-hex_digit (b / 16),
  hex_value-hex_digit (b % 16),
  append-nil out,
  append-nil (out ++ []),
)

read-escape_byte :
    (b n : ℕ) (out rest : Bytes)
    → IsByte b
    → read plain out (escape_byte b n ++ rest) ≡ read plain (out ++ b ∷ []) rest
unfolding read next escape_byte
read-escape_byte b n out rest h = ground (arith, read_hex b out rest)

read-escape_each :
    (bs : Bytes) (n : ℕ) (out : Bytes)
    → All IsByte bs
    → read plain out (concat (escape_each n bs)) ≡ some (out ++ bs)
unfolding escape_each
read-escape_each [] n out h = rw append-nil (unfold read in refl)
read-escape_each (b ∷ bs) n out (h, hs) =
    read-escape_byte b n out _ h
    ∙ read-escape_each bs (suc n) (out ++ b ∷ []) hs
    ∙ ap some (append_assoc out (b ∷ []) bs)

pub unescape-escape_each :
    (n : ℕ) (bs : Bytes) → All IsByte bs → unescape (concat (escape_each n bs)) ≡ some bs
unfolding unescape
unescape-escape_each n bs h = read-escape_each bs n [] h

-- Unescaping an escaped name gives the bytes of the name, for every text of Unicode characters.
pub unescape-escape_name : (s : Str) → All IsChar s → unescape (escape_name s) ≡ some (bytes s)
unfolding escape_name
unescape-escape_name [] h = unfold unescape read bytes in refl
unescape-escape_name (c ∷ s) h = unescape-escape_each 0 _ (bytes-IsByte (c ∷ s) h)

-- No two names of Unicode characters have the same escaped form.
pub escape_name-injective :
    (s t : Str) → All IsChar s → All IsChar t → escape_name s ≡ escape_name t → s ≡ t
escape_name-injective s t hs ht e =
    bytes-injective s t hs ht (cc (unescape-escape_name s hs, unescape-escape_name t ht))
