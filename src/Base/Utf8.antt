-- ===== src/Base/Utf8.antt =====
-- Facts on the UTF-8 bytes of a text.
use Prim.Native.Nat.{ℕ, ◌<◌}
use mathlib.Core.List.{[], ◌∷◌, ◌++◌, append_assoc}
use mathlib.Core.Path.{◌≡◌, refl, ap, ◌∙◌, sym}
use native.Mathlib.Omega.{arith}
use libsystemd_rs.Base.Lists.{All, All-append}
use libsystemd_rs.Base.Text.{Str, Bytes, utf8_char, bytes}

-- A Unicode code point. Rust's `char` leaves out the surrogates, which no fact here needs.
abbrev pub IsChar : ℕ → Type 0
IsChar c = c < 0x11_0000

abbrev pub IsByte : ℕ → Type 0
IsByte b = b < 256

abbrev pub IsAscii : ℕ → Type 0
IsAscii c = c < 128

utf8_char-IsByte : (c : ℕ) → IsChar c → All IsByte (utf8_char c)
unfolding utf8_char
utf8_char-IsByte c h = ground arith

pub bytes-IsByte : (s : Str) → All IsChar s → All IsByte (bytes s)
unfolding bytes
bytes-IsByte [] h = tt
bytes-IsByte (c ∷ s) (h, hs) = All-append IsByte _ _ (utf8_char-IsByte c h) (bytes-IsByte s hs)

pub bytes-append : (s t : Str) → bytes (s ++ t) ≡ bytes s ++ bytes t
unfolding bytes
bytes-append [] t = refl
bytes-append (c ∷ s) t =
    ap (◌++◌ (utf8_char c)) (bytes-append s t) ∙ sym (append_assoc (utf8_char c) _ _)

-- Text of ASCII characters is its own encoding.
pub bytes-IsAscii : (s : Str) → All IsAscii s → bytes s ≡ s
unfolding bytes utf8_char
bytes-IsAscii [] h = refl
bytes-IsAscii (c ∷ s) (h, hs) = ground (arith, bytes-IsAscii s hs)

-- A character is determined by any bytes that begin with its encoding.
utf8_char-injective :
    (c d : ℕ) (s t : Bytes)
    → IsChar c
    → IsChar d
    → utf8_char c ++ s ≡ utf8_char d ++ t
    → (c ≡ d) × (s ≡ t)
unfolding utf8_char
utf8_char-injective c d s t hc hd e = ground arith

utf8_char-ne-nil : (c : ℕ) (s : Bytes) → utf8_char c ++ s ≡ [] → ⊥
unfolding utf8_char
utf8_char-ne-nil c s e = ground arith

-- No two texts have the same bytes.
pub bytes-injective : (s t : Str) → All IsChar s → All IsChar t → bytes s ≡ bytes t → s ≡ t
unfolding bytes
bytes-injective [] [] hs ht e = refl
bytes-injective [] (d ∷ t) hs ht e = absurd (utf8_char-ne-nil d _ (sym e))
bytes-injective (c ∷ s) [] hs ht e = absurd (utf8_char-ne-nil c _ e)
bytes-injective (c ∷ s) (d ∷ t) hs ht e =
    let (same, rest) = utf8_char-injective c d _ _ hs.0 ht.0 e in
    cc (bytes-injective s t hs.1 ht.1 rest)
