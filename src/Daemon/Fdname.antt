-- ===== src/Daemon/Fdname.antt =====
-- `validate_fdname`.
use libsystemd_rs.Base.{
  ℕ, ◌≤◌, ◌<◌, Bool, not, ◌||◌, [], ◌∷◌, ◌++◌, ltb, ◌==◌, if◌then◌else◌, length, Str, codes, len,
  Result, ok, err, All, All-map, IsAscii, bytes-IsAscii, ◌≡◌, ◌≢◌, ◌↔◌, refl, arith, ap,
}
use libsystemd_rs.Error.{SdError, from_str}

abbrev pub is_ascii : ℕ → Bool
is_ascii c = ltb c 128

-- U+0000 to U+001F, and U+007F
abbrev pub is_ascii_control : ℕ → Bool
is_ascii_control c = ltb c 32 || c == 127

longer_msg : Str → Str
longer_msg fdname = codes "fdname '" ++ (fdname ++ codes "' longer than 255 characters")

invalid_msg : ℕ → Str → Str
invalid_msg c fdname =
    codes "invalid character '" ++ c ∷ codes "' in fdname '" ++ (fdname ++ codes "'")

-- `for c in fdname.chars()`
unfoldable pub check_fdname : Str → Str → Result SdError (Unit {0})
unfolding from_str invalid_msg
check_fdname fdname [] = ok tt
check_fdname fdname (c ∷ rest) =
    let later = check_fdname fdname rest in
    if not (is_ascii c) || c == b':' || is_ascii_control c
    then err (from_str (invalid_msg c fdname))
    else later

unfoldable pub validate_fdname : Str → Result SdError (Unit {0})
unfolding from_str longer_msg check_fdname
validate_fdname fdname =
    if ltb 255 (len fdname) then err (from_str (longer_msg fdname)) else check_fdname fdname fdname

-- A character of FDNAME: printable ASCII other than the colon.
abbrev pub IsFdnameChar : ℕ → Type 0
IsFdnameChar c = (32 ≤ c) × (c < 127) × (c ≢ b':')

-- The rule of sd_pid_notify_with_fds(3): at most 255 characters, none of them a colon, a control or
-- outside of ASCII.
abbrev pub IsFdname : Str → Type 0
IsFdname s = All IsFdnameChar s × (length s ≤ 255)

check_fdname-IsFdnameChar : (f s : Str) → check_fdname f s ≡ ok tt → All IsFdnameChar s
unfolding check_fdname
check_fdname-IsFdnameChar f [] h = tt
check_fdname-IsFdnameChar f (c ∷ s) h = ground (arith, check_fdname-IsFdnameChar f s)

IsFdnameChar-check_fdname : (f s : Str) → All IsFdnameChar s → check_fdname f s ≡ ok tt
unfolding check_fdname
IsFdnameChar-check_fdname f [] h = refl
IsFdnameChar-check_fdname f (c ∷ s) (h, hs) = ground (arith, IsFdnameChar-check_fdname f s hs)

pub IsFdnameChar-IsAscii : (s : Str) → All IsFdnameChar s → All IsAscii s
IsFdnameChar-IsAscii s h = All-map s (λ c (lo, hi, _). omega (arith, hi)) h

validate-IsFdname : (s : Str) → validate_fdname s ≡ ok tt → IsFdname s
unfolding validate_fdname
validate-IsFdname s h =
    let chars = check_fdname-IsFdnameChar s s (ground arith) in
    let same = bytes-IsAscii s (IsFdnameChar-IsAscii s chars) in
    (chars, ground (arith, ap length same))

IsFdname-validate : (s : Str) → IsFdname s → validate_fdname s ≡ ok tt
unfolding validate_fdname
IsFdname-validate s (chars, le) =
    let same = bytes-IsAscii s (IsFdnameChar-IsAscii s chars) in
    ground (arith, ap length same, IsFdnameChar-check_fdname s s chars)

-- A name of a file descriptor is accepted exactly if it has at most 255 characters, each printable
-- ASCII other than the colon.
pub validate_fdname_iff : (s : Str) → (validate_fdname s ≡ ok tt) ↔ IsFdname s
validate_fdname_iff s = (validate-IsFdname s, IsFdname-validate s)
