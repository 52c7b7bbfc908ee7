-- ===== src/Unit.antt =====
-- src/unit.rs: escaping of unit names and paths, like `systemd-escape`.
pub mod Unescape
pub mod Alphabet
pub mod Components
pub mod Path
pub mod Runs
pub mod Quickcheck
use libsystemd_rs.Base.{
  ℕ, zero, suc, ◌+◌, ◌-◌, ◌/◌, ◌%◌, ◌<◌, Bool, true, false, not, ◌&&◌, ◌||◌, List, [], ◌∷◌, ◌++◌,
  ltb, ◌==◌, within, if◌then◌else◌, is_empty, concat, is_ascii_digit, Str, Bytes, codes, bytes,
  trim_start, trim_end,
}

-- One digit of `{:x}`.
unfoldable pub hex_digit : ℕ → ℕ
hex_digit d = if ltb d 10 then b'0' + d else b'a' + (d - 10)

-- The characters that stay as they are at any place.
abbrev pub is_plain : ℕ → Bool
is_plain c = c == b':' || c == b'_' || is_ascii_digit c || within b'a' b'z' c || within b'A' b'Z' c

-- `escape_byte`; the last branch is `format!(r#"\x{:02x}"#, b)` of a byte.
unfoldable pub escape_byte : ℕ → ℕ → Str
escape_byte b index =
    if b == b'/'
    then b'-' ∷ []
    else if is_plain b
    then b ∷ []
    else if b == b'.' && ltb 0 index
    then b ∷ []
    else b'\\' ∷ b'x' ∷ hex_digit (b / 16) ∷ hex_digit (b % 16) ∷ []

-- `.enumerate().map(|(n, b)| escape_byte(b, n)).collect()`, from a given index on
unfoldable pub escape_each : ℕ → Bytes → List Str
escape_each n [] = []
escape_each n (b ∷ bs) = escape_byte b n ∷ escape_each (suc n) bs

-- `parts.join("")` is `concat`.
unfoldable pub escape_name : Str → Str
unfolding escape_each escape_byte
escape_name name = if is_empty name then [] else concat (escape_each 0 (bytes name))

abbrev pub is_slash : ℕ → Bool
is_slash c = c == b'/'

-- The closure of `filter` with its captured `slash_seq`.
unfoldable pub squeeze : Bool → Bytes → Bytes
squeeze slash_seq [] = []
squeeze slash_seq (b ∷ bs) =
    let rest = squeeze (is_slash b) bs in
    let res = not (is_slash b && slash_seq) in if res then b ∷ rest else rest

-- `name.trim_matches('/')`
unfoldable pub trim_slashes : Str → Str
unfolding trim_start trim_end
trim_slashes s = trim_end is_slash (trim_start is_slash s)

unfoldable pub escape_path : Str → Str
unfolding trim_slashes squeeze escape_each escape_byte
escape_path name =
    let trimmed = trim_slashes name in
    if is_empty trimmed then codes "-" else concat (escape_each 0 (squeeze false (bytes trimmed)))
