-- ===== src/Sysusers/Name.antt =====
-- src/sysusers/mod.rs: `validate_name_strict`.
pub mod Grammar
use libsystemd_rs.Base.{
  ℕ, ◌+◌, Bool, true, false, not, ◌&&◌, ◌||◌, [], ◌∷◌, ◌++◌, ltb, ◌==◌, if◌then◌else◌, is_empty,
  is_ascii_alphabetic, is_ascii_alphanumeric, length, Str, codes, utf8_char, len, Result, ok, err,
}
use libsystemd_rs.Error.{SdError, from_str}

starting_msg : ℕ → Str → Str
starting_msg ch input =
    codes "invalid starting character '" ++ ch ∷ codes "' in sysusers name '" ++ input ++ codes "'"

invalid_msg : ℕ → Str → Str
invalid_msg ch input =
    codes "invalid character '" ++ ch ∷ codes "' in sysusers name '" ++ input ++ codes "'"

pub overlong_msg : Str → Str
overlong_msg input =
    codes "overlong sysusers name '" ++ input ++ codes "' (more than 31 characters)"

-- `for (index, ch) in input.char_indices()`: the index counts bytes.
unfoldable pub check_chars : Str → ℕ → Str → Result SdError (Unit {0})
unfolding from_str starting_msg invalid_msg
check_chars input index [] = ok tt
check_chars input index (ch ∷ rest) =
    let later = check_chars input (index + length (utf8_char ch)) rest in
    if index == 0
    then if not (is_ascii_alphabetic ch || ch == b'_')
      then err (from_str (starting_msg ch input))
      else later
    else if not (is_ascii_alphanumeric ch || ch == b'_' || ch == b'-')
    then err (from_str (invalid_msg ch input))
    else later

unfoldable pub validate_name_strict : Str → Result SdError (Unit {0})
unfolding from_str overlong_msg
validate_name_strict input =
    if is_empty input
    then err (from_str (codes "empty name"))
    else if ltb 31 (len input)
    then err (from_str (overlong_msg input))
    else check_chars input 0 input
