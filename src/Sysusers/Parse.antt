-- ===== src/Sysusers/Parse.antt =====
-- src/sysusers/parse.rs: the parsers of a line, `FromStr` of the entries, and `parse_from_reader`.
pub mod Line
pub mod Printable
pub mod Dispatch
pub mod RoundTrip
pub mod Reader
pub mod Sound
pub mod Signature
pub mod Reread
use Prim.Native.Nat.{min}
use mathlib.Core.Option
use libsystemd_rs.Base.{
  ℕ, ◌+◌, ◌-◌, ◌^◌, Bool, true, false, not, ◌&&◌, ◌||◌, List, [], ◌∷◌, ◌++◌, Option, none, some,
  ◌==◌, if◌then◌else◌, is_empty, is_ascii_whitespace, starts_with, trim, Str, codes, Result, ok,
  err, map_err, map_ok, ◌>>=◌, ◌>>◌,
}
use libsystemd_rs.Decimal
use libsystemd_rs.Error.{SdError, ErrorKind, generic, sysusers_unknown_type, from_str}
use libsystemd_rs.Sysusers.Data.{
  SysusersData, range_try_from, member_try_from, group_try_from, user_try_from,
}
use libsystemd_rs.Sysusers.Entry.{
  AddRange, AddUserToGroup, CreateGroup, CreateUserAndGroup, SysusersEntry, add_range,
  add_user_to_group, create_group, create_user_and_group,
}
use libsystemd_rs.Sysusers.Nom.{Nom, NomError, IResult}

abbrev pub is_field_char : ℕ → Bool
is_field_char c = not (is_ascii_whitespace c)

abbrev pub is_not_quote : ℕ → Bool
is_not_quote c = not (c == b'"')

module _ (n : Nom) where
  unfoldable pub parse_quoted_string : Str → IResult (Option Str)
  parse_quoted_string input = do
    (rest, _) ← n.tag (codes "\"") input
    (rest, txt) ← n.take_while1 is_not_quote rest
    (rest, _) ← n.tag (codes "\"") rest
    ok (rest, some txt)

  unfoldable pub parse_plain_string : Str → IResult (Option Str)
  parse_plain_string input = do (rest, txt) ← n.take_while1 is_field_char input; ok (rest, some txt)

  unfoldable pub parse_opt_string : Str → IResult (Option Str)
  parse_opt_string [] = ok ([], none)
  parse_opt_string (c ∷ s) =
      if c == b'"' then parse_quoted_string (c ∷ s) else parse_plain_string (c ∷ s)

  unfoldable pub parse_line : Str → IResult SysusersData
  parse_line input = do
    (rest, kind) ← n.anychar input
    (rest, _) ← n.multispace1 rest
    (rest, name) ← n.take_while1 is_field_char rest
    (rest, _) ← n.multispace1 rest
    (rest, id) ← n.take_while1 is_field_char rest
    (rest, _) ← n.multispace0 rest
    (rest, gecos) ← parse_opt_string rest
    (rest, _) ← n.multispace0 rest
    (rest, home_dir) ← parse_opt_string rest
    (rest, _) ← n.multispace0 rest
    (rest, shell) ← parse_opt_string rest
    (rest, _) ← n.multispace0 rest
    let fields : SysusersData = record {
      kind = kind ∷ [];
      name = name;
      id = id;
      gecos = gecos;
      home_dir = home_dir;
      shell = shell;
    }
    ok (rest, fields)

  -- The text of `parsing failed due to '{}' at '{}'`
  abbrev pub failed_msg : NomError → Str
  failed_msg e =
      codes "parsing failed due to '" ++ e.description ++ codes "' at '" ++ e.input ++ codes "'"

  unfoldable pub parse_to_sysusers_data : Str → Result SdError SysusersData
  unfolding from_str
  parse_to_sysusers_data line = do
    (rest, fields) ← map_err (λ e. from_str (failed_msg e)) (parse_line line)
    if not (is_empty rest)
        then err (from_str (codes "invalid trailing data: '" ++ rest ++ codes "'"))
        else ok fields

  unfoldable pub range_from_str : Str → Result SdError AddRange
  range_from_str s = do d ← parse_to_sysusers_data s; range_try_from d

  unfoldable pub member_from_str : Str → Result SdError AddUserToGroup
  member_from_str s = do d ← parse_to_sysusers_data s; member_try_from d

  unfoldable pub group_from_str : Str → Result SdError CreateGroup
  group_from_str s = do d ← parse_to_sysusers_data s; group_try_from d

  unfoldable pub user_from_str : Str → Result SdError CreateUserAndGroup
  user_from_str s = do d ← parse_to_sysusers_data s; user_try_from d

  -- The match on `input.chars().next()`
  unfoldable pub dispatch : Str → Result SdError SysusersEntry
  unfolding from_str
  dispatch [] = err (from_str (codes "missing sysusers type signature"))
  dispatch (t ∷ s) =
      if t == b'g'
      then map_ok create_group (group_from_str (t ∷ s))
      else if t == b'm'
      then map_ok add_user_to_group (member_from_str (t ∷ s))
      else if t == b'r'
      then map_ok add_range (range_from_str (t ∷ s))
      else if t == b'u'
      then map_ok create_user_and_group (user_from_str (t ∷ s))
      else err (record {
        kind = sysusers_unknown_type;
        msg = codes "unknown sysusers type signature '" ++ t ∷ codes "'";
      })

  unfoldable pub entry_from_str : Str → Result SdError SysusersEntry
  entry_from_str s = dispatch (trim s)
