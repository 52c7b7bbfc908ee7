-- ===== src/Tests/Sysusers.antt =====
-- src/sysusers
use libsystemd_rs.Base.{
  if◌then◌else◌, ◌≡◌, ◌↔◌, ◌+◌, length, keep, [], ◌∷◌, List, Option, none, some, refl, ap, arith,
  Str, codes, bytes, All, Result, ok, err, trim, trim_end, equal, split,
}
use libsystemd_rs.Decimal
use libsystemd_rs.Error.{SdError, generic, sysusers_unknown_type, from_str, display_error}
use libsystemd_rs.Sysusers.Data.Read.{IsCanonical}
use libsystemd_rs.Sysusers.Data.Serde.{entry_from_fields, entry_from_fields-serialize}
use libsystemd_rs.Sysusers.Data.{
  SysusersData, serialize, range_try_from, member_try_from, group_try_from, user_try_from,
  check_kind, check_automatic, ensure_field_none_or_automatic, range_ends,
}
use libsystemd_rs.Sysusers.Entry.Valid.{IsValid}
use libsystemd_rs.Sysusers.Entry.{
  SysusersEntry, CreateUserAndGroup, new_range, new_member, group_impl_new, user_impl_new,
  add_range, add_user_to_group, create_group, create_user_and_group,
}
use libsystemd_rs.Sysusers.Format.{display, path_or_dash}
use libsystemd_rs.Sysusers.Grammar.Errors.{IsRead, parse_to_sysusers_data-IsRead}
use libsystemd_rs.Sysusers.Grammar.File.{IsFile, parse_from_reader_iff}
use libsystemd_rs.Sysusers.Id.{IdOrPath, id, gid, id_from_str, gid_from_str}
use libsystemd_rs.Sysusers.Name.Grammar.{IsName, validate_name_strict_iff}
use libsystemd_rs.Sysusers.Name.{validate_name_strict, check_chars}
use libsystemd_rs.Sysusers.Parse.Dispatch.{HasUnknownLetter, entry_from_str-unknown_iff}
use libsystemd_rs.Sysusers.Parse.Printable.{dashed, Fits}
use libsystemd_rs.Sysusers.Parse.Reader.Account.{is_blank, parse_from_reader_account}
use libsystemd_rs.Sysusers.Parse.Reader.Report.{Report, parse_from_reader-Report}
use libsystemd_rs.Sysusers.Parse.Reader.{
  parse_from_reader, line_step, parsed_step, skipped_msg, parse_failed_msg,
}
use libsystemd_rs.Sysusers.Parse.Reread.{display-empty_gecos}
use libsystemd_rs.Sysusers.Parse.RoundTrip.{entry_from_str-display}
use libsystemd_rs.Sysusers.Parse.Sound.{parse_from_reader-IsValid}
use libsystemd_rs.Sysusers.Parse.{
  entry_from_str, dispatch, range_from_str, member_from_str, group_from_str, user_from_str,
  parse_to_sysusers_data, parse_line, parse_opt_string, parse_quoted_string, parse_plain_string,
}
use libsystemd_rs.Tests.SampleNom.{sample, sample_laws}

validate_cases :
    (validate_name_strict (codes "_authd") ≡ ok tt)
    × (validate_name_strict (codes "httpd") ≡ ok tt)
    × (validate_name_strict (codes "a234567890123456789012345678901") ≡ ok tt)
unfolding validate_name_strict check_chars bytes
validate_cases = (refl, refl, refl)

validate_name_strict_iff_example :
    (validate_name_strict (codes "10bar") ≡ ok tt) ↔ IsName (codes "10bar")
validate_name_strict_iff_example = validate_name_strict_iff (codes "10bar")

abbrev postgres_user : CreateUserAndGroup
postgres_user = record {
  name = codes "postgres";
  id = IdOrPath.automatic;
  gecos = codes "Postgresql Database";
  home_dir = none;
  shell = some (codes "/usr/libexec/postgresdb");
}

abbrev postgres : SysusersEntry
postgres = create_user_and_group postgres_user

abbrev input_group : SysusersEntry
input_group = create_group (record { groupname = codes "input"; gid = gid 12 })

abbrev ids : SysusersEntry
ids = add_range (record { from = 500; to = 900 })

abbrev authd : SysusersEntry
authd = add_user_to_group (record { username = codes "_authd"; groupname = codes "input" })

postgres-IsCanonical : IsCanonical postgres
postgres-IsCanonical = ground arith

postgres-Fits : Fits postgres
unfolding path_or_dash trim_end
postgres-Fits = ground arith

-- The value under a key, `none` if there is none
abbrev field : Str → List (Str × Option Str) → Option Str
field key [] = none
field key ((k, v) ∷ fields) = if equal k key then v else field key fields

abbrev required :
    Option Str → Option Str → Option Str → (Str → Str → Str → SysusersData) → Option SysusersData
required (some kind) (some name) (some number) build = some (build kind name number)
required _ _ _ _ = none

-- A reading of the six fields by their names, in any order.
abbrev six : List (Str × Option Str) → Option SysusersData
six fields =
    required (field (codes "Type") fields) (field (codes "Name") fields) (field (codes "ID") fields)
      λ kind name number. record {
        kind = kind;
        name = name;
        id = number;
        gecos = field (codes "GECOS") fields;
        home_dir = field (codes "Home directory") fields;
        shell = field (codes "Shell") fields;
      }

entry_from_fields-serialize_example :
    entry_from_fields six (serialize postgres).fields ≡ some postgres
unfolding equal
entry_from_fields-serialize_example =
    entry_from_fields-serialize six (λ d. refl) postgres postgres-IsCanonical

entry_from_str-unknown_iff_example :
    ((e : SdError) × (entry_from_str sample (codes "  x y z") ≡ err e)
      × (e.kind ≡ sysusers_unknown_type))
    ↔ HasUnknownLetter (trim (codes "  x y z"))
entry_from_str-unknown_iff_example = entry_from_str-unknown_iff sample (codes "  x y z")

entry_from_str-display_example : entry_from_str sample (display postgres) ≡ ok (dashed postgres)
entry_from_str-display_example =
    entry_from_str-display sample sample_laws postgres postgres-IsCanonical postgres-Fits

-- A file with a comment, an empty line, an unknown type and four entries.
abbrev config : List (Result Str Str)
config =
    ok (codes "#Type Name ID GECOS Home directory Shell")
    ∷ ok []
    ∷ ok (codes "g     input    12              -")
    ∷ ok (codes "z     what")
    ∷ ok (codes "m     _authd   input")
    ∷ ok (codes "r     -        500-900")
    ∷ ok (codes "u     root     0              \"Superuser\"           /root          /bin/zsh")
    ∷ []

abbrev root : SysusersEntry
root = create_user_and_group (record {
  name = codes "root";
  id = id 0;
  gecos = codes "Superuser";
  home_dir = some (codes "/root");
  shell = some (codes "/bin/zsh");
})

parse_config : parse_from_reader sample config ≡ (
  ok (input_group ∷ authd ∷ ids ∷ root ∷ []),
  codes "skipped line 4: unknown sysusers type signature 'z'" ∷ [],
)
unfolding skipped_msg parse_failed_msg from_str display_error parse_from_reader line_step
    parsed_step entry_from_str dispatch range_from_str member_from_str group_from_str user_from_str
    parse_to_sysusers_data parse_line parse_opt_string parse_quoted_string parse_plain_string
    range_try_from member_try_from group_try_from user_try_from check_kind check_automatic
    ensure_field_none_or_automatic range_ends new_range new_member group_impl_new user_impl_new
    validate_name_strict check_chars id_from_str gid_from_str trim equal split bytes Decimal.parse
    Decimal.display
parse_config = refl

parse_from_reader_iff_example :
    ((parse_from_reader sample config).0 ≡ ok (input_group ∷ authd ∷ ids ∷ root ∷ []))
    ↔ IsFile config (input_group ∷ authd ∷ ids ∷ root ∷ [])
parse_from_reader_iff_example =
    parse_from_reader_iff sample sample_laws config (input_group ∷ authd ∷ ids ∷ root ∷ [])

-- The file has a derivation.
config-IsFile : IsFile config (input_group ∷ authd ∷ ids ∷ root ∷ [])
config-IsFile =
    parse_from_reader_iff_example.0
      (ap (λ (r : Result SdError (List SysusersEntry) × List Str). r.0) parse_config)

-- A line with a seventh field
abbrev seven_fields : Str
seven_fields = codes "g input 12 - - - more"

parse_to_sysusers_data-IsRead_example :
    IsRead sample seven_fields (parse_to_sysusers_data sample seven_fields)
parse_to_sysusers_data-IsRead_example =
    parse_to_sysusers_data-IsRead sample sample_laws seven_fields

parse_from_reader-IsValid_example : All IsValid (input_group ∷ authd ∷ ids ∷ root ∷ [])
parse_from_reader-IsValid_example =
    parse_from_reader-IsValid sample config (input_group ∷ authd ∷ ids ∷ root ∷ [])
      (ap (λ (r : Result SdError (List SysusersEntry) × List Str). r.0) parse_config)

parse_from_reader_account_example :
    length (input_group ∷ authd ∷ ids ∷ root ∷ [])
      + length (parse_from_reader sample config).1
      + length (keep is_blank config)
    ≡ length config
parse_from_reader_account_example =
    parse_from_reader_account sample config (input_group ∷ authd ∷ ids ∷ root ∷ [])
      (ap (λ (r : Result SdError (List SysusersEntry) × List Str). r.0) parse_config)

-- A range of three numbers stops the reader at line 2.
abbrev broken : List (Result Str Str)
broken = ok [] ∷ ok (codes "r - 1-2-3") ∷ ok (codes "z what") ∷ []

abbrev broken_error : SdError
broken_error = record {
  kind = generic;
  msg = codes "failed to parse sysusers entry at line 2: invalid range specifier '1-2-3'";
}

parse_broken : parse_from_reader sample broken ≡ (err broken_error, [])
unfolding skipped_msg parse_failed_msg from_str display_error parse_from_reader line_step
    parsed_step entry_from_str dispatch range_from_str member_from_str group_from_str user_from_str
    parse_to_sysusers_data parse_line parse_opt_string parse_quoted_string parse_plain_string
    range_try_from member_try_from group_try_from user_try_from check_kind check_automatic
    ensure_field_none_or_automatic range_ends new_range new_member group_impl_new user_impl_new
    validate_name_strict check_chars id_from_str gid_from_str trim equal split bytes Decimal.parse
    Decimal.display
parse_broken = refl

parse_from_reader-Report_example : Report sample broken broken_error
parse_from_reader-Report_example =
    parse_from_reader-Report sample broken broken_error
      (ap (λ (r : Result SdError (List SysusersEntry) × List Str). r.0) parse_broken)

abbrev nobody : CreateUserAndGroup
nobody = record postgres_user { gecos = [] }

display-empty_gecos_example :
    (e : SdError) × (entry_from_str sample (display (create_user_and_group nobody)) ≡ err e)
display-empty_gecos_example =
    display-empty_gecos sample sample_laws nobody postgres-IsCanonical tt postgres-Fits.4 refl
