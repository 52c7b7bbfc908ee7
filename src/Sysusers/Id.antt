-- ===== src/Sysusers/Id.antt =====
-- src/sysusers/mod.rs and src/sysusers/format.rs: the "ID" field, `IdOrPath` and `GidOrPath`, with
-- their `FromStr` and `Display`. A path is its text: paths that are not UTF-8 are left out.
pub mod Valid
pub mod RoundTrip
use libsystemd_rs.Base.{
  ℕ, Bool, true, false, List, [], ◌∷◌, ◌++◌, ◌==◌, if◌then◌else◌, is_empty, not, keep, starts_with,
  Str, codes, equal, split, Result, ok, err, ◌>>=◌, ◌>>◌,
}
use libsystemd_rs.Decimal
use libsystemd_rs.Decimal.{u32_max}
use libsystemd_rs.Error.{SdError, from_str, context, sd_error_display, int_error_display}
use libsystemd_rs.Sysusers.Name.{validate_name_strict}

abbrev pub FilePath : Type 0
FilePath = Str

-- `str::parse::<u32>`
abbrev pub parse_u32 : Str → Result Decimal.IntError ℕ
parse_u32 = Decimal.parse u32_max

pub data IdOrPath : Type 0 where
  id : ℕ → IdOrPath
  uid_gid : ℕ → ℕ → IdOrPath
  uid_groupname : ℕ → Str → IdOrPath
  path : FilePath → IdOrPath
  automatic : IdOrPath

pub data GidOrPath : Type 0 where
  gid : ℕ → GidOrPath
  path : FilePath → GidOrPath
  automatic : GidOrPath

abbrev pub is_token : Str → Bool
is_token s = not (is_empty s)

-- The second token of `uid:gid` or `uid:groupname`.
unfoldable pub group_of : ℕ → Str → Result SdError IdOrPath
group_of uid token = elim (parse_u32 token) [
  | ok group ↦ ok (uid_gid uid group)
  | err _ ↦ do
    context (codes "name failed validation") (validate_name_strict token)
    ok (uid_groupname uid token)
]

unfoldable pub tokens_to_id : Str → List Str → Result SdError IdOrPath
unfolding from_str group_of
tokens_to_id value (first ∷ second ∷ []) = do
  uid ← context (codes "invalid user id") (parse_u32 first)
  group_of uid second
tokens_to_id value _ = err (from_str (codes "unexpected user ID '" ++ value ++ codes "'"))

unfoldable pub id_from_str : Str → Result SdError IdOrPath
id_from_str value =
    if equal value (codes "-")
    then ok automatic
    else if starts_with b'/' value
    then ok (path value)
    else elim (parse_u32 value) [
      | ok single_id ↦ ok (id single_id)
      | err _ ↦ tokens_to_id value (keep is_token (split b':' value))
    ]

unfoldable pub gid_from_str : Str → Result SdError GidOrPath
unfolding from_str
gid_from_str value =
    if equal value (codes "-")
    then ok automatic
    else if starts_with b'/' value
    then ok (path value)
    else elim (parse_u32 value) [
      | ok parsed_gid ↦ ok (gid parsed_gid)
      | err _ ↦ err (from_str (codes "unexpected group ID '" ++ value ++ codes "'"))
    ]

unfoldable pub display_id : IdOrPath → Str
display_id (id i) = Decimal.display i
display_id (uid_gid u g) = Decimal.display u ++ b':' ∷ Decimal.display g
display_id (uid_groupname u g) = Decimal.display u ++ b':' ∷ g
display_id (path p) = p
display_id automatic = codes "-"

unfoldable pub display_gid : GidOrPath → Str
display_gid (gid g) = Decimal.display g
display_gid (path p) = p
display_gid automatic = codes "-"
