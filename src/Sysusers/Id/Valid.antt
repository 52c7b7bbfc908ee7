-- ===== src/Sysusers/Id/Valid.antt =====
-- What the "ID" field is read as: always a valid value.
use libsystemd_rs.Base.{
  true, starts_with, ◌≡◌, ◌≤◌, List, [], ◌∷◌, Str, keep, split, arith, Ensures,
}
use libsystemd_rs.Decimal.Accept.{parse-Ensures}
use libsystemd_rs.Decimal.{u32_max}
use libsystemd_rs.Error.{context, sd_error_display, int_error_display}
use libsystemd_rs.Sysusers.Id.{
  IdOrPath, id, uid_gid, uid_groupname, GidOrPath, gid, is_token, tokens_to_id, id_from_str,
  gid_from_str,
}
use libsystemd_rs.Sysusers.Name.Grammar.{IsName, validate-IsName}

-- Numbers fit `u32`, a group name is a name, and a path is absolute.
abbrev pub IsValidId : IdOrPath → Type 0
IsValidId (id i) = i ≤ u32_max
IsValidId (uid_gid u g) = (u ≤ u32_max) × (g ≤ u32_max)
IsValidId (uid_groupname u g) = (u ≤ u32_max) × IsName g
IsValidId (IdOrPath.path p) = starts_with b'/' p ≡ true
IsValidId IdOrPath.automatic = Unit

abbrev pub IsValidGid : GidOrPath → Type 0
IsValidGid (gid g) = g ≤ u32_max
IsValidGid (GidOrPath.path p) = starts_with b'/' p ≡ true
IsValidGid GidOrPath.automatic = Unit

tokens_to_id-IsValidId :
    (value : Str) (tokens : List Str) → Ensures IsValidId (tokens_to_id value tokens)
unfolding tokens_to_id context
tokens_to_id-IsValidId value (a ∷ b ∷ []) =
    ground (arith, parse-Ensures u32_max a, parse-Ensures u32_max b, validate-IsName b)
tokens_to_id-IsValidId value _ = tt

-- An "ID" that is read has numbers that fit, a group name of the grammar and an absolute path.
pub id_from_str-IsValidId : (value : Str) → Ensures IsValidId (id_from_str value)
unfolding id_from_str
id_from_str-IsValidId value = ground (
  arith,
  parse-Ensures u32_max value,
  tokens_to_id-IsValidId value (keep is_token (split b':' value)),
)

pub gid_from_str-IsValidGid : (value : Str) → Ensures IsValidGid (gid_from_str value)
unfolding gid_from_str
gid_from_str-IsValidGid value = ground (arith, parse-Ensures u32_max value)
