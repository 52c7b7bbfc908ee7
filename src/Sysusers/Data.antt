-- ===== src/Sysusers/Data.antt =====
-- src/sysusers/serialization.rs: the raw fields of an entry, the conversions from them and the
-- `Serialize` implementations. What serde does with a struct's fields is not modelled: `serialize`
-- gives the struct's name and its fields in the order of the `serialize_field` calls.
pub mod Convert
pub mod Read
pub mod Serde
use libsystemd_rs.Base.{
  ℕ, Bool, true, false, not, List, [], ◌∷◌, ◌++◌, Option, none, some, ◌==◌, if◌then◌else◌, Str,
  codes, equal, split, length, Result, ok, err, map_err, map_ok, ◌>>=◌, ◌>>◌,
}
use libsystemd_rs.Decimal
use libsystemd_rs.Error.{SdError, from_str}
use libsystemd_rs.Sysusers.Entry.{
  AddRange, AddUserToGroup, CreateGroup, CreateUserAndGroup, SysusersEntry, add_range,
  add_user_to_group, create_group, create_user_and_group, type_signature, new_range, new_member,
  group_impl_new, user_impl_new,
}
use libsystemd_rs.Sysusers.Id.{parse_u32, id_from_str, gid_from_str, display_id, display_gid}

pub record SysusersData : Type 0 where
  pub kind : Str
  pub name : Str
  pub id : Str
  pub gecos : Option Str
  pub home_dir : Option Str
  pub shell : Option Str

unfoldable pub ensure_field_none_or_automatic : Str → Option Str → Result SdError (Unit {0})
unfolding from_str
ensure_field_none_or_automatic field_name none = ok tt
ensure_field_none_or_automatic field_name (some val) =
    if not (equal val (codes "-"))
    then err (from_str (codes "invalid " ++ field_name ++ codes " content: '" ++ val ++ codes "'"))
    else ok tt

-- The test of `value.kind` and the three fields that must be automatic.
unfoldable pub check_kind : Str → SysusersData → Result SdError (Unit {0})
unfolding from_str
check_kind letter value =
    if not (equal value.kind letter)
    then err (from_str (codes "unexpected sysuser entry of type '" ++ value.kind ++ codes "'"))
    else ok tt

unfoldable pub check_automatic : SysusersData → Result SdError (Unit {0})
check_automatic value = do
  ensure_field_none_or_automatic (codes "GECOS") value.gecos
  ensure_field_none_or_automatic (codes "Home directory") value.home_dir
  ensure_field_none_or_automatic (codes "Shell") value.shell

-- The match on the number of tokens.
unfoldable pub range_ends : Str → List Str → Result SdError (Str × Str)
unfolding from_str
range_ends value (only ∷ []) = ok (only, only)
range_ends value (first ∷ second ∷ []) = ok (first, second)
range_ends value _ = err (from_str (codes "invalid range specifier '" ++ value ++ codes "'"))

unfoldable pub range_try_from : SysusersData → Result SdError AddRange
unfolding from_str
range_try_from value = do
  check_kind (codes "r") value
  check_automatic value
  ends ← range_ends value.id (split b'-' value.id)
  from_id ← map_err (λ _. from_str (codes "invalid starting range ID")) (parse_u32 ends.0)
  to_id ← map_err (λ _. from_str (codes "invalid ending range ID")) (parse_u32 ends.1)
  new_range from_id to_id

unfoldable pub member_try_from : SysusersData → Result SdError AddUserToGroup
member_try_from value = do
  check_kind (codes "m") value
  check_automatic value
  new_member value.name value.id

unfoldable pub group_try_from : SysusersData → Result SdError CreateGroup
group_try_from value = do
  check_kind (codes "g") value
  check_automatic value
  g ← gid_from_str value.id
  group_impl_new value.name g

-- `gecos.unwrap_or_default()`
abbrev pub unwrap_or_default : Option Str → Str
unwrap_or_default none = []
unwrap_or_default (some s) = s

unfoldable pub user_try_from : SysusersData → Result SdError CreateUserAndGroup
user_try_from value = do
  check_kind (codes "u") value
  i ← id_from_str value.id
  user_impl_new value.name (unwrap_or_default value.gecos) value.home_dir value.shell i

-- A struct as a serializer sees it: its name, and its fields in order. `none` is a null.
pub record Struct : Type 0 where
  pub struct_name : Str
  pub fields : List (Str × Option Str)

abbrev pub sysusers_fields : ℕ
sysusers_fields = 6

unfoldable pub serialize_range : AddRange → Struct
serialize_range v = record {
  struct_name = codes "AddRange";
  fields =
      (codes "Type", some (codes "r"))
      ∷ (codes "Name", some (codes "-"))
      ∷ (codes "ID", some (Decimal.display v.from ++ b'-' ∷ Decimal.display v.to))
      ∷ (codes "GECOS", none)
      ∷ (codes "Home directory", none)
      ∷ (codes "Shell", none)
      ∷ [];
}

unfoldable pub serialize_member : AddUserToGroup → Struct
serialize_member v = record {
  struct_name = codes "AddUserToGroup";
  fields =
      (codes "Type", some (codes "m"))
      ∷ (codes "Name", some (v.username))
      ∷ (codes "ID", some (v.groupname))
      ∷ (codes "GECOS", none)
      ∷ (codes "Home directory", none)
      ∷ (codes "Shell", none)
      ∷ [];
}

unfoldable pub serialize_group : CreateGroup → Struct
serialize_group v = record {
  struct_name = codes "CreateGroup";
  fields =
      (codes "Type", some (codes "g"))
      ∷ (codes "Name", some (v.groupname))
      ∷ (codes "ID", some (display_gid v.gid))
      ∷ (codes "GECOS", none)
      ∷ (codes "Home directory", none)
      ∷ (codes "Shell", none)
      ∷ [];
}

unfoldable pub serialize_user : CreateUserAndGroup → Struct
serialize_user v = record {
  struct_name = codes "CreateUserAndGroup";
  fields =
      (codes "Type", some (codes "u"))
      ∷ (codes "Name", some (v.name))
      ∷ (codes "ID", some (display_id v.id))
      ∷ (codes "GECOS", some v.gecos)
      ∷ (codes "Home directory", v.home_dir)
      ∷ (codes "Shell", v.shell)
      ∷ [];
}

-- `SysusersEntry` is untagged: an entry is written as what it holds.
unfoldable pub serialize : SysusersEntry → Struct
unfolding serialize_range serialize_member serialize_group serialize_user
serialize (add_range v) = serialize_range v
serialize (add_user_to_group v) = serialize_member v
serialize (create_group v) = serialize_group v
serialize (create_user_and_group v) = serialize_user v

-- An untagged enum takes the first of its variants that can be read, in the order of declaration;
-- serde's own error replaces theirs.
abbrev pub or_else {ℓ κ} :
    {A : Type ℓ} {B : Type κ} → (A → B) → Result SdError A → Option B → Option B
or_else f (ok a) _ = some (f a)
or_else f (err _) later = later

unfoldable pub entry_from_data : SysusersData → Option SysusersEntry
entry_from_data d = or_else add_range (range_try_from d) (
    or_else add_user_to_group (member_try_from d) (
      or_else create_group (group_try_from d)
        (or_else create_user_and_group (user_try_from d) none)))
