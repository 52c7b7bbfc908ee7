-- ===== src/Sysusers/Entry.antt =====
-- src/sysusers/mod.rs: the entries, their constructors and their accessors. A `u32` is a number; its
-- bound is part of `Entry.Valid`.
pub mod Valid
use libsystemd_rs.Base.{
  ℕ, Bool, true, false, [], ◌∷◌, Option, none, some, Str, codes, Result, ok, err, ◌>>=◌, ◌>>◌,
}
use libsystemd_rs.Error.{SdError}
use libsystemd_rs.Sysusers.Id.{FilePath, IdOrPath, id, uid_gid, uid_groupname, GidOrPath, gid}
use libsystemd_rs.Sysusers.Name.{validate_name_strict}

pub record AddRange : Type 0 where
  pub from : ℕ
  pub to : ℕ

pub record AddUserToGroup : Type 0 where
  pub username : Str
  pub groupname : Str

pub record CreateGroup : Type 0 where
  pub groupname : Str
  pub gid : GidOrPath

pub record CreateUserAndGroup : Type 0 where
  pub name : Str
  pub id : IdOrPath
  pub gecos : Str
  pub home_dir : Option FilePath
  pub shell : Option FilePath

pub data SysusersEntry : Type 0 where
  add_range : AddRange → SysusersEntry
  add_user_to_group : AddUserToGroup → SysusersEntry
  create_group : CreateGroup → SysusersEntry
  create_user_and_group : CreateUserAndGroup → SysusersEntry

-- The `new` functions, one module for each type.
unfoldable pub new_range : ℕ → ℕ → Result SdError AddRange
new_range from to = ok (record { from = from; to = to })

unfoldable pub new_member : Str → Str → Result SdError AddUserToGroup
new_member username groupname = do
  validate_name_strict username
  validate_name_strict groupname
  ok (record { username = username; groupname = groupname })

-- `CreateGroup::impl_new`
unfoldable pub group_impl_new : Str → GidOrPath → Result SdError CreateGroup
group_impl_new groupname g = do
  validate_name_strict groupname
  ok (record { groupname = groupname; gid = g })

unfoldable pub new_group : Str → Result SdError CreateGroup
unfolding group_impl_new
new_group groupname = group_impl_new groupname GidOrPath.automatic

unfoldable pub new_group_with_gid : Str → ℕ → Result SdError CreateGroup
unfolding group_impl_new
new_group_with_gid groupname g = group_impl_new groupname (gid g)

unfoldable pub new_group_with_path : Str → FilePath → Result SdError CreateGroup
unfolding group_impl_new
new_group_with_path groupname path = group_impl_new groupname (GidOrPath.path path)

-- `CreateUserAndGroup::impl_new`
unfoldable pub user_impl_new :
    Str → Str → Option FilePath → Option FilePath → IdOrPath → Result SdError CreateUserAndGroup
user_impl_new name gecos home_dir shell i = do
  validate_name_strict name
  ok (record { name = name; id = i; gecos = gecos; home_dir = home_dir; shell = shell })

unfoldable pub new_user :
    Str → Str → Option FilePath → Option FilePath → Result SdError CreateUserAndGroup
unfolding user_impl_new
new_user name gecos home_dir shell = user_impl_new name gecos home_dir shell IdOrPath.automatic

unfoldable pub new_user_with_id :
    Str → ℕ → Str → Option FilePath → Option FilePath → Result SdError CreateUserAndGroup
unfolding user_impl_new
new_user_with_id name i gecos home_dir shell = user_impl_new name gecos home_dir shell (id i)

unfoldable pub new_user_with_uid_gid :
    Str → ℕ → ℕ → Str → Option FilePath → Option FilePath → Result SdError CreateUserAndGroup
unfolding user_impl_new
new_user_with_uid_gid name u g gecos home_dir shell =
    user_impl_new name gecos home_dir shell (uid_gid u g)

unfoldable pub new_user_with_uid_groupname :
    Str → ℕ → Str → Str → Option FilePath → Option FilePath → Result SdError CreateUserAndGroup
unfolding user_impl_new
new_user_with_uid_groupname name u groupname gecos home_dir shell = do
  validate_name_strict groupname
  user_impl_new name gecos home_dir shell (uid_groupname u groupname)

unfoldable pub new_user_with_path :
    Str → FilePath → Str → Option FilePath → Option FilePath → Result SdError CreateUserAndGroup
unfolding user_impl_new
new_user_with_path name path gecos home_dir shell =
    user_impl_new name gecos home_dir shell (IdOrPath.path path)

-- The `type_signature` of each type
abbrev pub range_signature : AddRange → Str
range_signature v = codes "r"

abbrev pub member_signature : AddUserToGroup → Str
member_signature v = codes "m"

abbrev pub group_signature : CreateGroup → Str
group_signature v = codes "g"

abbrev pub user_signature : CreateUserAndGroup → Str
user_signature v = codes "u"

-- `SysusersEntry::type_signature`
unfoldable pub type_signature : SysusersEntry → Str
type_signature (add_range v) = range_signature v
type_signature (add_user_to_group v) = member_signature v
type_signature (create_group v) = group_signature v
type_signature (create_user_and_group v) = user_signature v

-- `SysusersEntry::name`
unfoldable pub entry_name : SysusersEntry → Str
entry_name (add_range v) = codes "-"
entry_name (add_user_to_group v) = v.username
entry_name (create_group v) = v.groupname
entry_name (create_user_and_group v) = v.name

-- `CreateGroup::has_dynamic_gid`, of the field
unfoldable pub has_dynamic_gid : GidOrPath → Bool
has_dynamic_gid GidOrPath.automatic = true
has_dynamic_gid _ = false

-- `CreateGroup::static_gid`
unfoldable pub group_static_gid : GidOrPath → Option ℕ
group_static_gid (gid n) = some n
group_static_gid _ = none

-- `CreateUserAndGroup::has_dynamic_ids`
unfoldable pub has_dynamic_ids : IdOrPath → Bool
has_dynamic_ids IdOrPath.automatic = true
has_dynamic_ids _ = false

-- `CreateUserAndGroup::static_uid`
unfoldable pub static_uid : IdOrPath → Option ℕ
static_uid (id n) = some n
static_uid (uid_gid n _) = some n
static_uid (uid_groupname n _) = some n
static_uid _ = none

-- `CreateUserAndGroup::static_gid`
unfoldable pub user_static_gid : IdOrPath → Option ℕ
user_static_gid (id n) = some n
user_static_gid (uid_gid _ n) = some n
user_static_gid _ = none
