-- ===== src/Sysusers/Entry/Valid.antt =====
-- The invariant of entries, which the constructors establish.
use libsystemd_rs.Base.{ℕ, ◌≤◌, Option, Str, Result, ok, ◌>>◌, ◌≡◌, arith, >>=-eq-ok}
use libsystemd_rs.Decimal.{u32_max}
use libsystemd_rs.Error.{SdError}
use libsystemd_rs.Sysusers.Entry.{
  AddRange, AddUserToGroup, CreateGroup, CreateUserAndGroup, SysusersEntry, add_range,
  add_user_to_group, create_group, create_user_and_group, new_range, new_member, group_impl_new,
  user_impl_new,
}
use libsystemd_rs.Sysusers.Id.Valid.{IsValidId, IsValidGid}
use libsystemd_rs.Sysusers.Id.{FilePath, IdOrPath, GidOrPath}
use libsystemd_rs.Sysusers.Name.Grammar.{IsName, validate-IsName}
use libsystemd_rs.Sysusers.Name.{validate_name_strict}

abbrev pub IsValid : SysusersEntry → Type 0
IsValid (add_range v) = (v.from ≤ u32_max) × (v.to ≤ u32_max)
IsValid (add_user_to_group v) = IsName v.username × IsName v.groupname
IsValid (create_group v) = IsName v.groupname × IsValidGid v.gid
IsValid (create_user_and_group v) = IsName v.name × IsValidId v.id

pub new_range-IsValid :
    (from to : ℕ) {v : AddRange}
    → from ≤ u32_max
    → to ≤ u32_max
    → new_range from to ≡ ok v
    → IsValid (add_range v)
unfolding new_range
new_range-IsValid from to hf ht e = ground arith

pub validated {ℓ} :
    {A : Type ℓ} (s : Str) (k : Result SdError A) {a : A}
    → (validate_name_strict s >> k) ≡ ok a
    → IsName s × (k ≡ ok a)
validated s k h =
    let (u, valid, rest) = >>=-eq-ok (validate_name_strict s) (λ _. k) h in
    (validate-IsName s valid, rest)

pub new_member_lem :
    (u g : Str) {v : AddUserToGroup}
    → new_member u g ≡ ok v
    → IsName u × IsName g × (v ≡ record { username = u; groupname = g })
unfolding new_member
new_member_lem u g h =
    let (name, rest) = validated u _ h in
    let (group, made) = validated g _ rest in (name, group, cc)

pub group_impl_new_lem :
    (n : Str) (g : GidOrPath) {v : CreateGroup}
    → group_impl_new n g ≡ ok v
    → IsName n × (v ≡ record { groupname = n; gid = g })
unfolding group_impl_new
group_impl_new_lem n g h = let (name, made) = validated n _ h in (name, cc)

pub user_impl_new_lem :
    (n gecos : Str) (home shell : Option FilePath) (i : IdOrPath) {v : CreateUserAndGroup}
    → user_impl_new n gecos home shell i ≡ ok v
    → IsName n × (v ≡ record { name = n; id = i; gecos = gecos; home_dir = home; shell = shell })
unfolding user_impl_new
user_impl_new_lem n gecos home shell i h = let (name, made) = validated n _ h in (name, cc)
