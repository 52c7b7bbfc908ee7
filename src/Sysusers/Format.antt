-- ===== src/Sysusers/Format.antt =====
-- src/sysusers/format.rs: `Display` of entries. The "ID" types are in `Id`.
use libsystemd_rs.Base.{◌∷◌, ◌++◌, Option, none, some, Str, codes}
use libsystemd_rs.Decimal
use libsystemd_rs.Sysusers.Entry.{
  AddRange, AddUserToGroup, CreateGroup, CreateUserAndGroup, SysusersEntry, add_range,
  add_user_to_group, create_group, create_user_and_group,
}
use libsystemd_rs.Sysusers.Id.{FilePath, display_id, display_gid}

unfoldable pub display_range : AddRange → Str
display_range v =
    codes "r - " ++ (Decimal.display v.from ++ b'-' ∷ (Decimal.display v.to ++ codes " - - -"))

unfoldable pub display_member : AddUserToGroup → Str
display_member v = codes "m " ++ (v.username ++ b' ' ∷ (v.groupname ++ codes " - - -"))

unfoldable pub display_group : CreateGroup → Str
display_group v = codes "g " ++ (v.groupname ++ b' ' ∷ (display_gid v.gid ++ codes " - - -"))

-- `.map(|p| p.to_string_lossy()).unwrap_or(Cow::Borrowed("-"))`
unfoldable pub path_or_dash : Option FilePath → Str
path_or_dash none = codes "-"
path_or_dash (some p) = p

unfoldable pub display_user : CreateUserAndGroup → Str
display_user v =
    codes "u "
    ++ (v.name
        ++ b' '
          ∷ (display_id v.id
              ++ b' '
                ∷ b'"'
                ∷ (v.gecos
                    ++ b'"' ∷ b' ' ∷ (path_or_dash v.home_dir ++ b' ' ∷ path_or_dash v.shell))))

unfoldable pub display : SysusersEntry → Str
unfolding display_range display_member display_group display_user
display (add_range v) = display_range v
display (add_user_to_group v) = display_member v
display (create_group v) = display_group v
display (create_user_and_group v) = display_user v
