-- ===== src/Sysusers/Cases.antt =====
-- The tests of src/sysusers/mod.rs, format.rs and parse.rs: whether each of them panics.
use libsystemd_rs.Base.{
  Bool, true, false, not, ◌&&◌, ◌||◌, is_empty, if◌then◌else◌, keep, starts_with, List, [], ◌∷◌,
  ◌++◌, ◌==◌, Option, none, some, all, length, split, Str, codes, equal, Result, ok, err, map,
}
use libsystemd_rs.Error.{SdError}
use libsystemd_rs.Sysusers.Entry.{
  AddRange, AddUserToGroup, CreateGroup, CreateUserAndGroup, new_range, new_member, new_group,
  new_user,
}
use libsystemd_rs.Sysusers.Format.{display_range, display_member, display_group, display_user}
use libsystemd_rs.Sysusers.Id.{IdOrPath, id, uid_gid, uid_groupname, GidOrPath, gid}
use libsystemd_rs.Sysusers.Name.{validate_name_strict}
use libsystemd_rs.Sysusers.Nom.{Nom}
use libsystemd_rs.Sysusers.Parse.Reader.{parse_from_reader}
use libsystemd_rs.Sysusers.Parse.{range_from_str, member_from_str, group_from_str, user_from_str}

abbrev pub is_valid : Str → Bool
is_valid name = elim (validate_name_strict name) [ ok _ ↦ true | err _ ↦ false ]

unfoldable pub test_validate_name_strict : Bool
unfolding validate_name_strict
test_validate_name_strict =
    all (λ entry. not (is_valid entry)) (codes "-foo" ∷ codes "10bar" ∷ codes "42" ∷ [])
    && all is_valid (codes "_authd" ∷ codes "httpd" ∷ [])

-- `assert_eq!(v.unwrap().to_string(), expected)`
abbrev pub shows : {A : Type 0} → (A → Str) → Result SdError A → Str → Bool
shows show (ok v) expected = equal (show v) expected
shows show (err e) expected = false

unfoldable pub test_formatters : Bool
unfolding display_user display_group display_range display_member new_user new_group new_range
    new_member equal
test_formatters =
    shows display_user (new_user (codes "foo0") (codes "test") none none)
      (codes "u foo0 - \"test\" - -")
    && (shows display_group (new_group (codes "foo1")) (codes "g foo1 - - - -")
        && (shows display_range (new_range 10 20) (codes "r - 10-20 - - -")
            && shows display_member (new_member (codes "foo3") (codes "bar"))
                (codes "m foo3 bar - - -")))

-- The derived `PartialEq` of the entries and of their fields
abbrev pub same_id : IdOrPath → IdOrPath → Bool
same_id (id i) (id j) = i == j
same_id (uid_gid u g) (uid_gid v h) = u == v && g == h
same_id (uid_groupname u g) (uid_groupname v h) = u == v && equal g h
same_id (IdOrPath.path p) (IdOrPath.path q) = equal p q
same_id IdOrPath.automatic IdOrPath.automatic = true
same_id _ _ = false

abbrev pub same_gid : GidOrPath → GidOrPath → Bool
same_gid (gid g) (gid h) = g == h
same_gid (GidOrPath.path p) (GidOrPath.path q) = equal p q
same_gid GidOrPath.automatic GidOrPath.automatic = true
same_gid _ _ = false

abbrev pub is_part : Str → Bool
is_part p = not (is_empty p || equal p (codes "."))

abbrev pub relative_parts : List Str → List Str
relative_parts [] = []
relative_parts (p ∷ ps) = if is_empty p then [] else p ∷ keep is_part ps

-- `Path::components`, without the root: a `.` is one only at the start of a relative path.
abbrev pub path_parts : Str → List Str
path_parts p =
    let ps = split b'/' p in if starts_with b'/' p then keep is_part ps else relative_parts ps

abbrev pub same_texts : List Str → List Str → Bool
same_texts [] [] = true
same_texts (p ∷ ps) (q ∷ qs) = equal p q && same_texts ps qs
same_texts _ _ = false

-- Paths are compared by their components.
abbrev pub same_path : Option Str → Option Str → Bool
same_path none none = true
same_path (some p) (some q) =
    (if starts_with b'/' p then starts_with b'/' q else not (starts_with b'/' q))
    && same_texts (path_parts p) (path_parts q)
same_path _ _ = false

abbrev pub same_range : AddRange → AddRange → Bool
same_range a b = a.from == b.from && a.to == b.to

abbrev pub same_member : AddUserToGroup → AddUserToGroup → Bool
same_member a b = equal a.username b.username && equal a.groupname b.groupname

abbrev pub same_group : CreateGroup → CreateGroup → Bool
same_group a b = equal a.groupname b.groupname && same_gid a.gid b.gid

abbrev pub same_user : CreateUserAndGroup → CreateUserAndGroup → Bool
same_user a b =
    equal a.name b.name
    && (same_id a.id b.id
        && (equal a.gecos b.gecos
            && (same_path a.home_dir b.home_dir && same_path a.shell b.shell)))

-- `assert_eq!(output, expected)` and `assert_eq!(line, input)`
abbrev pub reads_back :
    {A : Type 0} → (A → A → Bool) → (A → Str) → Result SdError A → Result SdError A → Str → Bool
reads_back same show (ok output) (ok expected) input =
    same output expected && equal (show output) input
reads_back same show _ _ input = false

abbrev pub strip_return : Str → Str
strip_return [] = []
strip_return (c ∷ []) = if c == 13 then [] else c ∷ []
strip_return (c ∷ s) = c ∷ strip_return s

-- The lines of a text, from its parts between line feeds: a line that a line feed ends loses a carriage
-- return before it, and what stands behind the last line feed is a line only if it is not empty.
abbrev pub lines_from : List Str → List Str
lines_from [] = []
lines_from (last ∷ []) = if is_empty last then [] else last ∷ []
lines_from (line ∷ lines) = strip_return line ∷ lines_from lines

abbrev pub lines_of : Str → List (Result Str Str)
lines_of text = map ok (lines_from (split b'\n' text))

abbrev pub config_fragment : Str
config_fragment =
    codes "\n#Type Name     ID             GECOS                 Home directory Shell\n"
    ++ (codes "u     httpd    404            \"HTTP User\"\n"
        ++ (codes "u     _authd   /usr/bin/authd \"Authorization user\"\n"
            ++ (codes "# Test comment\n"
                ++ (codes
                      "u     postgres -              \"Postgresql Database\" /var/lib/pgsql /usr/libexec/postgresdb\n"
                    ++ (codes "g     input    -              -\n\n"
                        ++ (codes "m     _authd   input\n"
                            ++ (codes
                                  "u     root     0              \"Superuser\"           /root          /bin/zsh\n"
                                ++ codes "r     -        500-900\n")))))))

module _ (n : Nom) where
  unfoldable pub test_type_g : Bool
  unfolding new_group group_from_str display_group equal
  test_type_g =
      let input = codes "g input - - - -" in
      reads_back same_group display_group (group_from_str n input) (new_group (codes "input")) input

  unfoldable pub test_type_m : Bool
  unfolding new_member member_from_str display_member equal
  test_type_m =
      let input = codes "m _authd input - - -" in
      reads_back same_member display_member (member_from_str n input)
        (new_member (codes "_authd") (codes "input")) input

  unfoldable pub test_type_r : Bool
  unfolding new_range range_from_str display_range equal
  test_type_r =
      let input = codes "r - 500-900 - - -" in
      reads_back same_range display_range (range_from_str n input) (new_range 500 900) input

  unfoldable pub test_type_u : Bool
  unfolding new_user user_from_str display_user equal
  test_type_u =
      let input =
        codes "u postgres - \"Postgresql Database\" /var/lib/pgsql /usr/libexec/postgresdb" in
      reads_back same_user display_user (user_from_str n input)
        (new_user (codes "postgres") (codes "Postgresql Database") (some (codes "/var/lib/pgsql"))
          (some (codes "/usr/libexec/postgresdb")))
        input

  unfoldable pub test_parse_from_reader : Bool
  unfolding parse_from_reader split
  test_parse_from_reader = elim ((parse_from_reader n (lines_of config_fragment)).0) [
    | ok entries ↦ length entries == 7
    | err e ↦ false
  ]
