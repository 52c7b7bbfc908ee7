-- ===== src/Sysusers/Parse/RoundTrip.antt =====
-- A printed entry is read back.
use libsystemd_rs.Base.{
  ℕ, false, [], ◌∷◌, ◌++◌, Option, none, some, is_whitespace, trim, trim_start, trim_end, Str,
  codes, ok, map_ok, ◌≡◌, refl, arith, append_assoc, ap, sym, inr,
}
use libsystemd_rs.Decimal
use libsystemd_rs.Sysusers.Data.Read.{
  IsCanonical, AllAutomatic, range_try_from_lem, member_try_from_lem, group_try_from_lem,
  user_try_from_lem,
}
use libsystemd_rs.Sysusers.Data.{SysusersData}
use libsystemd_rs.Sysusers.Entry.{
  AddRange, AddUserToGroup, CreateGroup, CreateUserAndGroup, SysusersEntry, add_range,
  add_user_to_group, create_group, create_user_and_group,
}
use libsystemd_rs.Sysusers.Format.{
  path_or_dash, display, display_range, display_member, display_group, display_user,
}
use libsystemd_rs.Sysusers.Id.{FilePath, display_id, display_gid}
use libsystemd_rs.Sysusers.Nom.{Nom, NomLaws}
use libsystemd_rs.Sysusers.Parse.Line.{
  IsField, ReadsAs, plain-ReadsAs, quoted-ReadsAs, parse_data_lem,
}
use libsystemd_rs.Sysusers.Parse.Printable.{
  IsPathField, IsOptionField, EndsPlain, Fits, dashed, IsName-IsField, display-IsField,
  joined-IsField, display_id-IsField, display_gid-IsField, EndsPlain-cons, EndsPlain-append,
}
use libsystemd_rs.Sysusers.Parse.{
  parse_to_sysusers_data, range_from_str, member_from_str, group_from_str, user_from_str, dispatch,
  entry_from_str,
}

trim-EndsPlain :
    (c : ℕ) (s : Str) → is_whitespace c ≡ false → EndsPlain (c ∷ s) → trim (c ∷ s) ≡ c ∷ s
unfolding trim trim_start
trim-EndsPlain c s h e = ground arith

dashes_plain : EndsPlain (codes " - - -")
unfolding trim_end
dashes_plain = (refl, refl)

pub trim-display_user :
    (v : CreateUserAndGroup)
    → EndsPlain (path_or_dash v.shell)
    → trim (display_user v) ≡ display_user v
unfolding display_user
trim-display_user v f = trim-EndsPlain b'u' _ refl (
    EndsPlain-append (codes "u ") _ (
      EndsPlain-append v.name _ (
        EndsPlain-cons b' ' _ (
          EndsPlain-append (display_id v.id) _ (
            EndsPlain-cons b' ' _ (
              EndsPlain-cons b'"' _ (
                EndsPlain-append v.gecos _ (
                  EndsPlain-cons b'"' _ (
                    EndsPlain-cons b' ' _ (
                      EndsPlain-append (path_or_dash v.home_dir) _
                        (EndsPlain-cons b' ' _ f)))))))))))

-- Trimming leaves a printed entry as it is.
pub trim-display : (e : SysusersEntry) → Fits e → trim (display e) ≡ display e
unfolding display display_range display_member display_group display_user
trim-display (add_range v) f = trim-EndsPlain b'r' _ refl (
    EndsPlain-append (codes "r - ") _ (
      EndsPlain-append (Decimal.display v.from) _
        (EndsPlain-cons b'-' _ (EndsPlain-append (Decimal.display v.to) _ dashes_plain))))
trim-display (add_user_to_group v) f = trim-EndsPlain b'm' _ refl (
    EndsPlain-append (codes "m ") _ (
      EndsPlain-append v.username _
        (EndsPlain-cons b' ' _ (EndsPlain-append v.groupname _ dashes_plain))))
trim-display (create_group v) f = trim-EndsPlain b'g' _ refl (
    EndsPlain-append (codes "g ") _ (
      EndsPlain-append v.groupname _
        (EndsPlain-cons b' ' _ (EndsPlain-append (display_gid v.gid) _ dashes_plain))))
trim-display (create_user_and_group v) f = trim-display_user v f.4

module _ (n : Nom) (laws : NomLaws n) where
  dash-ReadsAs : ReadsAs n laws (codes "-") (codes "-")
  dash-ReadsAs = plain-ReadsAs n laws b'-' [] refl (refl, (refl, tt))

  path-ReadsAs : (p : FilePath) → IsPathField p → ReadsAs n laws p p
  path-ReadsAs [] h = absurd (cc (h.0.0))
  path-ReadsAs (c ∷ p) h = plain-ReadsAs n laws c p h.1 h.0

  option-ReadsAs :
      (o : Option FilePath) → IsOptionField o → ReadsAs n laws (path_or_dash o) (path_or_dash o)
  unfolding path_or_dash
  option-ReadsAs none h = dash-ReadsAs
  option-ReadsAs (some p) h = path-ReadsAs p h

  -- A line of the types that leave the last three fields automatic.
  automatic_data :
      (kind : ℕ) (name id : Str)
      → IsField name
      → IsField id
      → parse_to_sysusers_data n (kind ∷ b' ' ∷ (name ++ b' ' ∷ (id ++ codes " - - -")))
        ≡ ok (record {
          kind = kind ∷ [];
          name = name;
          id = id;
          gecos = some (codes "-");
          home_dir = some (codes "-");
          shell = some (codes "-");
        })
  automatic_data kind name id is_name is_id =
      parse_data_lem n laws kind name id (codes "-") (codes "-") (codes "-") (codes "-") (codes "-")
        (codes "-") is_name is_id dash-ReadsAs dash-ReadsAs dash-ReadsAs

  all_dashes :
      {d : SysusersData}
      → d.gecos ≡ some (codes "-")
      → d.home_dir ≡ some (codes "-")
      → d.shell ≡ some (codes "-")
      → AllAutomatic d
  all_dashes g h s = record { gecos = inr g; home_dir = inr h; shell = inr s }

  range_text :
      (v : AddRange) → IsCanonical (add_range v) → range_from_str n (display_range v) ≡ ok v
  unfolding range_from_str display_range
  range_text v c =
      let from = Decimal.display v.from in
      let to = Decimal.display v.to in
      let is_id =
        joined-IsField b'-' from to refl (display-IsField v.from) (display-IsField v.to) in
      rw
        (
          sym (append_assoc from (b'-' ∷ to) (codes " - - -")),
          automatic_data b'r' (codes "-") (from ++ b'-' ∷ to) (refl, (refl, tt)) is_id,
        )
        (range_try_from_lem _ v c refl (all_dashes refl refl refl) refl)

  member_text :
      (v : AddUserToGroup)
      → IsCanonical (add_user_to_group v)
      → member_from_str n (display_member v) ≡ ok v
  unfolding member_from_str display_member
  member_text v c =
      rw (automatic_data b'm' v.username v.groupname (IsName-IsField _ c.0) (IsName-IsField _ c.1))
        (member_try_from_lem _ v c refl (all_dashes refl refl refl) refl refl)

  group_text :
      (v : CreateGroup)
      → IsCanonical (create_group v)
      → Fits (create_group v)
      → group_from_str n (display_group v) ≡ ok v
  unfolding group_from_str display_group
  group_text v c f =
      rw
        (automatic_data b'g' v.groupname (display_gid v.gid) (IsName-IsField _ c.0)
          (display_gid-IsField v.gid c.1 f))
        (group_try_from_lem _ v c refl (all_dashes refl refl refl) refl refl)

  user_text :
      (v : CreateUserAndGroup)
      → IsCanonical (create_user_and_group v)
      → Fits (create_user_and_group v)
      → map_ok create_user_and_group (user_from_str n (display_user v))
        ≡ ok (dashed (create_user_and_group v))
  unfolding user_from_str display_user
  user_text v c f =
      let home = path_or_dash v.home_dir in
      let shell = path_or_dash v.shell in
      let gecos = b'"' ∷ (v.gecos ++ b'"' ∷ []) in
      let raw : SysusersData = record {
        kind = codes "u";
        name = v.name;
        id = display_id v.id;
        gecos = some v.gecos;
        home_dir = some home;
        shell = some shell;
      } in
      let made = record v { home_dir = some home; shell = some shell } in
      rw (
        sym (append_assoc v.gecos (b'"' ∷ []) (b' ' ∷ (home ++ b' ' ∷ shell))),
        parse_data_lem n laws b'u' v.name (display_id v.id) gecos home shell v.gecos home shell
            (IsName-IsField _ c.0) (display_id-IsField v.id c.1 f.0)
            (quoted-ReadsAs n laws v.gecos f.1) (option-ReadsAs v.home_dir f.2)
            (option-ReadsAs v.shell f.3),
        user_try_from_lem raw made c refl refl refl refl refl refl,
      )

  dispatch-display :
      (e : SysusersEntry) → IsCanonical e → Fits e → dispatch n (display e) ≡ ok (dashed e)
  unfolding dispatch display
  dispatch-display (add_range v) c f = ap (map_ok add_range) (range_text v c)
  dispatch-display (add_user_to_group v) c f = ap (map_ok add_user_to_group) (member_text v c)
  dispatch-display (create_group v) c f = ap (map_ok create_group) (group_text v c f)
  dispatch-display (create_user_and_group v) c f = user_text v c f

  -- Let nom's parsers keep the laws of `NomLaws`. Every canonical entry whose texts fit their fields
  -- is read back from its print, but that a missing home directory or shell, printed as `-`, is read
  -- as the path `-`.
  pub entry_from_str-display :
      (e : SysusersEntry) → IsCanonical e → Fits e → entry_from_str n (display e) ≡ ok (dashed e)
  unfolding entry_from_str
  entry_from_str-display e c f = rw (trim-display e f) (dispatch-display e c f)
