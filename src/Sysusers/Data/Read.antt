-- ===== src/Sysusers/Data/Read.antt =====
-- Raw data that spell an entry are converted to it.
use libsystemd_rs.Base.{
  ℕ, ◌≤◌, [], ◌∷◌, ◌++◌, Option, none, some, Str, codes, equal_refl, split, split_one, split_first,
  ok, ◌≡◌, ◌≢◌, arith, ap, ◌⊎◌, inl, inr, All-map, ◌∙◌,
}
use libsystemd_rs.Decimal
use libsystemd_rs.Decimal.Accept.{IsDigit}
use libsystemd_rs.Decimal.RoundTrip.{parse-display, display-IsDigit}
use libsystemd_rs.Decimal.{u32_max}
use libsystemd_rs.Sysusers.Data.{
  SysusersData, ensure_field_none_or_automatic, check_kind, check_automatic, range_ends,
  range_try_from, member_try_from, group_try_from, user_try_from, unwrap_or_default,
}
use libsystemd_rs.Sysusers.Entry.{
  AddRange, AddUserToGroup, CreateGroup, CreateUserAndGroup, SysusersEntry, add_range,
  add_user_to_group, create_group, create_user_and_group, new_range, new_member, group_impl_new,
  user_impl_new,
}
use libsystemd_rs.Sysusers.Id.RoundTrip.{
  IsCanonicalId, IsCanonicalGid, id_from_str-display_id, gid_from_str-display_gid,
}
use libsystemd_rs.Sysusers.Id.{display_id, display_gid}
use libsystemd_rs.Sysusers.Name.Grammar.{IsName, IsName-validate}

-- Entries whose numbers fit, whose names are names and whose paths in the "ID" field are absolute.
abbrev pub IsCanonical : SysusersEntry → Type 0
IsCanonical (add_range v) = (v.from ≤ u32_max) × (v.to ≤ u32_max)
IsCanonical (add_user_to_group v) = IsName v.username × IsName v.groupname
IsCanonical (create_group v) = IsName v.groupname × IsCanonicalGid v.gid
IsCanonical (create_user_and_group v) = IsName v.name × IsCanonicalId v.id

abbrev pub IsAutomatic : Option Str → Type 0
IsAutomatic o = (o ≡ none) ⊎ (o ≡ some (codes "-"))

field_automatic :
    (name : Str) (o : Option Str) → IsAutomatic o → ensure_field_none_or_automatic name o ≡ ok tt
unfolding ensure_field_none_or_automatic
field_automatic name o (inl h) = rw h
field_automatic name o (inr h) = rw (h, equal_refl (codes "-"))

pub record AllAutomatic (d : SysusersData) : Type 0 where
  pub gecos : IsAutomatic d.gecos
  pub home_dir : IsAutomatic d.home_dir
  pub shell : IsAutomatic d.shell

passes_kind : (letter : Str) (d : SysusersData) → d.kind ≡ letter → check_kind letter d ≡ ok tt
unfolding check_kind
passes_kind letter d h = rw (h, equal_refl letter)

passes_automatic : (d : SysusersData) → AllAutomatic d → check_automatic d ≡ ok tt
unfolding check_automatic
passes_automatic d a =
    rw
      (
        field_automatic (codes "GECOS") _ a.gecos,
        field_automatic (codes "Home directory") _ a.home_dir,
      )
      (field_automatic (codes "Shell") _ a.shell)

digit_no_dash : (c : ℕ) → IsDigit c → c ≢ b'-'
digit_no_dash c d = ground arith

split_range :
    (from to : ℕ)
    → split b'-' (Decimal.display from ++ b'-' ∷ Decimal.display to)
      ≡ Decimal.display from ∷ Decimal.display to ∷ []
split_range from to =
    split_first b'-' _ _ (All-map _ digit_no_dash (display-IsDigit from))
    ∙ ap (◌∷◌ (Decimal.display from))
        (split_one b'-' _ (All-map _ digit_no_dash (display-IsDigit to)))

pub range_try_from_lem :
    (d : SysusersData) (v : AddRange)
    → IsCanonical (add_range v)
    → d.kind ≡ codes "r"
    → AllAutomatic d
    → d.id ≡ Decimal.display v.from ++ b'-' ∷ Decimal.display v.to
    → range_try_from d ≡ ok v
unfolding range_try_from new_range
range_try_from_lem d v c k a i =
    rw (passes_kind (codes "r") d k, passes_automatic d a, i, split_range v.from v.to)
      (unfold range_ends in rw (parse-display u32_max v.from c.0, parse-display u32_max v.to c.1))

pub member_try_from_lem :
    (d : SysusersData) (v : AddUserToGroup)
    → IsCanonical (add_user_to_group v)
    → d.kind ≡ codes "m"
    → AllAutomatic d
    → d.name ≡ v.username
    → d.id ≡ v.groupname
    → member_try_from d ≡ ok v
unfolding member_try_from new_member
member_try_from_lem d v c k a n i = rw (
  passes_kind (codes "m") d k,
  passes_automatic d a,
  n,
  i,
  IsName-validate v.username c.0,
  IsName-validate v.groupname c.1,
)

pub group_try_from_lem :
    (d : SysusersData) (v : CreateGroup)
    → IsCanonical (create_group v)
    → d.kind ≡ codes "g"
    → AllAutomatic d
    → d.name ≡ v.groupname
    → d.id ≡ display_gid v.gid
    → group_try_from d ≡ ok v
unfolding group_try_from group_impl_new
group_try_from_lem d v c k a n i = rw (
  passes_kind (codes "g") d k,
  passes_automatic d a,
  n,
  i,
  gid_from_str-display_gid v.gid c.1,
  IsName-validate v.groupname c.0,
)

pub user_try_from_lem :
    (d : SysusersData) (v : CreateUserAndGroup)
    → IsCanonical (create_user_and_group v)
    → d.kind ≡ codes "u"
    → d.name ≡ v.name
    → d.id ≡ display_id v.id
    → unwrap_or_default d.gecos ≡ v.gecos
    → d.home_dir ≡ v.home_dir
    → d.shell ≡ v.shell
    → user_try_from d ≡ ok v
unfolding user_try_from user_impl_new
user_try_from_lem d v c k n i g h s = rw (
  passes_kind (codes "u") d k,
  n,
  i,
  id_from_str-display_id v.id c.1,
  IsName-validate v.name c.0,
  g,
  h,
  s,
)
