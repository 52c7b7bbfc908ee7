-- ===== src/Sysusers/Data/Convert.antt =====
-- What the conversions from raw fields return: always a valid entry, of the type that the "Type" field
-- names.
use libsystemd_rs.Base.{
  codes, split, Result, ok, err, ◌>>=◌, ◌>>◌, Ensures, Ensures-ok, ◌≡◌, refl, arith,
}
use libsystemd_rs.Decimal.Accept.{parse-Ensures}
use libsystemd_rs.Decimal.{u32_max}
use libsystemd_rs.Error.{SdError}
use libsystemd_rs.Sysusers.Data.{
  SysusersData, check_kind, check_automatic, range_ends, range_try_from, member_try_from,
  group_try_from, user_try_from,
}
use libsystemd_rs.Sysusers.Entry.Valid.{IsValid}
use libsystemd_rs.Sysusers.Entry.{
  add_range, add_user_to_group, create_group, create_user_and_group, new_range, new_member,
  group_impl_new, user_impl_new,
}
use libsystemd_rs.Sysusers.Id.Valid.{
  IsValidId, IsValidGid, id_from_str-IsValidId, gid_from_str-IsValidGid,
}
use libsystemd_rs.Sysusers.Id.{id_from_str, gid_from_str}
use libsystemd_rs.Sysusers.Name.Grammar.{validate-IsName}

-- A successful chain has passed its first step.
pub Ensures-then {ℓ κ} :
    {A : Type ℓ} (P : A → Type κ) (m : Result SdError (Unit {0})) (k : Result SdError A)
    → Ensures P k
    → Ensures P (m >> k)
Ensures-then P (ok a) k h = h
Ensures-then P (err e) k h = tt

pub Ensures-bind {ℓ κ ι} :
    {A : Type ℓ} {B : Type κ} (P : B → Type ι) (m : Result SdError A) (k : A → Result SdError B)
    → ((a : A) → m ≡ ok a → Ensures P (k a))
    → Ensures P (m >>= k)
Ensures-bind P (ok a) k h = h a refl
Ensures-bind P (err e) k h = tt

range_try_from-IsValid :
    (d : SysusersData) → Ensures (λ v. IsValid (add_range v)) (range_try_from d)
unfolding range_try_from new_range
range_try_from-IsValid d = Ensures-then _ (check_kind (codes "r") d) _ (
    Ensures-then _ (check_automatic d) _ (
      Ensures-bind _ (range_ends d.id (split b'-' d.id)) _
        λ ends _. ground (arith, parse-Ensures u32_max ends.0, parse-Ensures u32_max ends.1)))

member_try_from-IsValid :
    (d : SysusersData) → Ensures (λ v. IsValid (add_user_to_group v)) (member_try_from d)
unfolding member_try_from new_member
member_try_from-IsValid d = Ensures-then _ (check_kind (codes "m") d) _ (
    Ensures-then _ (check_automatic d) _
      (ground (arith, validate-IsName d.name, validate-IsName d.id)))

group_try_from-IsValid :
    (d : SysusersData) → Ensures (λ v. IsValid (create_group v)) (group_try_from d)
unfolding group_try_from group_impl_new
group_try_from-IsValid d = Ensures-then _ (check_kind (codes "g") d) _ (
    Ensures-then _ (check_automatic d) _ (
      Ensures-bind _ (gid_from_str d.id) _ λ g read.
        let valid = Ensures-ok IsValidGid _ (gid_from_str-IsValidGid d.id) read in
        ground (arith, validate-IsName d.name)))

user_try_from-IsValid :
    (d : SysusersData) → Ensures (λ v. IsValid (create_user_and_group v)) (user_try_from d)
unfolding user_try_from user_impl_new
user_try_from-IsValid d = Ensures-then _ (check_kind (codes "u") d) _ (
    Ensures-bind _ (id_from_str d.id) _ λ i read.
      let valid = Ensures-ok IsValidId _ (id_from_str-IsValidId d.id) read in
      ground (arith, validate-IsName d.name))

-- Each conversion, for every raw data: an entry that it returns is valid.
pub try_from-IsValid :
    (d : SysusersData)
    → Ensures (λ v. IsValid (add_range v)) (range_try_from d)
      × Ensures (λ v. IsValid (add_user_to_group v)) (member_try_from d)
      × Ensures (λ v. IsValid (create_group v)) (group_try_from d)
      × Ensures (λ v. IsValid (create_user_and_group v)) (user_try_from d)
try_from-IsValid d = (
  range_try_from-IsValid d,
  member_try_from-IsValid d,
  group_try_from-IsValid d,
  user_try_from-IsValid d,
)
