-- ===== src/Sysusers/Parse/Sound.antt =====
-- Whatever is parsed is valid.
use libsystemd_rs.Base.{
  List, [], ◌∷◌, map, concat, All, All-append, trim, Str, Result, ok, err, map_ok, ◌>>=◌, Ensures,
  ◌≡◌, arith,
}
use libsystemd_rs.Error.{SdError}
use libsystemd_rs.Sysusers.Data.Convert.{Ensures-bind, try_from-IsValid}
use libsystemd_rs.Sysusers.Data.{
  SysusersData, range_try_from, member_try_from, group_try_from, user_try_from,
}
use libsystemd_rs.Sysusers.Entry.Valid.{IsValid}
use libsystemd_rs.Sysusers.Entry.{
  SysusersEntry, add_range, add_user_to_group, create_group, create_user_and_group,
}
use libsystemd_rs.Sysusers.Nom.{Nom}
use libsystemd_rs.Sysusers.Parse.Reader.Report.{entry_of, parse_from_reader-ok_iff}
use libsystemd_rs.Sysusers.Parse.Reader.{parse_from_reader}
use libsystemd_rs.Sysusers.Parse.{
  parse_to_sysusers_data, range_from_str, member_from_str, group_from_str, user_from_str, dispatch,
  entry_from_str,
}

Ensures-map_ok {ℓ κ} :
    {A : Type ℓ} (P : SysusersEntry → Type κ) (f : A → SysusersEntry) (m : Result SdError A)
    → Ensures (λ a. P (f a)) m
    → Ensures P (map_ok f m)
Ensures-map_ok P f (ok a) h = h
Ensures-map_ok P f (err e) h = tt

module _ (n : Nom) where
  -- A conversion behind the parser of a line.
  from_line {ℓ} :
      {A : Type ℓ} (f : A → SysusersEntry) (convert : SysusersData → Result SdError A) (s : Str)
      → ((d : SysusersData) → Ensures (λ v. IsValid (f v)) (convert d))
      → Ensures IsValid (map_ok f (parse_to_sysusers_data n s >>= convert))
  from_line f convert s h =
      Ensures-map_ok IsValid f _ (Ensures-bind _ (parse_to_sysusers_data n s) convert (λ d _. h d))

  dispatch-IsValid : (s : Str) → Ensures IsValid (dispatch n s)
  unfolding dispatch range_from_str member_from_str group_from_str user_from_str
  dispatch-IsValid [] = tt
  dispatch-IsValid (t ∷ s) = ground (
    arith,
    from_line add_range range_try_from (t ∷ s) (λ d. (try_from-IsValid d).0),
    from_line add_user_to_group member_try_from (t ∷ s) (λ d. (try_from-IsValid d).1),
    from_line create_group group_try_from (t ∷ s) (λ d. (try_from-IsValid d).2),
    from_line create_user_and_group user_try_from (t ∷ s) (λ d. (try_from-IsValid d).3),
  )

  pub entry_from_str-IsValid : (s : Str) → Ensures IsValid (entry_from_str n s)
  unfolding entry_from_str
  entry_from_str-IsValid s = dispatch-IsValid (trim s)

  entry_of-IsValid : (l : Result Str Str) → All IsValid (entry_of n l)
  entry_of-IsValid (err e) = tt
  entry_of-IsValid (ok line) = ground (arith, entry_from_str-IsValid (trim line))

  entries-IsValid : (ls : List (Result Str Str)) → All IsValid (concat (map (entry_of n) ls))
  entries-IsValid [] = tt
  entries-IsValid (l ∷ ls) = All-append IsValid _ _ (entry_of-IsValid l) (entries-IsValid ls)

  -- Every entry that the reader returns is valid: its names are names, its numbers fit, and a path
  -- in its "ID" field is absolute.
  pub parse_from_reader-IsValid :
      (ls : List (Result Str Str)) (es : List SysusersEntry)
      → (parse_from_reader n ls).0 ≡ ok es
      → All IsValid es
  parse_from_reader-IsValid ls es h =
      let (_, same) = (parse_from_reader-ok_iff n ls es).0 h in rw same (entries-IsValid ls)
