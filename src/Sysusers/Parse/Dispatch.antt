-- ===== src/Sysusers/Parse/Dispatch.antt =====
-- Which errors `entry_from_str` gives: only an unknown letter gives the kind that the reader skips.
use libsystemd_rs.Base.{
  ℕ, Bool, true, false, ◌||◌, List, [], ◌∷◌, ◌++◌, ◌==◌, trim, Str, codes, Result, ok, err, map_ok,
  map_err, ◌>>=◌, ◌>>◌, ◌≡◌, refl, arith, ◌↔◌, inl, inr, keep, split, Bool-cases,
}
use libsystemd_rs.Error.{SdError, generic, sysusers_unknown_type, from_str, context, Display}
use libsystemd_rs.Sysusers.Data.{
  SysusersData, ensure_field_none_or_automatic, check_kind, check_automatic, range_ends,
  range_try_from, member_try_from, group_try_from, user_try_from,
}
use libsystemd_rs.Sysusers.Entry.{
  SysusersEntry, new_range, new_member, group_impl_new, user_impl_new,
}
use libsystemd_rs.Sysusers.Id.{id_from_str, gid_from_str, tokens_to_id, is_token}
use libsystemd_rs.Sysusers.Name.Grammar.{validate-generic}
use libsystemd_rs.Sysusers.Name.{validate_name_strict}
use libsystemd_rs.Sysusers.Nom.{Nom}
use libsystemd_rs.Sysusers.Parse.{
  parse_line, parse_to_sysusers_data, range_from_str, member_from_str, group_from_str,
  user_from_str, dispatch, entry_from_str,
}

-- If it fails, the error is generic.
abbrev FailsGeneric {ℓ} : {A : Type ℓ} → Result SdError A → Type 0
FailsGeneric (ok a) = Unit
FailsGeneric (err e) = e.kind ≡ generic

bind_generic {ℓ κ} :
    {A : Type ℓ} {B : Type κ} (m : Result SdError A) (k : A → Result SdError B)
    → FailsGeneric m
    → ((a : A) → FailsGeneric (k a))
    → FailsGeneric (m >>= k)
bind_generic (ok a) k h g = g a
bind_generic (err e) k h g = h

map_err_generic {ℓ κ} :
    {E : Type ℓ} {A : Type κ} (f : E → Str) (m : Result E A)
    → FailsGeneric (map_err (λ e. from_str (f e)) m)
unfolding from_str
map_err_generic f (ok a) = tt
map_err_generic f (err e) = refl

map_ok_generic {ℓ κ} :
    {A : Type ℓ} {B : Type κ} (f : A → B) (m : Result SdError A)
    → FailsGeneric m
    → FailsGeneric (map_ok f m)
map_ok_generic f (ok a) h = tt
map_ok_generic f (err e) h = h

context_generic {ℓ κ} :
    {E : Type ℓ} ⦃d : Display E⦄ {A : Type κ} (c : Str) (m : Result E A)
    → FailsGeneric (context c m)
unfolding context
context_generic c m = map_err_generic _ m

name_generic : (s : Str) → FailsGeneric (validate_name_strict s)
name_generic s = go (validate_name_strict s) refl
  where
    go : (r : Result SdError (Unit {0})) → validate_name_strict s ≡ r → FailsGeneric r
    go (ok a) e = tt
    go (err x) e = validate-generic s x e

tokens_generic : (value : Str) (tokens : List Str) → FailsGeneric (tokens_to_id value tokens)
unfolding tokens_to_id context from_str
tokens_generic value (a ∷ b ∷ []) = ground arith
tokens_generic value _ = refl

id_generic : (value : Str) → FailsGeneric (id_from_str value)
unfolding id_from_str
id_generic value = ground (arith, tokens_generic value (keep is_token (split b':' value)))

gid_generic : (value : Str) → FailsGeneric (gid_from_str value)
unfolding gid_from_str from_str
gid_generic value = ground arith

kind_generic : (letter : Str) (d : SysusersData) → FailsGeneric (check_kind letter d)
unfolding check_kind from_str
kind_generic letter d = ground arith

automatic_generic : (d : SysusersData) → FailsGeneric (check_automatic d)
unfolding check_automatic ensure_field_none_or_automatic from_str
automatic_generic d = ground arith

ends_generic : (value : Str) (tokens : List Str) → FailsGeneric (range_ends value tokens)
unfolding range_ends from_str
ends_generic value (a ∷ []) = tt
ends_generic value (a ∷ b ∷ []) = tt
ends_generic value _ = refl

-- The first steps of three of the conversions.
checked {ℓ} :
    {A : Type ℓ} (letter : Str) (d : SysusersData) (k : Result SdError A)
    → FailsGeneric k
    → FailsGeneric (do check_kind letter d; check_automatic d; k)
checked letter d k h =
    bind_generic (check_kind letter d) _ (kind_generic letter d)
      λ _. bind_generic (check_automatic d) _ (automatic_generic d) λ _. h

range_generic : (d : SysusersData) → FailsGeneric (range_try_from d)
unfolding range_try_from new_range from_str
range_generic d =
    checked (codes "r") d _ (
      bind_generic (range_ends d.id (split b'-' d.id)) _ (ends_generic d.id _) λ ends. ground arith)

member_generic : (d : SysusersData) → FailsGeneric (member_try_from d)
unfolding member_try_from new_member
member_generic d = checked (codes "m") d _ (ground (arith, name_generic d.name, name_generic d.id))

group_generic : (d : SysusersData) → FailsGeneric (group_try_from d)
unfolding group_try_from group_impl_new
group_generic d =
    checked (codes "g") d _ (
      bind_generic (gid_from_str d.id) _ (gid_generic d.id)
        λ g. ground (arith, name_generic d.name))

user_generic : (d : SysusersData) → FailsGeneric (user_try_from d)
unfolding user_try_from user_impl_new
user_generic d = bind_generic (check_kind (codes "u") d) _ (kind_generic (codes "u") d) λ _.
    bind_generic (id_from_str d.id) _ (id_generic d.id) λ i. ground (arith, name_generic d.name)

-- The letters of the four types.
abbrev pub is_type_letter : ℕ → Bool
is_type_letter t = t == b'g' || t == b'm' || t == b'r' || t == b'u'

abbrev pub HasUnknownLetter : Str → Type 0
HasUnknownLetter [] = ⊥
HasUnknownLetter (t ∷ s) = is_type_letter t ≡ false

module _ (n : Nom) where
  line_generic : (s : Str) → FailsGeneric (parse_to_sysusers_data n s)
  unfolding parse_to_sysusers_data from_str
  line_generic s =
      bind_generic (map_err _ (parse_line n s)) _ (map_err_generic _ (parse_line n s))
        λ r. ground arith

  known_generic : (t : ℕ) (s : Str) → is_type_letter t ≡ true → FailsGeneric (dispatch n (t ∷ s))
  unfolding dispatch range_from_str member_from_str group_from_str user_from_str
  known_generic t s h =
      let line = line_generic (t ∷ s) in
      ground (
        arith,
        map_ok_generic SysusersEntry.create_group (group_from_str n (t ∷ s))
            (bind_generic (parse_to_sysusers_data n (t ∷ s)) group_try_from line group_generic),
        map_ok_generic SysusersEntry.add_user_to_group (member_from_str n (t ∷ s))
            (bind_generic (parse_to_sysusers_data n (t ∷ s)) member_try_from line member_generic),
        map_ok_generic SysusersEntry.add_range (range_from_str n (t ∷ s))
            (bind_generic (parse_to_sysusers_data n (t ∷ s)) range_try_from line range_generic),
        map_ok_generic SysusersEntry.create_user_and_group (user_from_str n (t ∷ s))
            (bind_generic (parse_to_sysusers_data n (t ∷ s)) user_try_from line user_generic),
      )

  dispatch_known :
      (text : Str) (e : SdError)
      → dispatch n text ≡ err e
      → e.kind ≡ sysusers_unknown_type
      → HasUnknownLetter text
  dispatch_known [] e h k = unfold dispatch from_str in absurd (ground arith)
  dispatch_known (t ∷ s) e h k = elim (Bool-cases (is_type_letter t)) [
    | inr unknown ↦ unknown
    | inl known ↦ absurd (ground (arith, known_generic t s known))
  ]

  dispatch_unknown :
      (text : Str)
      → HasUnknownLetter text
      → (e : SdError) × (dispatch n text ≡ err e) × (e.kind ≡ sysusers_unknown_type)
  unfolding dispatch
  dispatch_unknown [] h = absurd h
  dispatch_unknown (t ∷ s) h = (
    record {
      kind = sysusers_unknown_type;
      msg = codes "unknown sysusers type signature '" ++ t ∷ codes "'";
    },
    ground arith,
    refl,
  )

  -- Parsing an entry fails with the kind that the reader skips exactly when the trimmed text starts
  -- with another letter than `g`, `m`, `r` and `u`. So no malformed entry of a known type is skipped.
  pub entry_from_str-unknown_iff :
      (s : Str)
      → ((e : SdError) × (entry_from_str n s ≡ err e) × (e.kind ≡ sysusers_unknown_type))
        ↔ HasUnknownLetter (trim s)
  unfolding entry_from_str
  entry_from_str-unknown_iff s =
      ((λ (e, failed, kind). dispatch_known (trim s) e failed kind), dispatch_unknown (trim s))
