-- ===== src/Sysusers/Parse/Signature.antt =====
-- The type letter of a line is the signature of the entry that is read from it.
use libsystemd_rs.Base.{
  ℕ, [], ◌∷◌, ◌++◌, ◌==◌, ==_iff, trim, Str, Result, ok, err, map_ok, Ensures, Ensures-ok, ◌≡◌,
  refl, Bool-cases, inl, inr,
}
use libsystemd_rs.Error.{SdError}
use libsystemd_rs.Sysusers.Entry.{
  SysusersEntry, add_range, add_user_to_group, create_group, create_user_and_group, type_signature,
}
use libsystemd_rs.Sysusers.Nom.{Nom}
use libsystemd_rs.Sysusers.Parse.{
  dispatch, entry_from_str, range_from_str, member_from_str, group_from_str, user_from_str,
}

-- The text starts with the signature of the entry.
abbrev pub StartsWithSignature : Str → SysusersEntry → Type 0
StartsWithSignature s e = (rest : Str) × (s ≡ type_signature e ++ rest)

signed {ℓ} :
    {A : Type ℓ} (f : A → SysusersEntry) (m : Result SdError A) (t letter : ℕ) (s : Str)
    → ((a : A) → type_signature (f a) ≡ letter ∷ [])
    → t ≡ letter
    → Ensures (StartsWithSignature (t ∷ s)) (map_ok f m)
signed f (err e) t letter s h same = tt
signed f (ok a) t letter s h same = (s, rw (h a, same) refl)

module _ (n : Nom) where
  dispatch-StartsWithSignature : (s : Str) → Ensures (StartsWithSignature s) (dispatch n s)
  unfolding dispatch type_signature
  dispatch-StartsWithSignature [] = tt
  dispatch-StartsWithSignature (t ∷ s) = elim (Bool-cases (t == b'g')) [
    | inl group ↦ rw group (
        signed create_group (group_from_str n (t ∷ s)) t b'g' s (λ a. refl)
          ((==_iff t b'g').0 group))
    | inr not_group ↦ rw not_group (elim (Bool-cases (t == b'm')) [
      | inl member ↦ rw member (
          signed add_user_to_group (member_from_str n (t ∷ s)) t b'm' s (λ a. refl)
            ((==_iff t b'm').0 member))
      | inr not_member ↦ rw not_member (elim (Bool-cases (t == b'r')) [
        | inl range ↦ rw range (
            signed add_range (range_from_str n (t ∷ s)) t b'r' s (λ a. refl)
              ((==_iff t b'r').0 range))
        | inr not_range ↦ rw not_range (elim (Bool-cases (t == b'u')) [
          | inl user ↦ rw user (
              signed create_user_and_group (user_from_str n (t ∷ s)) t b'u' s (λ a. refl)
                ((==_iff t b'u').0 user))
          | inr other ↦ rw other tt
        ])
      ])
    ])
  ]

  -- An entry that is read from a line has the type that the first letter of the trimmed line names.
  pub entry_from_str-type_signature :
      (s : Str) (e : SysusersEntry)
      → entry_from_str n s ≡ ok e
      → (rest : Str) × (trim s ≡ type_signature e ++ rest)
  unfolding entry_from_str
  entry_from_str-type_signature s e h =
      Ensures-ok (StartsWithSignature (trim s)) (dispatch n (trim s))
        (dispatch-StartsWithSignature (trim s)) h
