-- ===== src/Sysusers/Grammar/Entries.antt =====
-- `parse_to_sysusers_data` and `FromStr` of `SysusersEntry` in src/sysusers/parse.rs, held to the
-- grammar of a line and to the conversions of raw fields.
use libsystemd_rs.Base.{
  ℕ, true, false, [], ◌∷◌, none, some, ◌==◌, is_empty, not, if◌then◌else◌, trim, equal, Str, Result,
  ok, err, map_ok, map_err, ◌>>=◌, >>=-eq-ok, >>=-elim, map_ok-eq-ok, map_err-eq-ok, ◌≡◌, ◌↔◌, refl,
  arith, Bool-cases, inl, inr, ==_iff,
}
use libsystemd_rs.Error.{SdError, from_str}
use libsystemd_rs.Sysusers.Data.Serde.{not_range, not_member, not_group, not_user}
use libsystemd_rs.Sysusers.Data.{
  SysusersData, range_try_from, member_try_from, group_try_from, user_try_from, entry_from_data,
  or_else,
}
use libsystemd_rs.Sysusers.Entry.{
  SysusersEntry, add_range, add_user_to_group, create_group, create_user_and_group,
}
use libsystemd_rs.Sysusers.Grammar.Fields.{IsLine-parse_line, parse_line-IsLine}
use libsystemd_rs.Sysusers.Grammar.{IsLine}
use libsystemd_rs.Sysusers.Nom.{Nom, NomLaws}
use libsystemd_rs.Sysusers.Parse.{
  failed_msg, parse_line, parse_to_sysusers_data, range_from_str, member_from_str, group_from_str,
  user_from_str, dispatch, entry_from_str,
}

-- The line of an entry, as the grammar and the untagged conversion of its fields have it.
abbrev pub Describes : Str → SysusersEntry → Type 0
Describes s e = (d : SysusersData) × IsLine s [] d × (entry_from_data d ≡ some e)

-- The one variant that the "Type" field leaves.
module _ (d : SysusersData) (t : ℕ) (kind_is : d.kind ≡ t ∷ []) where
  other_kind : (letter : ℕ) → (t == letter) ≡ false → equal d.kind (letter ∷ []) ≡ false
  unfolding equal
  other_kind letter h = rw (kind_is, h)

  as_range : (t == b'r') ≡ true → entry_from_data d ≡ or_else add_range (range_try_from d) none
  unfolding entry_from_data
  as_range h = rw (
    (not_member d (other_kind b'm' (ground (arith, ==_iff t b'r')))).1,
    (not_group d (other_kind b'g' (ground (arith, ==_iff t b'r')))).1,
    (not_user d (other_kind b'u' (ground (arith, ==_iff t b'r')))).1,
  )

  as_member :
      (t == b'm') ≡ true → entry_from_data d ≡ or_else add_user_to_group (member_try_from d) none
  unfolding entry_from_data
  as_member h = rw (
    (not_range d (other_kind b'r' (ground (arith, ==_iff t b'm')))).1,
    (not_group d (other_kind b'g' (ground (arith, ==_iff t b'm')))).1,
    (not_user d (other_kind b'u' (ground (arith, ==_iff t b'm')))).1,
  )

  as_group : (t == b'g') ≡ true → entry_from_data d ≡ or_else create_group (group_try_from d) none
  unfolding entry_from_data
  as_group h = rw (
    (not_range d (other_kind b'r' (ground (arith, ==_iff t b'g')))).1,
    (not_member d (other_kind b'm' (ground (arith, ==_iff t b'g')))).1,
    (not_user d (other_kind b'u' (ground (arith, ==_iff t b'g')))).1,
  )

  as_user :
      (t == b'u') ≡ true → entry_from_data d ≡ or_else create_user_and_group (user_try_from d) none
  unfolding entry_from_data
  as_user h = rw (
    (not_range d (other_kind b'r' (ground (arith, ==_iff t b'u')))).1,
    (not_member d (other_kind b'm' (ground (arith, ==_iff t b'u')))).1,
    (not_group d (other_kind b'g' (ground (arith, ==_iff t b'u')))).1,
  )

  as_none :
      (t == b'r') ≡ false
      → (t == b'm') ≡ false
      → (t == b'g') ≡ false
      → (t == b'u') ≡ false
      → entry_from_data d ≡ none
  unfolding entry_from_data
  as_none r m g u = rw (
    (not_range d (other_kind b'r' r)).1,
    (not_member d (other_kind b'm' m)).1,
    (not_group d (other_kind b'g' g)).1,
    (not_user d (other_kind b'u' u)).1,
  )

-- The "Type" field is the first character.
first_kind : (t : ℕ) (s : Str) (d : SysusersData) → IsLine (t ∷ s) [] d → d.kind ≡ t ∷ []
first_kind t s d l = cc (l.typed, l.kind_is)

or_else_iff {ℓ} :
    {A : Type ℓ} (f : A → SysusersEntry) (r : Result SdError A) (e : SysusersEntry)
    → (map_ok f r ≡ ok e) ↔ (or_else f r none ≡ some e)
or_else_iff f (ok a) e = (λ h. cc, λ h. cc)
or_else_iff f (err x) e = (λ h. cc, λ h. cc)

nothing_left :
    (rest : Str) {fields d : SysusersData} (e : SdError)
    → (if not (is_empty rest) then err e else ok fields) ≡ ok d
    → (rest ≡ []) × (fields ≡ d)
nothing_left [] e h = (refl, cc)
nothing_left (c ∷ rest) e h = absurd (cc h)

module _ (n : Nom) (laws : NomLaws n) where
  pub parse_to_sysusers_data_iff :
      (s : Str) (d : SysusersData) → (parse_to_sysusers_data n s ≡ ok d) ↔ IsLine s [] d
  unfolding parse_to_sysusers_data
  parse_to_sysusers_data_iff s d = (
    λ h.
        >>=-elim (map_err (λ e. from_str (failed_msg n e)) (parse_line n s)) _ h
          λ (rest, fields) first last.
            let parsed = map_err-eq-ok (λ e. from_str (failed_msg n e)) (parse_line n s) first in
            let (nothing, same) = nothing_left rest _ last in
            parse_line-IsLine n laws s [] d (cc (parsed, nothing, same)),
    λ l. rw (IsLine-parse_line n laws s [] d l),
  )

  -- One conversion behind the parser of the raw fields
  converted_iff {ℓ} :
      {A : Type ℓ} (f : A → SysusersEntry) (try_from : SysusersData → Result SdError A) (s : Str)
      (e : SysusersEntry)
      → ((d : SysusersData) → IsLine s [] d → entry_from_data d ≡ or_else f (try_from d) none)
      → (map_ok f (parse_to_sysusers_data n s >>= try_from) ≡ ok e) ↔ Describes s e
  converted_iff f try_from s e only = (
    λ h.
        let (v, chain, same) = map_ok-eq-ok f (parse_to_sysusers_data n s >>= try_from) h in
        let (d, parsed, converted) = >>=-eq-ok (parse_to_sysusers_data n s) try_from chain in
        let line = (parse_to_sysusers_data_iff s d).0 parsed in
        (d, line, rw (only d line, converted) (cc)),
    λ (d, line, found).
        let parsed = (parse_to_sysusers_data_iff s d).1 line in
        rw parsed ((or_else_iff f (try_from d) e).1 (rw (only d line) at found)),
  )

  dispatch_iff : (s : Str) (e : SysusersEntry) → (dispatch n s ≡ ok e) ↔ Describes s e
  unfolding dispatch
  dispatch_iff [] e = (λ h. cc, λ (d, l, _). cc (l.typed))
  dispatch_iff (t ∷ s) e = elim (Bool-cases (t == b'g')) [
    | inl is_g ↦ rw is_g (
        unfold group_from_str in
        converted_iff create_group group_try_from (t ∷ s) e
          (λ d l. as_group d t (first_kind t s d l) is_g))
    | inr not_g ↦ elim (Bool-cases (t == b'm')) [
      | inl is_m ↦
          rw (not_g, is_m)
            (unfold member_from_str in
              converted_iff add_user_to_group member_try_from (t ∷ s) e
                (λ d l. as_member d t (first_kind t s d l) is_m))
      | inr not_m ↦ elim (Bool-cases (t == b'r')) [
        | inl is_r ↦
            rw (not_g, not_m, is_r)
              (unfold range_from_str in
                converted_iff add_range range_try_from (t ∷ s) e
                  (λ d l. as_range d t (first_kind t s d l) is_r))
        | inr not_r ↦ elim (Bool-cases (t == b'u')) [
          | inl is_u ↦
              rw (not_g, not_m, not_r, is_u)
                (unfold user_from_str in
                  converted_iff create_user_and_group user_try_from (t ∷ s) e
                    (λ d l. as_user d t (first_kind t s d l) is_u))
          | inr not_u ↦
              rw (not_g, not_m, not_r, not_u)
                (
                  λ h. absurd (cc h),
                  λ (d, l, found).
                      cc (as_none d t (first_kind t s d l) not_r not_m not_g not_u, found),
                )
        ]
      ]
    ]
  ]

  -- A text parses to an entry exactly when, trimmed, it is a line of the grammar whose raw fields
  -- the untagged conversion takes to that entry.
  pub entry_from_str_iff :
      (s : Str) (e : SysusersEntry) → (entry_from_str n s ≡ ok e) ↔ Describes (trim s) e
  unfolding entry_from_str
  entry_from_str_iff s e = dispatch_iff (trim s) e
