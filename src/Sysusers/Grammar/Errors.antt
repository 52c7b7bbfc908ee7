-- ===== src/Sysusers/Grammar/Errors.antt =====
-- The errors of `parse_to_sysusers_data` of src/sysusers/parse.rs, by the grammar.
use libsystemd_rs.Base.{
  false, [], ◌∷◌, ◌++◌, is_empty, Str, codes, Result, ok, err, ◌≡◌, refl, inl, inr, Result-cases,
}
use libsystemd_rs.Error.{SdError, from_str}
use libsystemd_rs.Sysusers.Data.{SysusersData}
use libsystemd_rs.Sysusers.Grammar.Fields.{IsLine-parse_line, parse_line-IsLine}
use libsystemd_rs.Sysusers.Grammar.{IsLine}
use libsystemd_rs.Sysusers.Nom.{Nom, NomLaws, NomError}
use libsystemd_rs.Sysusers.Parse.{failed_msg, parse_line, parse_to_sysusers_data}

-- The text of `invalid trailing data: '{}'`
abbrev pub trailing_msg : Str → Str
trailing_msg rest = codes "invalid trailing data: '" ++ rest ++ codes "'"

module _ (n : Nom) where
  -- What a text is by the grammar, and what is returned for it.
  pub data IsRead (s : Str) (r : Result SdError SysusersData) : Type 0 where
    whole : (d : SysusersData) → IsLine s [] d → r ≡ ok d → IsRead s r
    trailing :
        (rest : Str) (d : SysusersData)
        → is_empty rest ≡ false
        → IsLine s rest d
        → r ≡ err (from_str (trailing_msg rest))
        → IsRead s r
    no_line :
        (e : NomError)
        → ((rest : Str) (d : SysusersData) → ¬ IsLine s rest d)
        → parse_line n s ≡ err e
        → r ≡ err (from_str (failed_msg n e))
        → IsRead s r

  module _ (laws : NomLaws n) where
    left-IsRead :
        (s rest : Str) (d : SysusersData)
        → parse_line n s ≡ ok (rest, d)
        → IsRead s (parse_to_sysusers_data n s)
    unfolding parse_to_sysusers_data
    left-IsRead s [] d h = whole d (parse_line-IsLine n laws s [] d h) (rw h refl)
    left-IsRead s (c ∷ rest) d h =
        trailing (c ∷ rest) d refl (parse_line-IsLine n laws s (c ∷ rest) d h) (rw h refl)

    -- Every text is read in one of three ways: a line of six fields gives the fields, such a line with
    -- something behind it gives an error that names what is left, and a text that does not begin with
    -- such a line gives an error that names the error of nom's parsers on the text.
    pub parse_to_sysusers_data-IsRead : (s : Str) → IsRead s (parse_to_sysusers_data n s)
    unfolding parse_to_sysusers_data
    parse_to_sysusers_data-IsRead s = elim (Result-cases (parse_line n s)) [
      | inr ((rest, d), good) ↦ left-IsRead s rest d good
      | inl (e, bad) ↦
          no_line e (λ rest d l. let good = IsLine-parse_line n laws s rest d l in cc (good, bad))
            bad (rw bad refl)
    ]
