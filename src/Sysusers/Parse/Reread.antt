-- ===== src/Sysusers/Parse/Reread.antt =====
-- Reading a printed file, and an entry whose print cannot be read.
use libsystemd_rs.Base.{
  false, List, [], ◌∷◌, ◌++◌, map, concat, All, trim, Str, Result, ok, err, ◌≡◌, refl, inl, inr, ap,
}
use libsystemd_rs.Error.{SdError, from_str}
use libsystemd_rs.Sysusers.Data.Read.{IsCanonical}
use libsystemd_rs.Sysusers.Entry.{
  CreateUserAndGroup, SysusersEntry, add_range, add_user_to_group, create_group,
  create_user_and_group,
}
use libsystemd_rs.Sysusers.Format.{
  path_or_dash, display, display_range, display_member, display_group, display_user,
}
use libsystemd_rs.Sysusers.Nom.{Nom, NomLaws}
use libsystemd_rs.Sysusers.Parse.Printable.{
  Fits, IdFits, dashed, EndsPlain, IsName-IsField, display_id-IsField,
}
use libsystemd_rs.Sysusers.Parse.Reader.Report.{Accepts, entry_of, parse_from_reader-ok_iff}
use libsystemd_rs.Sysusers.Parse.Reader.{parse_from_reader, is_skipped}
use libsystemd_rs.Sysusers.Parse.RoundTrip.{trim-display, trim-display_user, entry_from_str-display}
use libsystemd_rs.Sysusers.Id.{display_id}
use libsystemd_rs.Sysusers.Parse.Line.{parse_line-empty_quotes}
use libsystemd_rs.Sysusers.Parse.{
  failed_msg, entry_from_str, dispatch, user_from_str, parse_to_sysusers_data,
}

-- A file of printed entries.
abbrev pub printed : List SysusersEntry → List (Result Str Str)
printed = map (λ e. ok (display e))

display-kept : (e : SysusersEntry) → is_skipped (display e) ≡ false
unfolding display display_range display_member display_group display_user
display-kept (add_range v) = refl
display-kept (add_user_to_group v) = refl
display-kept (create_group v) = refl
display-kept (create_user_and_group v) = refl

abbrev pub IsPrintable : SysusersEntry → Type 0
IsPrintable e = IsCanonical e × Fits e

module _ (n : Nom) (laws : NomLaws n) where
  reread : (e : SysusersEntry) → IsPrintable e → entry_from_str n (trim (display e)) ≡ ok (dashed e)
  reread e h = rw (trim-display e h.1) (entry_from_str-display n laws e h.0 h.1)

  reread-entry_of :
      (e : SysusersEntry) → IsPrintable e → entry_of n (ok (display e)) ≡ dashed e ∷ []
  reread-entry_of e h =
      rw (trim-display e h.1, display-kept e, entry_from_str-display n laws e h.0 h.1)

  reread_lines :
      (es : List SysusersEntry)
      → All IsPrintable es
      → All (Accepts n) (printed es) × (map dashed es ≡ concat (map (entry_of n) (printed es)))
  reread_lines [] h = (tt, refl)
  reread_lines (e ∷ es) (h, hs) =
      let (accepted, same) = reread_lines es hs in
      (
        (inr (inl (dashed e, reread e h)), accepted),
        rw (reread-entry_of e h) (ap (◌∷◌ (dashed e)) same),
      )

  -- Let nom's parsers keep the laws of `NomLaws`. A file of printed entries, each canonical and with
  -- texts that fit, is read back in order, but that a missing home directory or shell is read as the
  -- path `-`.
  pub parse_from_reader-display :
      (es : List SysusersEntry)
      → All IsPrintable es
      → (parse_from_reader n (printed es)).0 ≡ ok (map dashed es)
  parse_from_reader-display es h =
      (parse_from_reader-ok_iff n (printed es) (map dashed es)).1 (reread_lines es h)

  -- Let nom's parsers keep the laws of `NomLaws`. A canonical user with an empty GECOS text, which the
  -- constructors allow, is printed as a line whose parse fails, whenever the print of its ID fits and
  -- its shell ends the line with no whitespace.
  pub display-empty_gecos :
      (v : CreateUserAndGroup)
      → IsCanonical (create_user_and_group v)
      → IdFits v.id
      → EndsPlain (path_or_dash v.shell)
      → v.gecos ≡ []
      → (e : SdError) × (entry_from_str n (display (create_user_and_group v)) ≡ err e)
  unfolding entry_from_str display
  display-empty_gecos v c fits ends empty =
      let (failure, bad) =
        parse_line-empty_quotes n laws b'u' v.name (display_id v.id)
          (b' ' ∷ (path_or_dash v.home_dir ++ b' ' ∷ path_or_dash v.shell))
          (IsName-IsField v.name c.0) (display_id-IsField v.id c.1 fits) in
      (
        from_str (failed_msg n failure),
        rw (trim-display_user v ends)
            (unfold dispatch display_user user_from_str parse_to_sysusers_data in rw (empty, bad)),
      )
