-- ===== src/Sysusers/Parse/Reader/Account.antt =====
-- No line is lost.
use libsystemd_rs.Base.{
  ℕ, suc, ◌+◌, false, Bool, List, [], ◌∷◌, keep, length, length-append, if◌then◌else◌, trim, Str,
  Result, ok, err, ◌≡◌, arith, inl, inr, Result-cases,
}
use libsystemd_rs.Sysusers.Entry.{SysusersEntry}
use libsystemd_rs.Sysusers.Nom.{Nom}
use libsystemd_rs.Sysusers.Parse.Reader.Outcome.{
  Continues, AllContinue, entries_of, warnings_of, all_entries, all_warnings, lines_outcome,
  parse_from_reader_ok, parse_from_reader_err,
}
use libsystemd_rs.Sysusers.Parse.Reader.{
  is_skipped, parsed_step, line_step, parse_from_reader, saturating_add,
}
use libsystemd_rs.Sysusers.Parse.{entry_from_str}

-- A line that can be read and is empty or a comment
abbrev pub is_blank : Result Str Str → Bool
is_blank (err e) = false
is_blank (ok line) = is_skipped (trim line)

module _ (n : Nom) where
  one_each :
      (k : ℕ) (l : Result Str Str)
      → Continues (line_step n k l)
      → length (entries_of (line_step n k l))
          + length (warnings_of (line_step n k l))
          + (if is_blank l then 1 else 0)
        ≡ 1
  unfolding line_step parsed_step
  one_each k (err e) h = absurd h
  one_each k (ok line) h = ground (arith, Result-cases (entry_from_str n (trim line)))

  all_each :
      (i : ℕ) (ls : List (Result Str Str))
      → AllContinue n i ls
      → length (all_entries n i ls) + length (all_warnings n i ls) + length (keep is_blank ls)
        ≡ length ls
  all_each i [] h = omega arith
  all_each i (l ∷ ls) (h, hs) =
      let here = one_each (saturating_add i 1) l h in
      let there = all_each (suc i) ls hs in
      let step = line_step n (saturating_add i 1) l in
      ground (
        arith,
        here,
        there,
        length-append (entries_of step) (all_entries n (suc i) ls),
        length-append (warnings_of step) (all_warnings n (suc i) ls),
      )

  -- When the reader succeeds, the number of entries that it returns, of warnings that it logs and of
  -- lines that are empty or a comment add up to the number of lines.
  pub parse_from_reader_account :
      (ls : List (Result Str Str)) (es : List SysusersEntry)
      → (parse_from_reader n ls).0 ≡ ok es
      → length es + length (parse_from_reader n ls).1 + length (keep is_blank ls) ≡ length ls
  parse_from_reader_account ls es h = elim (lines_outcome n 0 ls) [
    | inl all ↦
        let outcome = parse_from_reader_ok n ls all in
        let same : es ≡ all_entries n 0 ls = cc in rw (same, outcome) (all_each 0 ls all)
    | inr (e, s) ↦ absurd (cc (h, parse_from_reader_err n ls s))
  ]
