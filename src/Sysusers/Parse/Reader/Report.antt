-- ===== src/Sysusers/Parse/Reader/Report.antt =====
-- `parse_from_reader` against a description of what each line is, with no loop and no step.
use libsystemd_rs.Base.{
  ℕ, suc, ◌+◌, true, false, List, [], ◌∷◌, ◌++◌, map, concat, All, length, if◌then◌else◌, trim, Str,
  Result, ok, err, ◌≡◌, ◌↔◌, refl, arith, ◌⊎◌, inl, inr, ap, Bool-cases, Result-cases,
}
use libsystemd_rs.Error.{SdError, ErrorKind, generic, sysusers_unknown_type, from_str}
use libsystemd_rs.Sysusers.Entry.{SysusersEntry}
use libsystemd_rs.Sysusers.Nom.{Nom}
use libsystemd_rs.Sysusers.Parse.Dispatch.{HasUnknownLetter, entry_from_str-unknown_iff}
use libsystemd_rs.Sysusers.Parse.Reader.Outcome.{
  Continues, AllContinue, StopsAt, entries_of, all_entries, lines_outcome, parse_from_reader_ok,
  parse_from_reader_err,
}
use libsystemd_rs.Sysusers.Parse.Reader.{
  stop, is_skipped, parsed_step, line_step, parse_from_reader, saturating_add, read_failed_msg,
  parse_failed_msg,
}
use libsystemd_rs.Sysusers.Parse.{entry_from_str}

ErrorKind-cases : (k : ErrorKind) → (k ≡ generic) ⊎ (k ≡ sysusers_unknown_type)
ErrorKind-cases generic = inl refl
ErrorKind-cases sysusers_unknown_type = inr refl

module _ (n : Nom) where
  -- The entry in a line, if there is one.
  abbrev pub entry_of : Result Str Str → List SysusersEntry
  entry_of (err e) = []
  entry_of (ok line) =
      if is_skipped (trim line)
      then []
      else elim (entry_from_str n (trim line)) [ ok e ↦ e ∷ [] | err _ ↦ [] ]

  -- A line that can be read, and is empty, a comment, an entry, or of an unknown type.
  abbrev pub Accepts : Result Str Str → Type 0
  Accepts (err e) = ⊥
  Accepts (ok line) =
      (is_skipped (trim line) ≡ true)
      ⊎ ((e : SysusersEntry) × (entry_from_str n (trim line) ≡ ok e))
      ⊎ HasUnknownLetter (trim (trim line))

  -- A line that fails with a given error, which names the line's number.
  abbrev pub Rejects : ℕ → Result Str Str → SdError → Type 0
  Rejects k (err e) reported = reported ≡ from_str (read_failed_msg k e)
  Rejects k (ok line) reported =
      (cause : SdError) × (is_skipped (trim line) ≡ false)
      × (entry_from_str n (trim line) ≡ err cause)
      × (¬ HasUnknownLetter (trim (trim line)))
      × (reported ≡ from_str (parse_failed_msg k cause.msg))

  entries_of-entry_of : (k : ℕ) (l : Result Str Str) → entries_of (line_step n k l) ≡ entry_of l
  unfolding line_step parsed_step
  entries_of-entry_of k (err e) = refl
  entries_of-entry_of k (ok line) = ground arith

  step-Accepts : (k : ℕ) (l : Result Str Str) → Continues (line_step n k l) → Accepts l
  unfolding line_step parsed_step
  step-Accepts k (err e) h = h
  step-Accepts k (ok line) h = elim (Bool-cases (is_skipped (trim line))) [
    | inl skipped ↦ inl skipped
    | inr kept ↦ elim (Result-cases (entry_from_str n (trim line))) [
      | inr (e, good) ↦ inr (inl (e, good))
      | inl (e, bad) ↦ elim (ErrorKind-cases e.kind) [
        | inr unknown ↦ inr (inr ((entry_from_str-unknown_iff n (trim line)).0 (e, bad, unknown)))
        | inl known ↦ absurd (ground arith)
      ]
    ]
  ]

  Accepts-step : (k : ℕ) (l : Result Str Str) → Accepts l → Continues (line_step n k l)
  unfolding line_step parsed_step
  Accepts-step k (err e) h = h
  Accepts-step k (ok line) (inl skipped) = ground arith
  Accepts-step k (ok line) (inr (inl (e, good))) = ground arith
  Accepts-step k (ok line) (inr (inr letter)) =
      let (e, bad, unknown) = (entry_from_str-unknown_iff n (trim line)).1 letter in ground arith

  step-Rejects :
      (k : ℕ) (l : Result Str Str) (e : SdError) → line_step n k l ≡ stop e → Rejects k l e
  unfolding line_step parsed_step
  step-Rejects k (err e) reported h = ground arith
  step-Rejects k (ok line) reported h = elim (Result-cases (entry_from_str n (trim line))) [
    | inr (e, good) ↦ absurd (ground arith)
    | inl (e, bad) ↦ (
      e,
      ground arith,
      bad,
      (λ letter.
          let (x, failed, unknown) = (entry_from_str-unknown_iff n (trim line)).1 letter in
          ground arith),
      ground arith,
    )
  ]

  continue-Accepts : (i : ℕ) (ls : List (Result Str Str)) → AllContinue n i ls → All Accepts ls
  continue-Accepts i [] h = tt
  continue-Accepts i (l ∷ ls) (h, hs) = (step-Accepts _ l h, continue-Accepts (suc i) ls hs)

  Accepts-continue : (i : ℕ) (ls : List (Result Str Str)) → All Accepts ls → AllContinue n i ls
  Accepts-continue i [] h = tt
  Accepts-continue i (l ∷ ls) (h, hs) = (Accepts-step _ l h, Accepts-continue (suc i) ls hs)

  all_entries-entry_of :
      (i : ℕ) (ls : List (Result Str Str)) → all_entries n i ls ≡ concat (map entry_of ls)
  all_entries-entry_of i [] = refl
  all_entries-entry_of i (l ∷ ls) =
      rw (entries_of-entry_of _ l) (ap (◌++◌ (entry_of l)) (all_entries-entry_of (suc i) ls))

  -- Where the input is refused: the lines before are accepted, and the error names the first line that
  -- is not, counted from 1.
  pub record Report (lines : List (Result Str Str)) (e : SdError) : Type 0 where
    pub before : List (Result Str Str)
    pub line : Result Str Str
    pub after : List (Result Str Str)
    pub splits : lines ≡ before ++ line ∷ after
    pub accepts_before : All Accepts before
    pub rejects : Rejects (saturating_add (length before) 1) line e

  StopsAt-Report : (ls : List (Result Str Str)) {e : SdError} → StopsAt n 0 ls e → Report ls e
  StopsAt-Report ls {e} s = record {
    before = s.before;
    line = s.line;
    after = s.after;
    splits = s.splits;
    accepts_before = continue-Accepts 0 s.before s.continue_before;
    rejects =
        let index : 0 + length s.before ≡ length s.before = omega arith in
        rw index at (step-Rejects _ s.line e s.stopped);
  }

  -- The reader returns entries exactly when it accepts every line, and they are the entries of the
  -- lines in order.
  pub parse_from_reader-ok_iff :
      (ls : List (Result Str Str)) (es : List SysusersEntry)
      → ((parse_from_reader n ls).0 ≡ ok es) ↔ (All Accepts ls × (es ≡ concat (map entry_of ls)))
  parse_from_reader-ok_iff ls es = (
    (λ h. elim (lines_outcome n 0 ls) [
      | inl all ↦ (
        continue-Accepts 0 ls all,
        cc (h, parse_from_reader_ok n ls all, all_entries-entry_of 0 ls),
      )
      | inr (e, s) ↦ absurd (cc (h, parse_from_reader_err n ls s))
    ]),
    (λ (all, same).
        cc (parse_from_reader_ok n ls (Accepts-continue 0 ls all), all_entries-entry_of 0 ls)),
  )

  -- When the reader fails, its error is that of the first line that it does not accept, under that
  -- line's number.
  pub parse_from_reader-Report :
      (ls : List (Result Str Str)) (e : SdError) → (parse_from_reader n ls).0 ≡ err e → Report ls e
  parse_from_reader-Report ls e h = elim (lines_outcome n 0 ls) [
    | inl all ↦ absurd (cc (h, parse_from_reader_ok n ls all))
    | inr (e', s) ↦
        let same : e' ≡ e = cc (h, parse_from_reader_err n ls s) in rw same at (StopsAt-Report ls s)
  ]
