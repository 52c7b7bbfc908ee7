-- ===== src/Sysusers/Parse/Reader/Outcome.antt =====
-- What `parse_from_reader` returns, line by line.
use libsystemd_rs.Base.{
  ℕ, suc, ◌+◌, List, [], ◌∷◌, ◌++◌, append-nil, append_assoc, length, Str, Result, ok, err, ◌≡◌,
  refl, arith, ◌⊎◌, inl, inr, ap, sym, ◌∙◌,
}
use libsystemd_rs.Error.{SdError}
use libsystemd_rs.Sysusers.Entry.{SysusersEntry}
use libsystemd_rs.Sysusers.Nom.{Nom}
use libsystemd_rs.Sysusers.Parse.Reader.{
  Step, skip, push, warn, stop, line_step, read_lines, parse_from_reader, saturating_add,
}

-- The entry that a step adds, the warning that it logs, and whether the loop goes on.
abbrev pub entries_of : Step → List SysusersEntry
entries_of (push e) = e ∷ []
entries_of _ = []

abbrev pub warnings_of : Step → List Str
warnings_of (warn msg) = msg ∷ []
warnings_of _ = []

abbrev pub Continues : Step → Type 0
Continues (stop e) = ⊥
Continues _ = Unit

module _ (n : Nom) where
  -- The number of a line, from 1 on.
  abbrev pub numbered : ℕ → Result Str Str → Step
  numbered index item = line_step n (saturating_add index 1) item

  -- From a given line on: every line continues; the entries, in order; the warnings, in order.
  abbrev pub AllContinue : ℕ → List (Result Str Str) → Type 0
  AllContinue i [] = Unit
  AllContinue i (l ∷ ls) = Continues (numbered i l) × AllContinue (suc i) ls

  abbrev pub all_entries : ℕ → List (Result Str Str) → List SysusersEntry
  all_entries i [] = []
  all_entries i (l ∷ ls) = entries_of (numbered i l) ++ all_entries (suc i) ls

  abbrev pub all_warnings : ℕ → List (Result Str Str) → List Str
  all_warnings i [] = []
  all_warnings i (l ∷ ls) = warnings_of (numbered i l) ++ all_warnings (suc i) ls

  -- The loop behind one step.
  abbrev resume :
      ℕ
      → List SysusersEntry
      → List Str
      → List (Result Str Str)
      → Step
      → Result SdError (List SysusersEntry) × List Str
  resume i out ws ls skip = read_lines n (suc i) out ws ls
  resume i out ws ls (push e) = read_lines n (suc i) (out ++ e ∷ []) ws ls
  resume i out ws ls (warn msg) = read_lines n (suc i) out (ws ++ msg ∷ []) ls
  resume i out ws ls (stop e) = (err e, ws)

  read_lines-resume :
      (i : ℕ) (out : List SysusersEntry) (ws : List Str) (l : Result Str Str)
      (ls : List (Result Str Str))
      → read_lines n i out ws (l ∷ ls) ≡ resume i out ws ls (numbered i l)
  unfolding read_lines
  read_lines-resume i out ws l ls = ground arith

  resume-skips :
      (i : ℕ) (out : List SysusersEntry) (ws : List Str) (ls : List (Result Str Str)) (s : Step)
      → Continues s
      → resume i out ws ls s ≡ read_lines n (suc i) (out ++ entries_of s) (ws ++ warnings_of s) ls
  resume-skips i out ws ls skip h = rw (append-nil out, append-nil ws)
  resume-skips i out ws ls (push e) h = rw (append-nil ws)
  resume-skips i out ws ls (warn msg) h = rw (append-nil out)
  resume-skips i out ws ls (stop e) h = absurd h

  -- Over lines that continue the loop collects entries and warnings, whatever stands behind them.
  read_lines-append :
      (i : ℕ) (out : List SysusersEntry) (ws : List Str) (ls rest : List (Result Str Str))
      → AllContinue i ls
      → read_lines n i out ws (ls ++ rest)
        ≡ read_lines n (i + length ls) (out ++ all_entries i ls) (ws ++ all_warnings i ls) rest
  read_lines-append i out ws [] rest h =
      let same : i + 0 ≡ i = omega arith in rw (append-nil out, append-nil ws, same)
  read_lines-append i out ws (l ∷ ls) rest (h, hs) =
      let further : suc i + length ls ≡ i + suc (length ls) = omega arith in
      read_lines-resume i out ws l (ls ++ rest)
      ∙ resume-skips i out ws (ls ++ rest) (numbered i l) h
      ∙ read_lines-append (suc i) _ _ ls rest hs
      ∙ rw (
        further,
        append_assoc out (entries_of (numbered i l)) (all_entries (suc i) ls),
        append_assoc ws (warnings_of (numbered i l)) (all_warnings (suc i) ls),
      )

  -- The first line that does not continue, if there is one.
  pub record StopsAt (i : ℕ) (lines : List (Result Str Str)) (e : SdError) : Type 0 where
    pub before : List (Result Str Str)
    pub line : Result Str Str
    pub after : List (Result Str Str)
    pub splits : lines ≡ before ++ line ∷ after
    pub continue_before : AllContinue i before
    pub stopped : numbered (i + length before) line ≡ stop e

  StopsAt-cons :
      (i : ℕ) (l : Result Str Str) {ls : List (Result Str Str)} {e : SdError}
      → Continues (numbered i l)
      → StopsAt (suc i) ls e
      → StopsAt i (l ∷ ls) e
  StopsAt-cons i l h s = record {
    before = l ∷ s.before;
    line = s.line;
    after = s.after;
    splits = ap (◌∷◌ l) s.splits;
    continue_before = (h, s.continue_before);
    stopped =
        let further : i + suc (length s.before) ≡ suc i + length s.before = omega arith in
        rw further s.stopped;
  }

  Step-cases : (s : Step) → Continues s ⊎ ((e : SdError) × (s ≡ stop e))
  Step-cases skip = inl tt
  Step-cases (push e) = inl tt
  Step-cases (warn msg) = inl tt
  Step-cases (stop e) = inr (e, refl)

  -- Either all lines continue or one is the first to stop.
  pub lines_outcome :
      (i : ℕ) (ls : List (Result Str Str)) → AllContinue i ls ⊎ ((e : SdError) × StopsAt i ls e)
  lines_outcome i [] = inl tt
  lines_outcome i (l ∷ ls) = elim (Step-cases (numbered i l)) [
    | inr (e, h) ↦ inr (
      e,
      record {
        before = [];
        line = l;
        after = ls;
        splits = refl;
        continue_before = tt;
        stopped = let same : i + 0 ≡ i = omega arith in rw same h;
      },
    )
    | inl h ↦ elim (lines_outcome (suc i) ls) [
      | inl hs ↦ inl (h, hs)
      | inr (e, s) ↦ inr (e, StopsAt-cons i l h s)
    ]
  ]

  -- If every line continues, the result is all their entries in order, with all warnings in order.
  pub parse_from_reader_ok :
      (ls : List (Result Str Str))
      → AllContinue 0 ls
      → parse_from_reader n ls ≡ (ok (all_entries 0 ls), all_warnings 0 ls)
  unfolding parse_from_reader
  parse_from_reader_ok ls h =
      ap (read_lines n 0 [] []) (sym (append-nil ls)) ∙ read_lines-append 0 [] [] ls [] h

  -- If a line stops the loop, the result is its error, with the warnings of the lines before it.
  pub parse_from_reader_err :
      (ls : List (Result Str Str)) {e : SdError} (s : StopsAt 0 ls e)
      → parse_from_reader n ls ≡ (err e, all_warnings 0 s.before)
  unfolding parse_from_reader
  parse_from_reader_err ls s =
      ap (read_lines n 0 [] []) s.splits
      ∙ read_lines-append 0 [] [] s.before (s.line ∷ s.after) s.continue_before
      ∙ read_lines-resume (0 + length s.before) _ _ s.line s.after
      ∙ rw s.stopped
