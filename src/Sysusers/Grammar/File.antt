-- ===== src/Sysusers/Grammar/File.antt =====
-- The entries of a sysusers.d file, as a relation between its lines and them, and `parse_from_reader`
-- of src/sysusers/parse.rs held to it.
use libsystemd_rs.Base.{
  ℕ, true, false, List, [], ◌∷◌, ◌++◌, map, concat, All, ◌==◌, trim, trim-trim, Str, Result, ok,
  err, ◌≡◌, ◌≢◌, ◌↔◌, refl, arith, inl, inr, ==_iff, Bool-cases,
}
use libsystemd_rs.Sysusers.Entry.{SysusersEntry}
use libsystemd_rs.Sysusers.Data.{SysusersData}
use libsystemd_rs.Sysusers.Grammar.{IsLine}
use libsystemd_rs.Sysusers.Grammar.Entries.{Describes, entry_from_str_iff}
use libsystemd_rs.Sysusers.Nom.{Nom, NomLaws}
use libsystemd_rs.Sysusers.Parse.Dispatch.{
  HasUnknownLetter, is_type_letter, entry_from_str-unknown_iff,
}
use libsystemd_rs.Sysusers.Parse.Reader.Report.{entry_of, Accepts, parse_from_reader-ok_iff}
use libsystemd_rs.Sysusers.Parse.Reader.{is_skipped, parse_from_reader}
use libsystemd_rs.Sysusers.Parse.{entry_from_str}
use mathlib.Core.Path.{subst}

-- Lines that can be read, and the entries in them: white space, a comment and a line with the letter of
-- no type hold none, a line of the grammar holds one, and there is no other line.
pub data IsFile : List (Result Str Str) → List SysusersEntry → Type 0 where
  end : IsFile [] []
  blank :
      {lines : List (Result Str Str)} {es : List SysusersEntry} (line : Str)
      → trim line ≡ []
      → IsFile lines es
      → IsFile (ok line ∷ lines) es
  comment :
      {lines : List (Result Str Str)} {es : List SysusersEntry} (line text : Str)
      → trim line ≡ b'#' ∷ text
      → IsFile lines es
      → IsFile (ok line ∷ lines) es
  unknown :
      {lines : List (Result Str Str)} {es : List SysusersEntry} (line text : Str) (letter : ℕ)
      → trim line ≡ letter ∷ text
      → letter ≢ b'#'
      → is_type_letter letter ≡ false
      → IsFile lines es
      → IsFile (ok line ∷ lines) es
  entry :
      {lines : List (Result Str Str)} {es : List SysusersEntry} (line : Str) (e : SysusersEntry)
      → Describes (trim line) e
      → IsFile lines es
      → IsFile (ok line ∷ lines) (e ∷ es)

module _ (n : Nom) (laws : NomLaws n) where
  -- A skipped line
  skipped_line :
      (line : Str) {lines : List (Result Str Str)} {es : List SysusersEntry} (text : Str)
      → trim line ≡ text
      → is_skipped text ≡ true
      → IsFile lines es
      → IsFile (ok line ∷ lines) es
  skipped_line line [] same h rest = blank line same rest
  skipped_line line (c ∷ text) same h rest =
      let is_comment : c ≡ b'#' = ground (arith, ==_iff c b'#') in
      comment line text (cc (same, is_comment)) rest

  -- A line with an unknown letter that is not a comment
  unknown_line :
      (line : Str) {lines : List (Result Str Str)} {es : List SysusersEntry} (text : Str)
      → trim line ≡ text
      → is_skipped text ≡ false
      → HasUnknownLetter text
      → IsFile lines es
      → IsFile (ok line ∷ lines) es
  unknown_line line [] same h letter rest = absurd letter
  unknown_line line (c ∷ text) same h letter rest =
      unknown line text c same (λ is. ground (arith, ==_iff c b'#')) letter rest

  entries_in :
      (ls : List (Result Str Str)) → All (Accepts n) ls → IsFile ls (concat (map (entry_of n) ls))
  entries_in [] h = end
  entries_in (err e ∷ ls) (h, hs) = absurd h
  entries_in (ok line ∷ ls) (h, hs) =
      let rest = entries_in ls hs in
      elim (Bool-cases (is_skipped (trim line))) [
        | inl skipped ↦ rw skipped (skipped_line line (trim line) refl skipped rest)
        | inr kept ↦ elim h [
          | inl skipped ↦ absurd (cc (skipped, kept))
          | inr (inl (e, found)) ↦
              rw (kept, found)
                (entry line e
                  (subst (λ s. Describes s e) (trim-trim line)
                    ((entry_from_str_iff n laws (trim line) e).0 found))
                  rest)
          | inr (inr letter) ↦
              let (e, bad, _) = (entry_from_str-unknown_iff n (trim line)).1 letter in
              rw (kept, bad)
                (unknown_line line (trim line) refl kept
                  (subst HasUnknownLetter (trim-trim line) letter) rest)
        ]
      ]

  -- What a line of each kind adds.
  Adds : Result Str Str → List SysusersEntry → Type 0
  Adds l es = Accepts n l × (entry_of n l ≡ es)

  skipped-Adds : (line : Str) → is_skipped (trim line) ≡ true → Adds (ok line) []
  unfolding Adds
  skipped-Adds line h = (inl h, rw h)

  unknown-Adds :
      (line text : Str) (letter : ℕ)
      → trim line ≡ letter ∷ text
      → is_type_letter letter ≡ false
      → Adds (ok line) []
  unfolding Adds
  unknown-Adds line text letter same h =
      let known : HasUnknownLetter (trim (trim line)) = rw (trim-trim line, same) h in
      let (e, bad, _) = (entry_from_str-unknown_iff n (trim line)).1 known in
      (inr (inr known), rw bad (ground arith))

  line_kept :
      (text : Str) (d : SysusersData)
      → IsLine text [] d
      → ¬ HasUnknownLetter text
      → is_skipped text ≡ false
  line_kept [] d l known = absurd (cc (l.typed))
  line_kept (c ∷ text) d l known = elim (Bool-cases (c == b'#')) [
    | inl is_comment ↦ absurd (known (ground (arith, ==_iff c b'#')))
    | inr other ↦ other
  ]

  entry-Adds : (line : Str) (e : SysusersEntry) → Describes (trim line) e → Adds (ok line) (e ∷ [])
  unfolding Adds
  entry-Adds line e (d, l, converted) =
      let found : entry_from_str n (trim line) ≡ ok e =
        (entry_from_str_iff n laws (trim line) e).1 (rw (trim-trim line) (d, l, converted)) in
      let known : ¬ HasUnknownLetter (trim line) = λ letter.
        let again : HasUnknownLetter (trim (trim line)) = rw (trim-trim line) letter in
        let (x, bad, _) = (entry_from_str-unknown_iff n (trim line)).1 again in cc (found, bad) in
      (inr (inl (e, found)), rw (line_kept (trim line) d l known, found))

  added :
      (l : Result Str Str) (ls : List (Result Str Str)) (here later : List SysusersEntry)
      → Adds l here
      → All (Accepts n) ls × (later ≡ concat (map (entry_of n) ls))
      → All (Accepts n) (l ∷ ls) × (here ++ later ≡ concat (map (entry_of n) (l ∷ ls)))
  unfolding Adds
  added l ls here later (accepts, same) (all, rest) = ((accepts, all), rw (same, rest))

  of_file :
      {ls : List (Result Str Str)} {es : List SysusersEntry}
      → IsFile ls es
      → All (Accepts n) ls × (es ≡ concat (map (entry_of n) ls))
  of_file end = (tt, refl)
  of_file (blank line same rest) =
      added (ok line) _ [] _ (skipped-Adds line (rw same)) (of_file rest)
  of_file (comment line text same rest) =
      added (ok line) _ [] _ (skipped-Adds line (rw same)) (of_file rest)
  of_file (unknown line text letter same other h rest) =
      added (ok line) _ [] _ (unknown-Adds line text letter same h) (of_file rest)
  of_file (entry line e h rest) = added (ok line) _ (e ∷ []) _ (entry-Adds line e h) (of_file rest)

  -- The reader returns entries exactly when the lines are a file of the grammar with these entries, in
  -- order.
  pub parse_from_reader_iff :
      (ls : List (Result Str Str)) (es : List SysusersEntry)
      → ((parse_from_reader n ls).0 ≡ ok es) ↔ IsFile ls es
  parse_from_reader_iff ls es = (
    λ h. let (all, same) = (parse_from_reader-ok_iff n ls es).0 h in rw same (entries_in ls all),
    λ file. (parse_from_reader-ok_iff n ls es).1 (of_file file),
  )
