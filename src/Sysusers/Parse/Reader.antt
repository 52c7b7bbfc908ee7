-- ===== src/Sysusers/Parse/Reader.antt =====
-- src/sysusers/parse.rs: `parse_from_reader`. The reader is the list of what its `lines()` yields, a
-- line or the text of a read error; the warnings that the loop logs are a second result.
pub mod Outcome
pub mod Report
pub mod Account
use libsystemd_rs.Base.{
  ℕ, zero, suc, ◌+◌, ◌-◌, ◌^◌, Bool, true, false, ◌||◌, List, [], ◌∷◌, ◌++◌, ltb, if◌then◌else◌,
  is_empty, starts_with, trim, Str, codes, Result, ok, err,
}
use libsystemd_rs.Decimal
use libsystemd_rs.Error.{SdError, ErrorKind, generic, sysusers_unknown_type, from_str}
use libsystemd_rs.Sysusers.Entry.{SysusersEntry}
use libsystemd_rs.Sysusers.Nom.{Nom}
use libsystemd_rs.Sysusers.Parse.{entry_from_str}

abbrev pub usize_max : ℕ
usize_max = 2 ^ 64 - 1

-- `usize::saturating_add`
abbrev pub saturating_add : ℕ → ℕ → ℕ
saturating_add a b = if ltb usize_max (a + b) then usize_max else a + b

-- What the body of the loop does with one line.
pub data Step : Type 0 where
  skip : Step
  push : SysusersEntry → Step
  warn : Str → Step
  stop : SdError → Step

abbrev pub is_unknown_type : ErrorKind → Bool
is_unknown_type generic = false
is_unknown_type sysusers_unknown_type = true

unfoldable pub read_failed_msg : ℕ → Str → Str
read_failed_msg linenumber e =
    codes "failed to read line " ++ Decimal.display linenumber ++ codes ": " ++ e

unfoldable pub skipped_msg : ℕ → Str → Str
skipped_msg linenumber msg =
    codes "skipped line " ++ Decimal.display linenumber ++ codes ": " ++ msg

unfoldable pub parse_failed_msg : ℕ → Str → Str
parse_failed_msg linenumber msg =
    codes "failed to parse sysusers entry at line "
    ++ Decimal.display linenumber
    ++ codes ": "
    ++ msg

-- Empty lines and comments
abbrev pub is_skipped : Str → Bool
is_skipped text = is_empty text || starts_with b'#' text

module _ (n : Nom) where
  -- The match on `data.parse()`
  unfoldable pub parsed_step : ℕ → Result SdError SysusersEntry → Step
  unfolding from_str
  parsed_step linenumber (ok entry) = push entry
  parsed_step linenumber (err e) =
      if is_unknown_type e.kind
      then warn (skipped_msg linenumber e.msg)
      else stop (from_str (parse_failed_msg linenumber e.msg))

  unfoldable pub line_step : ℕ → Result Str Str → Step
  unfolding from_str
  line_step linenumber (err e) = stop (from_str (read_failed_msg linenumber e))
  line_step linenumber (ok line) =
      let text = trim line in
      if is_skipped text then skip else parsed_step linenumber (entry_from_str n text)

  -- `for (index, item) in bufrd.lines().enumerate()`
  unfoldable pub read_lines :
      ℕ
      → List SysusersEntry
      → List Str
      → List (Result Str Str)
      → Result SdError (List SysusersEntry) × List Str
  read_lines index output warnings [] = (ok output, warnings)
  read_lines index output warnings (item ∷ items) = elim (line_step (saturating_add index 1) item) [
    | skip ↦ read_lines (suc index) output warnings items
    | push entry ↦ read_lines (suc index) (output ++ entry ∷ []) warnings items
    | warn msg ↦ read_lines (suc index) output (warnings ++ msg ∷ []) items
    | stop e ↦ (err e, warnings)
  ]

  unfoldable pub parse_from_reader :
      List (Result Str Str) → Result SdError (List SysusersEntry) × List Str
  unfolding read_lines
  parse_from_reader lines = read_lines 0 [] [] lines
