-- ===== src/Integration/Journal.antt =====
-- tests/journal.rs: `retry` and the three tests that send a message and look it up. What the program
-- `journalctl` answers at its i-th call, from 0, is a parameter; a message is the list of its fields, with
-- texts as UTF-8 bytes.
use libsystemd_rs.Base.{
  ℕ, zero, suc, Bool, true, false, ◌&&◌, List, [], ◌∷◌, ◌++◌, ◌==◌, Option, none, some,
  if◌then◌else◌, length, Str, Bytes, codes, bytes, equal, Result, ok, err,
}
use libsystemd_rs.Decimal
use libsystemd_rs.Logging.Priority.{Priority}
use libsystemd_rs.Logging.Send.{System, journal_send}

abbrev pub Message : Type 0
Message = List (Bytes × Bytes)

-- What a loop returns, or `none` where it ends at `unreachable!()`, and how often it has slept.
pub record Retried (E T : Type 0) : Type 0 where
  pub returned : Option (Result E T)
  pub slept : ℕ

abbrev pub attempts : ℕ
attempts = 10

abbrev pub once_more : {E T : Type 0} → Retried E T → Retried E T
once_more r = record r { slept = suc r.slept }

-- The attempts that are left, the last of which has number 0; `i` calls have been made.
unfoldable pub retry_from : {E T : Type 0} → ℕ → (ℕ → Result E T) → ℕ → Retried E T
retry_from zero f i = record { returned = none; slept = 0 }
retry_from (suc attempt) f i =
    let later = retry_from attempt f (suc i) in
    elim (f i) [
      | ok result ↦ record { returned = some (ok result); slept = 0 }
      | err e ↦
          if attempt == 0 then record { returned = some (err e); slept = 0 } else once_more later
    ]

unfoldable pub retry : {E T : Type 0} → (ℕ → Result E T) → Retried E T
unfolding retry_from
retry f = retry_from attempts f 0

-- The closure in `retry_read_one_line_from_journal`
unfoldable pub one_line : List Message → Result Str Message
one_line (message ∷ []) = ok message
one_line messages = err (
    codes "one messages expected, got " ++ (Decimal.display (length messages) ++ codes " messages"))

abbrev pub unwrap : Option (Result Str Message) → Option Message
unwrap (some (ok message)) = some message
unwrap _ = none

-- `none` is a panic.
unfoldable pub retry_read_one_line_from_journal : (ℕ → List Message) → Option Message
unfolding retry one_line
retry_read_one_line_from_journal shown = unwrap (retry (λ i. one_line (shown i))).returned

-- `message[key]`
unfoldable pub index : Str → Message → Option Bytes
unfolding equal
index key [] = none
index key ((k, v) ∷ message) = if equal k (bytes key) then some v else index key message

abbrev pub is_text : Option Bytes → Str → Bool
is_text none text = false
is_text (some value) text = equal value (bytes text)

-- `assert_eq!(message[key], text)` for each pair
unfoldable pub all_hold : List (Str × Str) → Message → Bool
unfolding index equal
all_hold [] message = true
all_hold ((key, text) ∷ assertions) message =
    is_text (index key message) text && all_hold assertions message

-- Whether nothing panics.
unfoldable pub assertions_hold : List (Str × Str) → Option Message → Bool
unfolding all_hold
assertions_hold assertions none = false
assertions_hold assertions (some message) = all_hold assertions message

abbrev pub is_ok : {E A : Type 0} → Result E A → Bool
is_ok (ok a) = true
is_ok (err e) = false

-- The variables and the assertions of the tests
abbrev pub simple_vars : Str → List (Str × Str)
simple_vars test_name =
    (codes "TEST_NAME", test_name) ∷ (codes "FOO", codes "another piece of data") ∷ []

abbrev pub name_vars : Str → List (Str × Str)
name_vars test_name = (codes "TEST_NAME", test_name) ∷ []

abbrev pub text_assertions : Str → Str → List (Str × Str)
text_assertions text test_name =
    (codes "MESSAGE", text) ∷ (codes "TEST_NAME", test_name) ∷ (codes "PRIORITY", codes "6") ∷ []

abbrev pub simple_assertions : Str → List (Str × Str)
simple_assertions test_name =
    text_assertions (codes "Hello World") test_name
    ++ (codes "FOO", codes "another piece of data") ∷ []

module _ (sys : System) (shown : ℕ → List Message) (test_name : Str) where
  -- A message is sent, read and compared.
  unfoldable pub send_and_read : Str → List (Str × Str) → List (Str × Str) → Bool
  unfolding assertions_hold journal_send retry_read_one_line_from_journal
  send_and_read msg vars assertions =
      is_ok (journal_send sys Priority.info msg vars).0
      && assertions_hold assertions (retry_read_one_line_from_journal shown)

  unfoldable pub simple_message : Bool
  unfolding send_and_read
  simple_message =
      send_and_read (codes "Hello World") (simple_vars test_name) (simple_assertions test_name)

  unfoldable pub multiline_message : Bool
  unfolding send_and_read
  multiline_message =
      let text = codes "Hello\nMultiline\nWorld" in
      send_and_read text (name_vars test_name) (text_assertions text test_name)

  unfoldable pub multiline_message_trailing_newline : Bool
  unfolding send_and_read
  multiline_message_trailing_newline =
      let text = codes "A trailing newline\n" in
      send_and_read text (name_vars test_name) (text_assertions text test_name)
