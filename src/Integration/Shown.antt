-- ===== src/Integration/Shown.antt =====
-- The tests of tests/journal.rs on a system that sends, with a journal that shows what it is sent.
use libsystemd_rs.Base.{
  ℕ, ◌<◌, true, List, [], ◌∷◌, Option, none, some, All, map, Str, Bytes, codes, bytes, len, equal,
  equal_iff, equal_refl, ok, ◌≡◌, refl, ap, arith, inl, inr, Bool-cases,
}
use libsystemd_rs.Integration.Journal.{
  Message, one_line, unwrap, retry_read_one_line_from_journal, index, is_text, all_hold,
  assertions_hold, simple_vars, name_vars, text_assertions, simple_assertions, send_and_read,
  simple_message, multiline_message, multiline_message_trailing_newline,
}
use libsystemd_rs.Integration.Retry.{retry_succeeds}
use libsystemd_rs.Logging.Field.{is_valid_field, is_valid_char}
use libsystemd_rs.Logging.Message.{journal_data}
use libsystemd_rs.Logging.Message.Decoded.{FitsU64, fields_to_send, decode-journal_data}
use libsystemd_rs.Logging.Payload.{u64_mod}
use libsystemd_rs.Logging.Priority
use libsystemd_rs.Logging.Priority.{numeric_level}
use libsystemd_rs.Logging.Protocol.{decode, read_as}
use libsystemd_rs.Logging.Send.{System, journal_send}

-- A journal that shows a datagram in time: at first nothing, and at one of the ten calls a single
-- message, which holds the fields that a reader of the protocol finds, and perhaps more.
pub record IsShown (datagram : Bytes) (shown : ℕ → List Message) : Type 0 where
  pub waits : ℕ
  pub in_time : waits < 10
  pub nothing_before : (j : ℕ) → j < waits → shown j ≡ []
  pub single : Message
  pub then_shown : shown waits ≡ single ∷ []
  pub keeps :
      (fields : Message)
      → decode datagram ≡ some fields
      → (key : Str) (value : Bytes) → index key fields ≡ some value
      → index key single ≡ some value

read_in_time :
    (datagram : Bytes) (shown : ℕ → List Message) (s : IsShown datagram shown)
    → retry_read_one_line_from_journal shown ≡ some s.single
unfolding retry_read_one_line_from_journal one_line
read_in_time datagram shown s = ap unwrap (
    retry_succeeds (λ i. one_line (shown i)) s.waits s.single s.in_time
      (λ j below. (_, ap one_line (s.nothing_before j below))) (ap one_line s.then_shown))

is_text-some :
    (found : Option Bytes) (text : Str) → is_text found text ≡ true → found ≡ some (bytes text)
is_text-some none text h = cc
is_text-some (some value) text h = ap some ((equal_iff value (bytes text)).0 h)

-- What holds of the fields holds of a message that keeps them.
pub all_hold-keeps :
    (assertions : List (Str × Str)) (fields message : Message)
    → ((key : Str) (value : Bytes) → index key fields ≡ some value → index key message ≡ some value)
    → all_hold assertions fields ≡ true
    → all_hold assertions message ≡ true
unfolding all_hold
all_hold-keeps [] fields message keeps h = refl
all_hold-keeps ((key, text) ∷ assertions) fields message keeps h =
    elim (Bool-cases (is_text (index key fields) text)) [
      | inl here ↦
          let kept = keeps key (bytes text) (is_text-some (index key fields) text here) in
          let later : all_hold assertions fields ≡ true = rw here at h in
          rw (kept, equal_refl (bytes text), all_hold-keeps assertions fields message keeps later)
      | inr differs ↦ absurd (ground arith)
    ]

module _ (sys : System) (shown : ℕ → List Message) (test_name : Str) where
  send_and_read-passes :
      (msg : Str) (vars assertions : List (Str × Str))
      → len msg < u64_mod
      → All FitsU64 vars
      → (journal_send sys Priority.info msg vars).0 ≡ ok tt
      → IsShown (journal_data Priority.info msg vars) shown
      → all_hold assertions (map read_as (fields_to_send Priority.info msg vars)) ≡ true
      → send_and_read sys shown test_name msg vars assertions ≡ true
  unfolding send_and_read assertions_hold
  send_and_read-passes msg vars assertions fits all_fit sends s holds =
      let kept =
        s.keeps (map read_as (fields_to_send Priority.info msg vars))
          (decode-journal_data Priority.info msg vars fits all_fit) in
      rw (
        sends,
        read_in_time (journal_data Priority.info msg vars) shown s,
        all_hold-keeps assertions _ s.single kept holds,
      )

-- What a test relies on: its message is sent without an error, and shown in time.
abbrev pub IsSentAndShown : System → (ℕ → List Message) → Str → List (Str × Str) → Type 0
IsSentAndShown sys shown msg vars =
    ((journal_send sys Priority.info msg vars).0 ≡ ok tt)
    × IsShown (journal_data Priority.info msg vars) shown

-- If a system sends the message of each of the three tests, and the journal shows it as a single message
-- at one of ten calls, with the fields that a reader of the native protocol finds in the datagram, then
-- no test panics, whatever the name of the test, of fewer than 2^64 bytes.
pub journal_tests-pass :
    (sys : System) (test_name : Str) (simple multiline trailing : ℕ → List Message)
    → len test_name < u64_mod
    → IsSentAndShown sys simple (codes "Hello World") (simple_vars test_name)
    → IsSentAndShown sys multiline (codes "Hello\nMultiline\nWorld") (name_vars test_name)
    → IsSentAndShown sys trailing (codes "A trailing newline\n") (name_vars test_name)
    → (simple_message sys simple test_name ≡ true)
      × (multiline_message sys multiline test_name ≡ true)
      × (multiline_message_trailing_newline sys trailing test_name ≡ true)
unfolding simple_message multiline_message multiline_message_trailing_newline all_hold index equal
    is_valid_field is_valid_char numeric_level bytes
journal_tests-pass sys test_name simple multiline trailing fits (s1, j1) (s2, j2) (s3, j3) = (
  send_and_read-passes sys simple test_name (codes "Hello World") (simple_vars test_name)
      (simple_assertions test_name) (omega arith) (fits, (omega arith, tt)) s1 j1
      (rw (equal_refl (bytes test_name)) refl),
  send_and_read-passes sys multiline test_name (codes "Hello\nMultiline\nWorld")
      (name_vars test_name) (text_assertions (codes "Hello\nMultiline\nWorld") test_name)
      (omega arith) (fits, tt) s2 j2 (rw (equal_refl (bytes test_name)) refl),
  send_and_read-passes sys trailing test_name (codes "A trailing newline\n") (name_vars test_name)
      (text_assertions (codes "A trailing newline\n") test_name) (omega arith) (fits, tt) s3 j3
      (rw (equal_refl (bytes test_name)) refl),
)
