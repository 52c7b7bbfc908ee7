-- ===== src/Tests/Integration.antt =====
-- tests
use libsystemd_rs.Base.{
  ℕ, false, ◌<◌, true, List, [], ◌∷◌, ◌==◌, if◌then◌else◌, All, map, Str, codes, ok, err, ◌≡◌, ◌⊎◌,
  refl, arith, bytes, len, Result, equal,
}
use libsystemd_rs.Examples.Machine.{World}
use libsystemd_rs.Examples.PersistentState.{state_name}
use libsystemd_rs.Examples.Supervised.{started}
use libsystemd_rs.Decimal
use libsystemd_rs.Env.{Env, var}
use libsystemd_rs.Os.{OsError}
use libsystemd_rs.Integration.Connected.{
  main, send_answer, answer_msg, target_vars, ShowsOne, connected_test-passes,
}
use libsystemd_rs.Logging.Stream.{JournalStream, FileStat}
use libsystemd_rs.Integration.Journal.{
  Message, retry, simple_message, simple_vars, name_vars, multiline_message,
  multiline_message_trailing_newline,
}
use libsystemd_rs.Integration.PersistentState.{run}
use libsystemd_rs.Integration.Restarted.{restart-reads_state}
use libsystemd_rs.Integration.Retry.{Succeeds, GivesUp, retry_cases}
use libsystemd_rs.Integration.Shown.{IsShown, journal_tests-pass}
use libsystemd_rs.Logging.Message.{journal_data}
use libsystemd_rs.Logging.Message.Decoded.{FitsU64, fields_to_send, decode-journal_data}
use libsystemd_rs.Logging.Payload.{u64_mod}
use libsystemd_rs.Logging.Priority
use libsystemd_rs.Logging.Protocol.{read_as}
use libsystemd_rs.Logging.Send.{journal_send, after_ok}
use libsystemd_rs.Tests.Examples.{sample_host, sample_host-Works, fresh_world}
use libsystemd_rs.Tests.Journal.{narrow_system}

restart-reads_state_example :
    (v u : World) × (run sample_host 101 (started sample_host 101 fresh_world) ≡ (ok 2, v))
    × (v.store ≡ (state_name, 0) ∷ [])
    × (run sample_host 102 (started sample_host 102 v) ≡ (ok 0, u))
    × (u.store ≡ [])
restart-reads_state_example =
    restart-reads_state sample_host sample_host-Works 101 102 fresh_world (omega arith) refl

-- Three calls fail.
abbrev slow_calls : ℕ → Result Str ℕ
slow_calls i = if i == 3 then ok 7 else err (codes "not yet")

retry_cases_example :
    Succeeds slow_calls 0 10 (retry slow_calls) ⊎ GivesUp slow_calls 0 9 (retry slow_calls)
retry_cases_example = retry_cases slow_calls

-- A journal that shows a message at the third call.
abbrev shown_third : Str → List (Str × Str) → ℕ → List Message
shown_third msg vars i =
    if i == 2 then map read_as (fields_to_send Priority.info msg vars) ∷ [] else []

shown_third-IsShown :
    (msg : Str) (vars : List (Str × Str))
    → len msg < u64_mod
    → All FitsU64 vars
    → IsShown (journal_data Priority.info msg vars) (shown_third msg vars)
shown_third-IsShown msg vars fits all_fit = record {
  waits = 2;
  in_time = omega arith;
  nothing_before = λ j below. ground arith;
  single = map read_as (fields_to_send Priority.info msg vars);
  then_shown = refl;
  keeps = λ fields decoded key value found.
      let same : fields ≡ map read_as (fields_to_send Priority.info msg vars) =
        cc (decoded, decode-journal_data Priority.info msg vars fits all_fit) in
      rw (← same) found;
}

abbrev a_name : Str
a_name = codes "simple_message_4fTz"

journal_tests-pass_example :
    (simple_message narrow_system (shown_third (codes "Hello World") (simple_vars a_name)) a_name
      ≡ true)
    × (multiline_message narrow_system
          (shown_third (codes "Hello\nMultiline\nWorld") (name_vars a_name))
          a_name
        ≡ true)
    × (multiline_message_trailing_newline narrow_system
          (shown_third (codes "A trailing newline\n") (name_vars a_name))
          a_name
        ≡ true)
unfolding journal_send bytes after_ok
journal_tests-pass_example =
    journal_tests-pass narrow_system a_name _ _ _ (omega arith)
      (
        refl,
        shown_third-IsShown (codes "Hello World") (simple_vars a_name) (omega arith) (omega arith),
      )
      (
        refl,
        shown_third-IsShown (codes "Hello\nMultiline\nWorld") (name_vars a_name) (omega arith)
            (omega arith),
      )
      (
        refl,
        shown_third-IsShown (codes "A trailing newline\n") (name_vars a_name) (omega arith)
            (omega arith),
      )

abbrev child_env : Env
child_env =
    (codes "_TEST_LOG_TARGET", codes "target_9aZk") ∷ (codes "JOURNAL_STREAM", codes "8:46123") ∷ []

abbrev child_stream : JournalStream
child_stream = record { device = 8; inode = 46123 }

abbrev child_stderr : Result OsError FileStat
child_stderr = ok (record { st_dev = child_stream.device; st_ino = child_stream.inode })

-- The journal shows the answer for any target.
abbrev shown_answer : Str → List Message
shown_answer target =
    map read_as (fields_to_send Priority.info (answer_msg true) (target_vars target)) ∷ []

shown_answer-ShowsOne :
    (target : Str)
    → len target < u64_mod
    → ShowsOne
        (journal_data Priority.info (answer_msg true) (target_vars target))
        (shown_answer target)
unfolding bytes
shown_answer-ShowsOne target fits = record {
  single = map read_as (fields_to_send Priority.info (answer_msg true) (target_vars target));
  messages_are = refl;
  keeps = λ fields decoded key value found.
      let same : fields
          ≡ map read_as (fields_to_send Priority.info (answer_msg true) (target_vars target)) =
        cc (
          decoded,
          decode-journal_data Priority.info (answer_msg true) (target_vars target) (omega arith)
              (fits, tt),
        ) in
      rw (← same) found;
}

connected_run :
    (main narrow_system child_stderr child_env (λ _. false) shown_answer (codes "target_9aZk")
      ≡ true)
    × (main narrow_system child_stderr []
          (λ t. send_answer narrow_system child_stderr child_env t)
          shown_answer
          (codes "target_9aZk")
        ≡ true)
unfolding journal_send bytes after_ok var equal Decimal.parse
connected_run =
    connected_test-passes narrow_system child_stderr [] child_env (codes "8:46123")
      (codes "target_9aZk") child_stream shown_answer refl refl refl
      (codes "8", codes "46123", refl, omega arith, refl, refl) refl (omega arith) refl
      (shown_answer-ShowsOne (codes "target_9aZk") (omega arith))
