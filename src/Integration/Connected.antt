-- ===== src/Integration/Connected.antt =====
-- tests/connected_to_journal.rs: the two roles of its `main`. The name that it makes up, whether the
-- process that it starts succeeds, and what `journalctl` answers for a name are parameters.
use libsystemd_rs.Base.{
  ◌<◌, Bool, true, false, List, [], ◌∷◌, ◌++◌, none, some, map, if◌then◌else◌, Str, Bytes, codes,
  bytes, len, equal, equal_refl, Result, ok, ◌≡◌, refl, ◌∙◌, arith,
}
use libsystemd_rs.Env.{Env, var}
use libsystemd_rs.Integration.Journal.{Message, index, all_hold, is_ok}
use libsystemd_rs.Integration.Shown.{all_hold-keeps}
use libsystemd_rs.Logging.Field.{is_valid_field, is_valid_char}
use libsystemd_rs.Logging.Message.{journal_data}
use libsystemd_rs.Logging.Message.Decoded.{fields_to_send, decode-journal_data}
use libsystemd_rs.Logging.Payload.{u64_mod}
use libsystemd_rs.Logging.Priority
use libsystemd_rs.Logging.Priority.{numeric_level}
use libsystemd_rs.Logging.Protocol.{decode, read_as}
use libsystemd_rs.Logging.Send.{System, journal_send}
use libsystemd_rs.Logging.Stream.{FileStat, JournalStream, connected_to_journal, stream_key}
use libsystemd_rs.Logging.Stream.Parsed.{Denotes, connected_to_journal_iff}
use libsystemd_rs.Os.{OsError}

abbrev pub env_name : Str
env_name = codes "_TEST_LOG_TARGET"

abbrev pub bool_text : Bool → Str
bool_text true = codes "true"
bool_text false = codes "false"

-- `format!("connected_to_journal() -> {}", …)`
abbrev pub answer_msg : Bool → Str
answer_msg b = codes "connected_to_journal() -> " ++ bool_text b

-- The assertions on the entries for the target
unfoldable pub entries_hold : Str → List Message → Bool
unfolding all_hold
entries_hold target (entry ∷ []) =
    all_hold ((codes "TARGET", target) ∷ (codes "MESSAGE", answer_msg true) ∷ []) entry
entries_hold target _ = false

module _ (sys : System) (stderr : Result OsError FileStat) (env : Env) where
  -- The arm of a process that is given a target: whether it ends without a panic
  unfoldable pub send_answer : Str → Bool
  unfolding connected_to_journal journal_send
  send_answer target =
      is_ok
        (journal_send sys Priority.info (answer_msg (connected_to_journal stderr env))
          ((codes "TARGET", target) ∷ [])).0

  -- `succeeds` is whether a process ends without a panic that is started with a target.
  unfoldable pub main : (Str → Bool) → (Str → List Message) → Str → Bool
  unfolding send_answer entries_hold
  main succeeds shown random_target = elim (var env_name env) [
    | some target ↦ send_answer target
    | none ↦
        if succeeds random_target then entries_hold random_target (shown random_target) else false
  ]

  main_given :
      (succeeds : Str → Bool) (shown : Str → List Message) (random_target target : Str)
      → var env_name env ≡ some target
      → main succeeds shown random_target ≡ send_answer target
  unfolding main send_answer
  main_given succeeds shown random_target target given = rw (given, main) refl

  main_alone :
      (succeeds : Str → Bool) (shown : Str → List Message) (target : Str)
      → var env_name env ≡ none
      → main succeeds shown target
        ≡ (if succeeds target then entries_hold target (shown target) else false)
  unfolding main entries_hold
  main_alone succeeds shown target alone = rw (alone, main) refl

  answer_sent :
      (target : Str)
      → connected_to_journal stderr env ≡ true
      → (journal_send sys Priority.info (answer_msg true) ((codes "TARGET", target) ∷ [])).0 ≡ ok tt
      → send_answer target ≡ true
  unfolding send_answer
  answer_sent target connected sends = rw (connected, sends)

-- What the journal shows of a datagram: a single message, with the fields that a reader of the protocol
-- finds, and perhaps more.
pub record ShowsOne (datagram : Bytes) (messages : List Message) : Type 0 where
  pub single : Message
  pub messages_are : messages ≡ single ∷ []
  pub keeps :
      (fields : Message)
      → decode datagram ≡ some fields
      → (key : Str) (value : Bytes) → index key fields ≡ some value
      → index key single ≡ some value

abbrev pub target_vars : Str → List (Str × Str)
target_vars target = (codes "TARGET", target) ∷ []

entries_hold-shown :
    (target : Str) (messages : List Message)
    → len target < u64_mod
    → ShowsOne (journal_data Priority.info (answer_msg true) (target_vars target)) messages
    → entries_hold target messages ≡ true
unfolding entries_hold all_hold index equal is_valid_field is_valid_char numeric_level bytes
entries_hold-shown target messages fits s =
    let assertions : List (Str × Str) =
      (codes "TARGET", target) ∷ (codes "MESSAGE", answer_msg true) ∷ [] in
    let fields =
      map read_as (fields_to_send Priority.info (answer_msg true) (target_vars target)) in
    let kept = s.keeps fields (
      decode-journal_data Priority.info (answer_msg true) (target_vars target) (omega arith)
        (fits, tt)) in
    rw s.messages_are
      (all_hold-keeps assertions fields s.single kept (rw (equal_refl (bytes target)) refl))

-- A process without a target in its environment starts one with a target, whose standard error is the
-- stream that JOURNAL_STREAM denotes. If that process can send its message, and the journal then shows
-- it as a single message, with the fields that a reader of the native protocol finds in the datagram,
-- then both end without a panic.
pub connected_test-passes :
    (sys : System) (stderr : Result OsError FileStat) (env child : Env) (s target : Str)
    (stream : JournalStream) (shown : Str → List Message)
    → var env_name env ≡ none
    → var env_name child ≡ some target
    → var stream_key child ≡ some s
    → Denotes s stream
    → stderr ≡ ok (record { st_dev = stream.device; st_ino = stream.inode })
    → len target < u64_mod
    → (journal_send sys Priority.info (answer_msg true) (target_vars target)).0 ≡ ok tt
    → ShowsOne (journal_data Priority.info (answer_msg true) (target_vars target)) (shown target)
    → (main sys stderr child (λ _. false) shown target ≡ true)
      × (main sys stderr env (λ t. send_answer sys stderr child t) shown target ≡ true)
connected_test-passes sys stderr env child s target stream shown alone given connects denotes same
      fits sends shows =
    let connected : connected_to_journal stderr child ≡ true =
      (connected_to_journal_iff stderr child).1 (s, stream, connects, denotes, same) in
    let child_ends = answer_sent sys stderr child target connected sends in
    (
      main_given sys stderr child (λ _. false) shown target target given ∙ child_ends,
      main_alone sys stderr env (λ t. send_answer sys stderr child t) shown target alone
          ∙ rw child_ends (entries_hold-shown target (shown target) fits shows),
    )
