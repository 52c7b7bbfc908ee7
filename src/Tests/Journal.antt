-- ===== src/Tests/Journal.antt =====
-- src/logging.rs: sending, and the stream of the journal
use libsystemd_rs.Base.{true, List, [], ◌∷◌, some, Str, codes, Result, ok, err, ◌≡◌, ◌↔◌, refl}
use libsystemd_rs.Decimal
use libsystemd_rs.Decimal.Signed.{pos}
use libsystemd_rs.Env.{Env, var}
use libsystemd_rs.Logging.Message.{journal_data}
use libsystemd_rs.Logging.Priority
use libsystemd_rs.Logging.Priority.{emergency}
use libsystemd_rs.Logging.Send.Delivered.{IsSent, journal_send_iff}
use libsystemd_rs.Logging.Send.Effects.{IsOrderly, journal_send-IsOrderly}
use libsystemd_rs.Logging.Send.{
  System, after_ok, created, wrote, sealed, passed, closed, send_memfd_payload, journal_send,
}
use libsystemd_rs.Logging.Stream.Parsed.{Denotes, connected_to_journal_iff}
use libsystemd_rs.Logging.Stream.{JournalStream, FileStat, parse, stream_key, connected_to_journal}
use libsystemd_rs.Os.{OsError}

-- A system whose datagrams are all too long.
abbrev pub narrow_system : System
narrow_system = record {
  unbound = ok tt;
  send_to = λ _. err (record { text = codes "Message too long"; raw_os_error = some 90 });
  memfd_create = ok (pos 7);
  write_all = λ _ _. ok tt;
  add_seals = λ _. ok tt;
  unix_addr = ok tt;
  sendmsg = λ _. ok 0;
}

abbrev pairs : List (Str × Str)
pairs = (codes "FOO", codes "bar") ∷ []

slow_path : send_memfd_payload narrow_system (codes "X=1\n") ≡ (
  ok 4,
  created (pos 7)
      ∷ wrote (pos 7) (codes "X=1\n")
      ∷ sealed (pos 7)
      ∷ passed (pos 7)
      ∷ closed (pos 7)
      ∷ [],
)
unfolding send_memfd_payload after_ok
slow_path = refl

journal_send-IsOrderly_example :
    IsOrderly
      (journal_data Priority.info (codes "hello") pairs)
      (journal_send narrow_system Priority.info (codes "hello") pairs).1
journal_send-IsOrderly_example =
    journal_send-IsOrderly narrow_system Priority.info (codes "hello") pairs

journal_send_iff_example :
    ((journal_send narrow_system Priority.info (codes "hello") pairs).0 ≡ ok tt) ↔ (
      (narrow_system.unbound ≡ ok tt)
      × IsSent narrow_system (journal_data Priority.info (codes "hello") pairs))
journal_send_iff_example = journal_send_iff narrow_system Priority.info (codes "hello") pairs

abbrev stderr_stream : JournalStream
stderr_stream = record { device = 8; inode = 46123 }

parse_cases : parse (codes "8:46123") ≡ ok stderr_stream
unfolding parse Decimal.parse
parse_cases = refl

abbrev stream_env : Env
stream_env = (codes "JOURNAL_STREAM", codes "8:46123") ∷ []

abbrev stderr_result : Result OsError FileStat
stderr_result = ok (record { st_dev = stderr_stream.device; st_ino = stderr_stream.inode })

connected_to_journal_iff_example : (connected_to_journal stderr_result stream_env ≡ true) ↔ (
    (s : Str) × (stream : JournalStream) × (var stream_key stream_env ≡ some s)
    × Denotes s stream
    × (stderr_result ≡ ok (record { st_dev = stream.device; st_ino = stream.inode })))
connected_to_journal_iff_example = connected_to_journal_iff stderr_result stream_env

-- The first message finds no socket, the second does, the third meets the first system again.
