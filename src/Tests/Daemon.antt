-- ===== src/Tests/Daemon.antt =====
-- src/daemon.rs
use libsystemd_rs.Base.{
  true, List, [], ◌∷◌, map, none, some, if◌then◌else◌, Str, Bytes, codes, bytes, length, is_empty,
  equal, All, ◌≡◌, ◌↔◌, refl, arith, ok, err,
}
use libsystemd_rs.Daemon.Fdname.{validate_fdname}
use libsystemd_rs.Daemon.Notify.Lines.{assignments, assigns, assignments-message}
use libsystemd_rs.Daemon.Notify.Sent.{
  IsReady, IsSendable, notify_with_fds-true_iff, notify_with_fds-sends, Names,
}
use libsystemd_rs.Daemon.Notify.{
  Os, Datagram, notify_key, notify_with_fds, sent_after, prepare, socket_addr,
}
use libsystemd_rs.Daemon.State.{
  NotifyState, fdname, mainpid, other, ready, status, display, message, check_entry, check_entries,
}
use libsystemd_rs.Daemon.Watchdog.{watchdog_enabled, IsTimeout, IsForProcess, watchdog_enabled_iff}
use libsystemd_rs.Decimal
use libsystemd_rs.Decimal.Signed.{ℤ, pos, parse_i32, display_int}
use libsystemd_rs.Env.{Env, var}
use libsystemd_rs.Error.{context}

-- A system that takes any address that is not empty, and sends all bytes.
abbrev pub sample_os : Os Bytes
sample_os = record {
  new_abstract = λ b. ok b;
  new_path = λ s.
      if is_empty s
      then err (record { text = codes "EINVAL"; raw_os_error = some 22 })
      else ok (bytes s);
  unbound = ok tt;
  sendmsg = λ d. ok (length d.iov);
  from_raw_os_error = λ e. e;
}

abbrev sample_env : Env
sample_env =
    (codes "HOME", codes "/root")
    ∷ (codes "WATCHDOG_USEC", codes "1500000")
    ∷ (codes "WATCHDOG_PID", codes "42")
    ∷ (codes "NOTIFY_SOCKET", codes "@systemd")
    ∷ []

abbrev sample_state : List NotifyState
sample_state =
    ready
    ∷ status (codes "up: 3")
    ∷ mainpid (pos 42)
    ∷ fdname (codes "db-1")
    ∷ other (codes "X_A=b")
    ∷ []

watchdog_cases :
    ((watchdog_enabled (pos 42) true sample_env).0 ≡ some 1500)
    × ((watchdog_enabled (pos 7) true sample_env).0 ≡ none)
    × ((watchdog_enabled (pos 7) true []).0 ≡ none)
    × ((watchdog_enabled (pos 7) true ((codes "WATCHDOG_USEC", codes "999") ∷ [])).0 ≡ some 0)
unfolding watchdog_enabled var Decimal.parse parse_i32 equal
watchdog_cases = (refl, refl, refl, refl)

fdname_cases :
    (validate_fdname (codes "foo") ≡ ok tt)
    × (validate_fdname (codes "foo bar") ≡ ok tt)
    × (validate_fdname [] ≡ ok tt)
unfolding validate_fdname bytes
fdname_cases = (refl, refl, refl)

message_cases :
    message sample_state ≡ codes "READY=1\nSTATUS=up: 3\nMAINPID=42\nFDNAME=db-1\nX_A=b\n"
unfolding message display display_int Decimal.display
message_cases = refl

watchdog_enabled_iff_example :
    ((watchdog_enabled (pos 42) true sample_env).0 ≡ some 1500)
    ↔ (IsTimeout sample_env 1500 × IsForProcess (pos 42) sample_env)
watchdog_enabled_iff_example = watchdog_enabled_iff (pos 42) true sample_env 1500

notify_with_fds-true_iff_example :
    ((notify_with_fds sample_os true sample_state (pos 5 ∷ []) sample_env).result ≡ ok true) ↔ (
      (env_sock : Str) × (var notify_key sample_env ≡ some env_sock)
      × IsReady sample_os env_sock sample_state (pos 5 ∷ []))
notify_with_fds-true_iff_example =
    notify_with_fds-true_iff sample_os true sample_state (pos 5 ∷ []) sample_env

abbrev sample_fds : List ℤ
sample_fds = pos 5 ∷ pos 9 ∷ []

-- The one datagram, with two descriptors
abbrev sample_sent : Datagram Bytes
sample_sent = record {
  to = codes "systemd";
  iov = codes "READY=1\nSTATUS=up: 3\nMAINPID=42\nFDNAME=db-1\nX_A=b\n";
  fds = some sample_fds;
}

sent_case :
    (notify_with_fds sample_os true sample_state sample_fds sample_env).sent ≡ sample_sent ∷ []
unfolding notify_with_fds sent_after prepare socket_addr context check_entries check_entry
    validate_fdname message display display_int Decimal.display bytes var equal
sent_case = refl

notify_with_fds-sends_example :
    (◌≡◌ {A = List (Datagram Bytes)} [] [])
    × ((env_sock : Str) × (var notify_key sample_env ≡ some env_sock)
        × Names sample_os env_sock sample_sent.to)
    × All IsSendable sample_state
    × (sample_sent.iov ≡ bytes (message sample_state))
    × (sample_sent.fds ≡ some sample_fds)
notify_with_fds-sends_example =
    notify_with_fds-sends sample_os true sample_state sample_fds sample_env sample_sent [] sent_case

assignments-message_example : assignments (message sample_state) ≡ map assigns sample_state
assignments-message_example = assignments-message sample_state (ground arith)
