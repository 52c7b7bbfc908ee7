-- ===== src/Tests/Activation.antt =====
-- src/activation.rs
use libsystemd_rs.Activation.Descriptor.{try_from, into_raw_fd}
use libsystemd_rs.Activation.Names.{Passes, receive_descriptors_with_names-names}
use libsystemd_rs.Activation.RawFd
use libsystemd_rs.Activation.Receive.{
  descriptor, names_key, receive_descriptors, receive_descriptors_with_names, zip,
}
use libsystemd_rs.Activation.Received.{
  IsListening, max_fds, fds_from, receive_descriptors_iff, receive_descriptors_with_names_iff,
}
use libsystemd_rs.Activation.System.{System, SocketFd, fifo, unix, unknown, unix_family}
use libsystemd_rs.Base.{
  ℕ, ◌≤◌, length, arith, bytes, true, false, List, [], ◌∷◌, map, none, some, if◌then◌else◌, Str,
  codes, equal, split, ok, ◌≡◌, ◌↔◌, refl,
}
use libsystemd_rs.Daemon.Fdname.{validate_fdname}
use libsystemd_rs.Decimal
use libsystemd_rs.Decimal.Signed.{pos, same_int}
use libsystemd_rs.Env.{Env, var}

-- Descriptor 3 is a pipe, 4 a unix socket, and there are no others.
abbrev sample_system : System
sample_system = record {
  fstat = λ fd. if same_int fd (pos 3) then some 0x1180 else none;
  getsockname = λ fd. if same_int fd (pos 4) then some unix_family else none;
  mq_getattr = λ _. false;
}

abbrev listening : Env
listening =
    (codes "LISTEN_PID", codes "42")
    ∷ (codes "LISTEN_FDS", codes "3")
    ∷ (codes "LISTEN_FDNAMES", codes "log:db")
    ∷ []

abbrev received : List SocketFd
received = fifo (pos 3) ∷ unix (pos 4) ∷ unknown (pos 5) ∷ []

abbrev received_names : List (SocketFd × Str)
received_names = (fifo (pos 3), codes "log") ∷ (unix (pos 4), codes "db") ∷ []

receive_cases :
    ((receive_descriptors sample_system 42 true listening).0 ≡ ok received)
    × ((receive_descriptors_with_names sample_system 42 true listening).0 ≡ ok received_names)
unfolding receive_descriptors receive_descriptors_with_names var equal Decimal.parse try_from
    RawFd.is_fifo RawFd.is_special RawFd.is_inet RawFd.is_unix RawFd.is_mq split
receive_cases = (refl, refl)

receive_descriptors_iff_example :
    ((receive_descriptors sample_system 42 true listening).0 ≡ ok received) ↔ (
      (num_fds : ℕ) × IsListening sample_system 42 listening num_fds
      × (num_fds ≤ max_fds)
      × (received ≡ map (descriptor sample_system) (fds_from 0 num_fds)))
receive_descriptors_iff_example = receive_descriptors_iff sample_system 42 true listening received

receive_descriptors_with_names_iff_example :
    ((receive_descriptors_with_names sample_system 42 true listening).0 ≡ ok received_names) ↔ (
      (ds : List SocketFd) × (names : Str) × ((receive_descriptors sample_system 42 true
          listening).0
        ≡ ok ds)
      × (var names_key listening ≡ some names)
      × (received_names ≡ zip ds (split b':' names)))
receive_descriptors_with_names_iff_example =
    receive_descriptors_with_names_iff sample_system 42 true listening received_names

abbrev two_names : List Str
two_names = codes "db" ∷ codes "log-2" ∷ []

abbrev passed : Env
passed =
    (codes "LISTEN_PID", codes "42")
    ∷ (codes "LISTEN_FDS", codes "2")
    ∷ (codes "LISTEN_FDNAMES", codes "db:log-2")
    ∷ []

passed-Passes : Passes 42 two_names passed
unfolding var equal Decimal.display
passed-Passes = record { pid_is = refl; count_is = refl; names_are = refl }

receive_descriptors_with_names-names_example :
    (out : List (SocketFd × Str)) × ((receive_descriptors_with_names sample_system 42 true passed).0
      ≡ ok out)
    × (map (λ p. p.1) out ≡ two_names)
    × (map (λ p. into_raw_fd p.0) out ≡ fds_from 0 (length two_names))
unfolding validate_fdname bytes
receive_descriptors_with_names-names_example =
    receive_descriptors_with_names-names sample_system 42 true passed (codes "db")
      (codes "log-2" ∷ []) (omega arith) (omega arith) (refl, (refl, tt)) passed-Passes
