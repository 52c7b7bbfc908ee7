-- ===== src/Tests/Examples.antt =====
-- examples
use libsystemd_rs.Activation.Names.{join_names}
use libsystemd_rs.Base.{
  Bytes, inr, ℕ, ◌+◌, ◌↔◌, ◌⊎◌, [], ◌∷◌, ◌++◌, List, true, false, not, none, some, map, keep,
  length, Str, codes, bytes, equal, if◌then◌else◌, ok, ◌≡◌, refl, ap, arith,
}
use libsystemd_rs.Daemon.Booted.{booted}
use libsystemd_rs.Daemon.Notify.Lines.{assignments}
use libsystemd_rs.Daemon.Notify.Sent.{IsReady, Names}
use libsystemd_rs.Daemon.Notify.{
  Datagram, notify_key, notify, notify_with_fds, sent_after, prepare, socket_addr,
}
use libsystemd_rs.Error.{context}
use libsystemd_rs.Decimal
use libsystemd_rs.Decimal.Signed.{pos, parse_i32}
use libsystemd_rs.Env.{Env, var}
use libsystemd_rs.Examples.InTime.{InTime, is_sent, watchdog_main-InTime}
use libsystemd_rs.Examples.Notify.{
  notify_main, state_of, after_notify, Tells, notify_main_iff, notify_main-Tells,
}
use libsystemd_rs.Daemon.State.{message, display, check_entry, check_entries}
use libsystemd_rs.Examples.Watchdog.{Event, sent_datagram, returned, parked, watchdog_main}
use libsystemd_rs.Examples.Machine.{Host, Manager, Store, World}
use libsystemd_rs.Examples.Terminates.{service-terminates}
use libsystemd_rs.Examples.PersistentState.{state_name}
use libsystemd_rs.Examples.Restarts.{service-ends}
use libsystemd_rs.Examples.Supervised.{Keeps, Works, service}
use libsystemd_rs.Tests.Daemon.{sample_os}

abbrev store_all : Str → List ℕ → Store → Store
store_all name [] s = s
store_all name (h ∷ hs) s = store_all name hs (s ++ (name, h) ∷ [])

abbrev handle_assignments : List (Str × Str) → List ℕ → Store → Store
handle_assignments ((_, name) ∷ (key, _) ∷ []) hs s =
    if equal key (codes "FDSTORE")
    then store_all name hs s
    else if equal key (codes "FDSTOREREMOVE")
    then keep (λ (e : Str × ℕ). not (equal e.0 name)) s
    else s
handle_assignments _ hs s = s

abbrev listen_variables : ℕ → Store → Env
listen_variables pid [] = []
listen_variables pid (e ∷ s) =
    (codes "LISTEN_PID", Decimal.display pid)
    ∷ (codes "LISTEN_FDS", Decimal.display (length (map (λ (e : Str × ℕ). e.0) (e ∷ s))))
    ∷ (codes "LISTEN_FDNAMES", join_names (map (λ (e : Str × ℕ). e.0) (e ∷ s)))
    ∷ []

abbrev sample_manager : Manager
sample_manager = record {
  handle = λ iov hs s. handle_assignments (assignments iov) hs s;
  environment = λ pid s. (codes "NOTIFY_SOCKET", codes "@systemd") ∷ listen_variables pid s;
}

abbrev pub sample_host : Host Str
sample_host = record {
  os = sample_os;
  system = record { fstat = λ _. none; getsockname = λ _. none; mq_getattr = λ _. false };
  symlink_metadata = λ _. ok (record { is_dir = true });
  failure = λ _. none;
  content_at = λ _. [];
  free_fd = λ _. pos 3;
  manager = sample_manager;
}

sample_manager-Keeps : Keeps sample_manager
unfolding var equal
sample_manager-Keeps = record {
  passes = λ pid e s h. record { pid_is = refl; count_is = refl; names_are = refl };
  passes_none = λ pid. refl;
  stores = λ iov name h same. ap (λ a. handle_assignments a (h ∷ []) []) same;
  removes = λ iov name s same. ap (λ a. handle_assignments a [] s) same;
}

pub sample_host-Works : Works sample_host
unfolding booted socket_addr var equal bytes
sample_host-Works = record {
  is_booted = refl;
  no_failure = λ c. refl;
  socket = codes "@systemd";
  addr = codes "systemd";
  resolves = refl;
  opens = refl;
  sends = λ d. refl;
  socket_given = λ pid s. refl;
  keeps = sample_manager-Keeps;
}

abbrev pub fresh_world : World
fresh_world = record {
  files = λ _. record { content = []; offset = 0 };
  next = 0;
  table = [];
  env = [];
  store = [];
}

service-ends_example :
    (v : World) × (service sample_host (101 ∷ 102 ∷ 103 ∷ []) fresh_world
      ≡ some (2 ∷ 2 ∷ 0 ∷ [], v))
    × (v.store ≡ [])
service-ends_example =
    service-ends sample_host sample_host-Works 101 102 103 [] fresh_world (omega arith)
      (omega arith) refl

-- A world whose state file has been counted up once, and is kept by the manager.
abbrev counted_world : World
counted_world = record {
  files = λ _. record { content = 1 ∷ 1 ∷ []; offset = 0 };
  next = 1;
  table = [];
  env = [];
  store = (state_name, 0) ∷ [];
}

service-terminates_example :
    (v : World) × (service sample_host (101 ∷ 102 ∷ []) counted_world ≡ some (2 ∷ 0 ∷ [], v))
    × (v.store ≡ [])
service-terminates_example =
    service-terminates sample_host sample_host-Works (101 ∷ 102 ∷ []) counted_world 0 1 (1 ∷ [])
      (omega arith) (omega arith) (omega arith) (refl, refl)

abbrev watched : Env
watched =
    (codes "NOTIFY_SOCKET", codes "@systemd")
    ∷ (codes "WATCHDOG_USEC", codes "1000000")
    ∷ (codes "WATCHDOG_PID", codes "42")
    ∷ []

-- Each sleep lasts 30 ms longer than it is asked for.
watchdog_main-InTime_example :
    ((watchdog_main sample_os (λ _. ok (record { is_dir = true })) (pos 42) watched).1 ≡ parked)
    × (length (
          keep is_sent
            (watchdog_main sample_os (λ _. ok (record { is_dir = true })) (pos 42) watched).0)
        ≡ 20)
    × InTime
        (λ i n. n + 30000)
        1060000
        0
        0
        (watchdog_main sample_os (λ _. ok (record { is_dir = true })) (pos 42) watched).0
unfolding booted socket_addr var equal bytes Decimal.parse parse_i32
watchdog_main-InTime_example =
    watchdog_main-InTime sample_os (λ _. ok (record { is_dir = true })) (pos 42) watched
      (codes "1000000") (codes "@systemd") 1000000 30000 (λ i n. n + 30000) (λ i n. omega arith)
      refl refl refl (inr (codes "42", refl, refl)) refl (codes "systemd", refl, refl, refl)

abbrev notified : Env
notified = (codes "NOTIFY_SOCKET", codes "@systemd") ∷ []

abbrev warming_up : List Str
warming_up = codes "notify" ∷ codes "warming up" ∷ []

notify_main_iff_example :
    (((notify_main sample_os (λ _. ok (record { is_dir = true })) warming_up notified).1 ≡ returned)
      ↔ (booted (λ _. ok (record { is_dir = true })) ≡ false))
    × (((notify_main sample_os (λ _. ok (record { is_dir = true })) warming_up notified).1 ≡ parked)
        ↔ ((booted (λ _. ok (record { is_dir = true })) ≡ true)
            × ((var notify_key notified ≡ none)
                ⊎ ((env_sock : Str) × (var notify_key notified ≡ some env_sock)
                    × IsReady sample_os env_sock (state_of warming_up ∷ []) []))))
notify_main_iff_example =
    notify_main_iff sample_os (λ _. ok (record { is_dir = true })) warming_up notified

abbrev warmed : Datagram Bytes
warmed = record { to = codes "systemd"; iov = codes "STATUS=warming up\n"; fds = none }

warming_case :
    (notify_main sample_os (λ _. ok (record { is_dir = true })) warming_up notified).0
    ≡ sent_datagram warmed ∷ []
unfolding notify_main notify notify_with_fds sent_after prepare socket_addr after_notify state_of
    booted context check_entries check_entry message display bytes var equal
warming_case = refl

notify_main-Tells_example :
    (◌≡◌ {A = List (Event Bytes)} [] [])
    × ((env_sock : Str) × (var notify_key notified ≡ some env_sock)
        × Names sample_os env_sock warmed.to)
    × (warmed.fds ≡ none)
    × ((text : Str) × (warmed.iov ≡ bytes text) × Tells warming_up (assignments text))
unfolding state_of
notify_main-Tells_example =
    notify_main-Tells sample_os (λ _. ok (record { is_dir = true })) warming_up notified warmed []
      (omega arith) warming_case
