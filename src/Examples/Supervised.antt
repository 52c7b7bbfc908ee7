-- ===== src/Examples/Supervised.antt =====
-- The program of examples/persistent_state.rs under a service manager that restarts it on status 2,
-- as its first comment has it. The laws are what sd_notify(3) and sd_listen_fds(3) say of the manager.
use libsystemd_rs.Activation.Names.{Passes}
use libsystemd_rs.Activation.Receive.{pid_key}
use libsystemd_rs.Base.{
  ℕ, suc, true, not, List, [], ◌∷◌, ◌==◌, keep, map, All, Option, none, some, if◌then◌else◌, length,
  Str, Bytes, codes, equal, Result, ok, ◌≡◌,
}
use libsystemd_rs.Daemon.Booted.{booted}
use libsystemd_rs.Daemon.Fdname.{validate_fdname}
use libsystemd_rs.Daemon.Notify.Lines.{assignments}
use libsystemd_rs.Daemon.Notify.{Datagram, notify_key, socket_addr}
use libsystemd_rs.Decimal.Signed.{ℤ, pos}
use libsystemd_rs.Env.{var}
use libsystemd_rs.Examples.Machine.{FileCall, Store, Manager, Host, World, Failure}
use libsystemd_rs.Examples.PersistentState.{run, exit_status}

-- A manager that keeps at least one descriptor for the service.
pub record Keeps (m : Manager) : Type 0 where
  pub passes :
      (pid : ℕ) (e : Str × ℕ) (s : Store)
      → All (λ e. validate_fdname e.0 ≡ ok tt) (e ∷ s)
      → Passes pid (map (λ e. e.0) (e ∷ s)) (m.environment pid (e ∷ s))
  pub passes_none : (pid : ℕ) → var pid_key (m.environment pid []) ≡ none
  pub stores :
      (iov : Bytes) (name : Str) (h : ℕ)
      → assignments iov ≡ (codes "FDNAME", name) ∷ (codes "FDSTORE", codes "1") ∷ []
      → m.handle iov (h ∷ []) [] ≡ (name, h) ∷ []
  pub removes :
      (iov : Bytes) (name : Str) (s : Store)
      → assignments iov ≡ (codes "FDNAME", name) ∷ (codes "FDSTOREREMOVE", codes "1") ∷ []
      → m.handle iov [] s ≡ keep (λ e. not (equal e.0 name)) s

-- A machine that runs systemd, on which no call fails.
pub record Works {Addr : Type 0} (host : Host Addr) : Type 0 where
  pub is_booted : booted host.symlink_metadata ≡ true
  pub no_failure : (c : FileCall) → host.failure c ≡ none
  pub socket : Str
  pub addr : Addr
  pub resolves : socket_addr host.os socket ≡ ok addr
  pub opens : host.os.unbound ≡ ok tt
  pub sends : (d : Datagram Addr) → host.os.sendmsg d ≡ ok (length d.iov)
  pub socket_given :
      (pid : ℕ) (s : Store) → var notify_key (host.manager.environment pid s) ≡ some socket
  pub keeps : Keeps host.manager

-- The descriptors of a process that is passed a store: from 3 on
abbrev pub passed : ℕ → Store → List (ℤ × ℕ)
passed n [] = []
passed n ((name, h) ∷ s) = (pos n, h) ∷ passed (suc n) s

abbrev pub status_before : ℕ → Option (List ℕ × World) → Option (List ℕ × World)
status_before status none = none
status_before status (some (statuses, w)) = some (status ∷ statuses, w)

module _ {Addr : Type 0} (host : Host Addr) where
  -- A new process: its environment and its descriptors are the manager's.
  abbrev pub started : ℕ → World → World
  started pid w = record w { env = host.manager.environment pid w.store; table = passed 3 w.store }

  abbrev pub run_of : ℕ → World → Result Failure ℕ × World
  run_of pid w = run host pid (started pid w)

  -- The runs of the service, one for each process number, until one ends with another status than 2:
  -- the statuses and the world at the end, or `none` if the numbers do not reach that far.
  unfoldable pub service : List ℕ → World → Option (List ℕ × World)
  unfolding exit_status
  service [] w = none
  service (pid ∷ pids) w =
      let status = exit_status (run_of pid w).0 in
      let rest = service pids (run_of pid w).1 in
      if status == 2 then status_before status rest else some (status ∷ [], (run_of pid w).1)
