-- ===== src/Examples/Watchdog.antt =====
-- examples/watchdog.rs. The operating system's answers are a parameter; what the program does is the
-- list of its datagrams and of the sleeps it asks for, which may last longer. What it prints is left out.
use libsystemd_rs.Base.{
  ℕ, zero, suc, ◌*◌, true, false, not, List, [], ◌∷◌, ◌++◌, map, Option, none, some, if◌then◌else◌,
  Str, codes, Result, ok, err,
}
use libsystemd_rs.Daemon.Booted.{Metadata, booted}
use libsystemd_rs.Daemon.Notify.{Os, Datagram, Outcome, notify}
use libsystemd_rs.Daemon.State.{watchdog}
use libsystemd_rs.Daemon.Watchdog.{watchdog_enabled}
use libsystemd_rs.Decimal.Signed.{ℤ}
use libsystemd_rs.Env.{Env}
use libsystemd_rs.Os.{OsError}

-- `slept` has the argument of `thread::sleep`, in microseconds.
pub data Event (Addr : Type 0) : Type 0 where
  sent_datagram : Datagram Addr → Event Addr
  slept : ℕ → Event Addr

-- How the program comes to an end, or that it blocks for ever
pub data End : Type 0 where
  returned parked : End
  panicked : Str → End

-- Half of a timeout of whole milliseconds: `timeout / 2`
abbrev pub half : ℕ → ℕ
half timeout = timeout * 500

-- What a notification comes to, before the rest of the program, a function of the environment
unfoldable pub next_round :
    {Addr : Type 0} → ℕ → Outcome Addr → (Env → List (Event Addr) × End) → List (Event Addr) × End
next_round timeout o rest = elim o.result [
  | err e ↦ (map sent_datagram o.sent, panicked (codes "notify failed"))
  | ok b ↦
      let (later, end) = rest o.env in
      (map sent_datagram o.sent ++ slept (half timeout) ∷ later, end)
]

module _ {Addr : Type 0} (os : Os Addr) where
  -- The last `n` rounds of the loop, and `thread::park()`
  unfoldable pub keep_alive : ℕ → ℕ → Env → List (Event Addr) × End
  unfolding notify next_round
  keep_alive zero timeout env = ([], parked)
  keep_alive (suc n) timeout env =
      next_round timeout (notify os false (watchdog ∷ []) env) (λ e. keep_alive n timeout e)

  -- From `expect("watchdog disabled")` on
  unfoldable pub with_timeout : Option ℕ × Env → List (Event Addr) × End
  unfolding keep_alive
  with_timeout (none, env) = ([], panicked (codes "watchdog disabled"))
  with_timeout (some timeout, env) = keep_alive 20 timeout env

  unfoldable pub watchdog_main : (Str → Result OsError Metadata) → ℤ → Env → List (Event Addr) × End
  unfolding booted watchdog_enabled with_timeout
  watchdog_main symlink_metadata getpid env =
      if not (booted symlink_metadata)
      then ([], returned)
      else with_timeout (watchdog_enabled getpid true env)
