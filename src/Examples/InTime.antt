-- ===== src/Examples/InTime.antt =====
-- The program of examples/watchdog.rs keeps its watchdog content as long as it loops.
use libsystemd_rs.Base.{
  ℕ, zero, suc, ◌+◌, ◌*◌, ◌/◌, ◌≤◌, Bool, true, false, List, [], ◌∷◌, keep, Option, none, some, Str,
  equal, bytes, length, Result, ok, ◌≡◌, refl, ap, ◌∙◌, arith,
}
use libsystemd_rs.Daemon.Booted.{Metadata, booted}
use libsystemd_rs.Daemon.Notify.Ready.{notify-ready}
use libsystemd_rs.Daemon.Notify.{Os, datagram, notify_key, notify, socket_addr}
use libsystemd_rs.Daemon.State.{message, watchdog}
use libsystemd_rs.Daemon.Watchdog.{
  usec_key, watchdog_enabled, watchdog_enabled_iff, watchdog_enabled-var, IsForProcess,
}
use libsystemd_rs.Decimal
use libsystemd_rs.Decimal.Signed.{ℤ}
use libsystemd_rs.Decimal.{u64_max}
use libsystemd_rs.Env.{Env, var}
use libsystemd_rs.Examples.Watchdog.{
  Event, sent_datagram, slept, End, parked, half, keep_alive, with_timeout, watchdog_main,
}
use libsystemd_rs.Os.{OsError}

-- A clock tells how long the sleep with a number lasts, and all that the program does until the next
-- datagram, where the sleep asks for a given time. It is late by at most `late`.
abbrev pub Lags : ℕ → (ℕ → ℕ → ℕ) → Type 0
Lags late lasts = (i n : ℕ) → lasts i n ≤ n + late

-- At each datagram at most `bound` has passed since the one before, where the sleeps have the numbers
-- from `i` on; `since` has passed at the start.
abbrev pub InTime : {Addr : Type 0} → (ℕ → ℕ → ℕ) → ℕ → ℕ → ℕ → List (Event Addr) → Type 0
InTime lasts bound i since [] = Unit
InTime lasts bound i since (sent_datagram d ∷ events) =
    (2 * since ≤ bound) × InTime lasts bound i 0 events
InTime lasts bound i since (slept n ∷ events) =
    InTime lasts bound (suc i) (since + lasts i n) events

abbrev pub is_sent : {Addr : Type 0} → Event Addr → Bool
is_sent (sent_datagram d) = true
is_sent (slept n) = false

module _ {Addr : Type 0} (os : Os Addr) where
  -- The system takes the datagram of a watchdog notification.
  abbrev pub Takes : Str → Type 0
  Takes env_sock =
      (addr : Addr) × (socket_addr os env_sock ≡ ok addr)
      × (os.unbound ≡ ok tt)
      × (os.sendmsg (datagram addr (watchdog ∷ []) [])
          ≡ ok (length (bytes (message (watchdog ∷ [])))))

  -- `n` rounds send `n` datagrams in time, and the program is parked in the end.
  abbrev GoesOn : (ℕ → ℕ → ℕ) → ℕ → ℕ → ℕ → ℕ → List (Event Addr) × End → Type 0
  GoesOn lasts n bound i since r =
      (r.1 ≡ parked) × (length (keep is_sent r.0) ≡ n) × InTime lasts bound i since r.0

  keep_alive-GoesOn :
      (late : ℕ) (lasts : ℕ → ℕ → ℕ)
      → Lags late lasts
      → (n timeout limit i since : ℕ) (env : Env) (env_sock : Str)
      → var notify_key env ≡ some env_sock
      → Takes env_sock
      → timeout * 1000 ≤ limit
      → 2 * since ≤ limit + 2 * late
      → GoesOn lasts n (limit + 2 * late) i since (keep_alive os n timeout env)
  unfolding keep_alive notify
  keep_alive-GoesOn late lasts lags zero timeout limit i since env env_sock given takes fits now =
      (refl, refl, tt)
  keep_alive-GoesOn late lasts lags (suc n) timeout limit i since env env_sock given
        (addr, resolves, opens, sends) fits now =
      let (end, count, rest) =
        keep_alive-GoesOn late lasts lags n timeout limit (suc i) (0 + lasts i (half timeout)) env
          env_sock given (addr, resolves, opens, sends) fits
          (omega (arith, fits, lags i (half timeout))) in
      rw (notify-ready os (watchdog ∷ []) [] env env_sock addr given (tt, tt) resolves opens sends)
        (end, ap suc count, (now, rest))

  with_timeout-some :
      (r : Option ℕ × Env) (timeout : ℕ)
      → r.0 ≡ some timeout
      → with_timeout os r ≡ keep_alive os 20 timeout r.1
  unfolding with_timeout
  with_timeout-some (none, env) timeout h = absurd (cc h)
  with_timeout-some (some t, env) timeout h = let same : t ≡ timeout = cc h in rw same refl

  -- On a system that runs systemd, with a limit for this process and a socket whose system takes the
  -- notification, the program sends twenty datagrams and then blocks for ever. If each sleep, with what
  -- the program does until the next datagram, is late by at most `late`, then each datagram goes out
  -- at most half of the limit and `late` after the one before.
  pub watchdog_main-InTime :
      (symlink_metadata : Str → Result OsError Metadata) (getpid : ℤ) (env : Env)
      (text env_sock : Str) (limit late : ℕ) (lasts : ℕ → ℕ → ℕ)
      → Lags late lasts
      → booted symlink_metadata ≡ true
      → var usec_key env ≡ some text
      → Decimal.parse u64_max text ≡ ok limit
      → IsForProcess getpid env
      → var notify_key env ≡ some env_sock
      → Takes env_sock
      → GoesOn lasts 20 (limit + 2 * late) 0 0 (watchdog_main os symlink_metadata getpid env)
  unfolding watchdog_main equal
  watchdog_main-InTime symlink_metadata getpid env text env_sock limit late lasts lags on_systemd
        set parsed ours given takes =
      let enabled : (watchdog_enabled getpid true env).0 ≡ some (limit / 1000) =
        (watchdog_enabled_iff getpid true env (limit / 1000)).1
          ((text, limit, set, parsed, refl), ours) in
      let kept : var notify_key (watchdog_enabled getpid true env).1 ≡ some env_sock =
        watchdog_enabled-var getpid true env notify_key ∙ given in
      rw (on_systemd, with_timeout-some (watchdog_enabled getpid true env) (limit / 1000) enabled)
        (keep_alive-GoesOn late lasts lags 20 (limit / 1000) limit 0 0
          (watchdog_enabled getpid true env).1 env_sock kept takes (omega arith) (omega arith))
