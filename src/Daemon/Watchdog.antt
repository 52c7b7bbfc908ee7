-- ===== src/Daemon/Watchdog.antt =====
-- `watchdog_enabled`. A `Duration` is its number of milliseconds.
use libsystemd_rs.Base.{
  ℕ, ◌/◌, Bool, true, false, Option, none, some, if◌then◌else◌, Str, codes, equal, ok, err,
  Result-cases, Option-cases, ◌≡◌, ◌↔◌, ◌⊎◌, inl, inr, arith, ◌||◌, ◌&&◌, Bool-cases,
}
use libsystemd_rs.Decimal.Signed.{ℤ, pos, negsuc, parse_i32, same_int}
use libsystemd_rs.Decimal.{u64_max, parse}
use libsystemd_rs.Env.{Env, var, remove_var, var-remove_var}

abbrev pub usec_key : Str
usec_key = codes "WATCHDOG_USEC"

abbrev pub pid_key : Str
pid_key = codes "WATCHDOG_PID"

-- `env_usec.and_then(|usec_str| usec_str.parse::<u64>().ok())`, as a duration
unfoldable pub timeout_of : Option Str → Option ℕ
timeout_of none = none
timeout_of (some usec_str) = elim (parse u64_max usec_str) [
  | ok usec ↦ some (usec / 1000)
  | err e ↦ none
]

-- The test of `env_pid` against `getpid()`.
unfoldable pub for_this_process : ℤ → Option Str → Bool
for_this_process getpid none = true
for_this_process getpid (some pid_str) = elim (parse_i32 pid_str) [
  | none ↦ false
  | some pid ↦ same_int getpid pid
]

unfoldable pub watchdog_env : Bool → Env → Env
watchdog_env unset_env env = if unset_env then remove_var pid_key (remove_var usec_key env) else env

-- The result with the environment that the call leaves.
unfoldable pub watchdog_enabled : ℤ → Bool → Env → Option ℕ × Env
unfolding timeout_of for_this_process watchdog_env
watchdog_enabled getpid unset_env env =
    let env_usec = var usec_key env in
    let env_pid = var pid_key env in
    let after = watchdog_env unset_env env in
    elim (timeout_of env_usec) [
      | none ↦ (none, after)
      | some timeout ↦
          if for_this_process getpid env_pid then (some timeout, after) else (none, after)
    ]

-- `t` is the limit of `env` in whole milliseconds.
abbrev pub IsTimeout : Env → ℕ → Type 0
IsTimeout env t =
    (text : Str) × (usec : ℕ) × (var usec_key env ≡ some text)
    × (parse u64_max text ≡ ok usec)
    × (t ≡ usec / 1000)

-- `env` names no process or this one.
abbrev pub IsForProcess : ℤ → Env → Type 0
IsForProcess getpid env =
    (var pid_key env ≡ none)
    ⊎ ((text : Str) × (var pid_key env ≡ some text) × (parse_i32 text ≡ some getpid))

same_int_iff : (a b : ℤ) → (same_int a b ≡ true) ↔ (a ≡ b)
same_int_iff (pos a) (pos b) = ground arith
same_int_iff (pos a) (negsuc b) = ground arith
same_int_iff (negsuc a) (pos b) = ground arith
same_int_iff (negsuc a) (negsuc b) = ground arith

timeout_of_iff : (env : Env) (t : ℕ) → (timeout_of (var usec_key env) ≡ some t) ↔ IsTimeout env t
unfolding timeout_of
timeout_of_iff env t = elim (Option-cases (var usec_key env)) [
  | inl unset ↦ ground (arith, unset)
  | inr (text, set) ↦ elim (Result-cases (parse u64_max text)) [
    | inl (e, bad) ↦ ground (arith, set, bad)
    | inr (usec, good) ↦ ground (arith, set, good)
  ]
]

for_this_process_iff :
    (getpid : ℤ) (env : Env)
    → (for_this_process getpid (var pid_key env) ≡ true) ↔ IsForProcess getpid env
unfolding for_this_process
for_this_process_iff getpid env = elim (Option-cases (var pid_key env)) [
  | inl unset ↦ ground (arith, unset)
  | inr (text, set) ↦ elim (Option-cases (parse_i32 text)) [
    | inl bad ↦ ground (arith, set, bad)
    | inr (pid, good) ↦ ground (arith, set, good, same_int_iff getpid pid)
  ]
]

-- A timeout is returned exactly if WATCHDOG_USEC is set to a number of 64 bits and WATCHDOG_PID is
-- unset or the process's own number; it is the limit in whole milliseconds.
pub watchdog_enabled_iff :
    (getpid : ℤ) (unset_env : Bool) (env : Env) (t : ℕ)
    → ((watchdog_enabled getpid unset_env env).0 ≡ some t)
      ↔ (IsTimeout env t × IsForProcess getpid env)
unfolding watchdog_enabled
watchdog_enabled_iff getpid unset_env env t = ground (
  arith,
  Option-cases (timeout_of (var usec_key env)),
  timeout_of_iff env t,
  for_this_process_iff getpid env,
)

-- Whatever is returned, the call unsets WATCHDOG_USEC and WATCHDOG_PID if it is asked to, and
-- leaves every other variable as it is.
pub watchdog_enabled-var :
    (getpid : ℤ) (unset_env : Bool) (env : Env) (key : Str)
    → var key (watchdog_enabled getpid unset_env env).1
      ≡ (if unset_env && (equal usec_key key || equal pid_key key) then none else var key env)
unfolding watchdog_enabled watchdog_env
watchdog_enabled-var getpid unset_env env key = ground (
  arith,
  Option-cases (timeout_of (var usec_key env)),
  Bool-cases (for_this_process getpid (var pid_key env)),
  var-remove_var pid_key key (remove_var usec_key env),
  var-remove_var usec_key key env,
)
