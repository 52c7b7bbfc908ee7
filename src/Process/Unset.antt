-- ===== src/Process/Unset.antt =====
-- What is unset stays unset, and nothing else changes.
use libsystemd_rs.Activation.Receive.{
  pid_key, fds_key, names_key, receive_descriptors, receive_descriptors_with_names,
}
use libsystemd_rs.Activation.Received.{receive_descriptors-var}
use libsystemd_rs.Activation.System.{System}
use libsystemd_rs.Base.{
  equal_refl, ℕ, Bool, true, false, List, [], Option, none, ◌&&◌, ◌||◌, if◌then◌else◌, Str, codes,
  equal, ok, err, ◌≡◌, ◌⊎◌, refl, inl, inr, arith, ap, ◌∙◌,
}
use libsystemd_rs.Daemon.Notify.Sent.{notify_with_fds-var, notify-unset}
use libsystemd_rs.Daemon.Notify.{Os, notify_key, notify, notify_with_fds}
use libsystemd_rs.Daemon.State.{NotifyState}
use libsystemd_rs.Daemon.Watchdog.{usec_key, watchdog_enabled, watchdog_enabled-var, timeout_of}
use libsystemd_rs.Daemon.Watchdog as Watchdog
use libsystemd_rs.Decimal.Signed.{ℤ, pos}
use libsystemd_rs.Env.{Env, var}
use libsystemd_rs.Error.{SdError, from_str}
use libsystemd_rs.Process.{
  Call, watchdog, received, received_named, notified, notified_fds, env_after, Reach, here, next,
}

-- The variables that the functions remove.
abbrev pub is_service_key : Str → Bool
is_service_key key =
    equal usec_key key
    || equal Watchdog.pid_key key
    || equal notify_key key
    || equal pid_key key
    || equal fds_key key
    || equal names_key key

-- A variable is unset, or is as it was; and one that is none of the functions' is as it was.
abbrev pub IsKept : Env → Env → Str → Type 0
IsKept before after key =
    ((var key after ≡ none) × (is_service_key key ≡ true)) ⊎ (var key after ≡ var key before)

kept_if :
    (test asked : Bool) {now before : Option Str}
    → now ≡ (if asked && test then none else before)
    → ((now ≡ none) × (test ≡ true)) ⊎ (now ≡ before)
kept_if true true h = inl (h, refl)
kept_if true false h = inr h
kept_if false true h = inr h
kept_if false false h = inr h

widened :
    (test : Bool) (before after : Env) (key : Str)
    → (test ≡ true → is_service_key key ≡ true)
    → ((var key after ≡ none) × (test ≡ true)) ⊎ (var key after ≡ var key before)
    → IsKept before after key
widened test before after key wider (inl (unset, h)) = inl (unset, wider h)
widened test before after key wider (inr same) = inr same

IsKept-trans :
    (one two three : Env) (key : Str)
    → IsKept one two key
    → IsKept two three key
    → IsKept one three key
IsKept-trans one two three key first (inl unset) = inl unset
IsKept-trans one two three key (inl (unset, h)) (inr same) = inl (same ∙ unset, h)
IsKept-trans one two three key (inr before) (inr same) = inr (same ∙ before)

abbrev no_pid_error : SdError
no_pid_error = from_str (codes "failed to get LISTEN_PID: environment variable not found")

-- The call asks for its variables to be removed.
abbrev pub unsets : Call → Bool
unsets (watchdog u) = u
unsets (received u) = u
unsets (received_named u) = u
unsets (notified u state) = u
unsets (notified_fds u state fds) = u

module _ {Addr : Type 0} (os : Os Addr) (sys : System) (process_id : ℕ) where
  received_named-env :
      (u : Bool) (env : Env)
      → (receive_descriptors_with_names sys process_id u env).1
        ≡ (receive_descriptors sys process_id u env).1
  unfolding receive_descriptors receive_descriptors_with_names
  received_named-env u env = refl

  received-IsKept :
      (u : Bool) (env : Env) (key : Str)
      → IsKept env (receive_descriptors sys process_id u env).1 key
  received-IsKept u env key =
      widened (equal pid_key key || (equal fds_key key || equal names_key key)) _ _ key
        (λ h. ground (arith, h)) (kept_if _ u (receive_descriptors-var sys process_id u env key))

  notified-IsKept :
      (u : Bool) (state : List NotifyState) (fds : List ℤ) (env : Env) (key : Str)
      → IsKept env (notify_with_fds os u state fds env).env key
  notified-IsKept u state fds env key =
      widened (equal notify_key key) _ _ key (λ h. ground (arith, h))
        (kept_if _ u (notify_with_fds-var os u state fds env key))

  env_after-IsKept :
      (c : Call) (env : Env) (key : Str) → IsKept env (env_after os sys process_id c env) key
  unfolding env_after notify
  env_after-IsKept (watchdog u) env key =
      widened (equal usec_key key || equal Watchdog.pid_key key) _ _ key (λ h. ground (arith, h))
        (kept_if _ u (watchdog_enabled-var (pos process_id) u env key))
  env_after-IsKept (received u) env key = received-IsKept u env key
  env_after-IsKept (received_named u) env key =
      rw (received_named-env u env) (received-IsKept u env key)
  env_after-IsKept (notified u state) env key = notified-IsKept u state [] env key
  env_after-IsKept (notified_fds u state fds) env key = notified-IsKept u state fds env key

  -- However the process calls the library, each variable is in the end as it was or unset, and only
  -- the six variables of the functions can be unset.
  pub Reach-IsKept :
      (before after : Env) (key : Str)
      → Reach os sys process_id before after
      → IsKept before after key
  Reach-IsKept before _ key here = inr refl
  Reach-IsKept before _ key (next {e} r c) =
      IsKept-trans before e _ key (Reach-IsKept before e key r) (env_after-IsKept c e key)

  stays_unset :
      (before after : Env) (key : Str)
      → var key before ≡ none
      → Reach os sys process_id before after
      → var key after ≡ none
  stays_unset before after key unset r = elim (Reach-IsKept before after key r) [
    | inl (gone, _) ↦ gone
    | inr same ↦ same ∙ unset
  ]

  abbrev pub ReceivesNone : Env → Type 0
  ReceivesNone env =
      (u : Bool)
      → ((e : SdError) × ((receive_descriptors sys process_id u env).0 ≡ err e))
        × ((e : SdError) × ((receive_descriptors_with_names sys process_id u env).0 ≡ err e))

  abbrev pub NotifiesNone : Env → Type 0
  NotifiesNone env =
      (u : Bool) (state : List NotifyState) (fds : List ℤ)
      → ((notify_with_fds os u state fds env).result ≡ ok false)
        × ((notify_with_fds os u state fds env).sent ≡ [])

  -- No notification is sent, no timeout is told, no descriptor is received, whatever is asked.
  abbrev pub IsOff : Call → Env → Type 0
  IsOff (watchdog _) env = (u : Bool) → (watchdog_enabled (pos process_id) u env).0 ≡ none
  IsOff (received _) env = ReceivesNone env
  IsOff (received_named _) env = ReceivesNone env
  IsOff (notified _ _) env = NotifiesNone env
  IsOff (notified_fds _ _ _) env = NotifiesNone env

  unset-ReceivesNone : (env : Env) → var pid_key env ≡ none → ReceivesNone env
  unfolding receive_descriptors receive_descriptors_with_names
  unset-ReceivesNone env unset u = ((no_pid_error, rw unset refl), (no_pid_error, rw unset refl))

  unset-NotifiesNone : (env : Env) → var notify_key env ≡ none → NotifiesNone env
  unset-NotifiesNone env unset u state fds = (
    ap (λ o. o.result) (notify-unset os u state fds env unset),
    ap (λ o. o.sent) (notify-unset os u state fds env unset),
  )

  unset-no_timeout :
      (env : Env) (u : Bool)
      → var usec_key env ≡ none
      → (watchdog_enabled (pos process_id) u env).0 ≡ none
  unfolding watchdog_enabled timeout_of
  unset-no_timeout env u unset = ground (arith, unset)

  notified_unset :
      (state : List NotifyState) (fds : List ℤ) (env : Env)
      → var notify_key (notify_with_fds os true state fds env).env ≡ none
  notified_unset state fds env =
      notify_with_fds-var os true state fds env notify_key ∙ rw (equal_refl notify_key) refl

  received_unset : (env : Env) → var pid_key (receive_descriptors sys process_id true env).1 ≡ none
  received_unset env =
      receive_descriptors-var sys process_id true env pid_key ∙ rw (equal_refl pid_key) refl

  watchdog_unset : (env : Env) → var usec_key (watchdog_enabled (pos process_id) true env).1 ≡ none
  watchdog_unset env =
      watchdog_enabled-var (pos process_id) true env usec_key ∙ rw (equal_refl usec_key) refl

  -- After a call that asks for its variables to be removed, whatever is called in between, no such
  -- call has an effect any more: no notification is sent and the result is `false`, no timeout is told,
  -- or both functions that receive descriptors fail.
  pub unset_lasts :
      (c : Call) (before after : Env)
      → unsets c ≡ true
      → Reach os sys process_id (env_after os sys process_id c before) after
      → IsOff c after
  unfolding env_after notify
  unset_lasts (watchdog true) before after h r =
      λ u. unset-no_timeout after u (stays_unset _ after usec_key (watchdog_unset before) r)
  unset_lasts (received true) before after h r =
      unset-ReceivesNone after (stays_unset _ after pid_key (received_unset before) r)
  unset_lasts (received_named true) before after h r = unset-ReceivesNone after (
      stays_unset _ after pid_key
        (ap (var pid_key) (received_named-env true before) ∙ received_unset before) r)
  unset_lasts (notified true state) before after h r =
      unset-NotifiesNone after (stays_unset _ after notify_key (notified_unset state [] before) r)
  unset_lasts (notified_fds true state fds) before after h r =
      unset-NotifiesNone after (stays_unset _ after notify_key (notified_unset state fds before) r)
  unset_lasts (watchdog false) before after h r = absurd (cc h)
  unset_lasts (received false) before after h r = absurd (cc h)
  unset_lasts (received_named false) before after h r = absurd (cc h)
  unset_lasts (notified false state) before after h r = absurd (cc h)
  unset_lasts (notified_fds false state fds) before after h r = absurd (cc h)
