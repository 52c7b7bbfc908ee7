-- ===== src/Process.antt =====
-- A process that calls the functions of src/daemon.rs and src/activation.rs in any order: what their
-- calls do to the environment that they share.
pub mod Unset
use libsystemd_rs.Activation.Receive.{receive_descriptors, receive_descriptors_with_names}
use libsystemd_rs.Activation.System.{System}
use libsystemd_rs.Base.{ℕ, Bool, true, false, List}
use libsystemd_rs.Daemon.Notify.{Os, notify, notify_with_fds}
use libsystemd_rs.Daemon.State.{NotifyState}
use libsystemd_rs.Daemon.Watchdog.{watchdog_enabled}
use libsystemd_rs.Decimal.Signed.{ℤ, pos}
use libsystemd_rs.Env.{Env}

-- The Boolean is `unset_env`.
pub data Call : Type 0 where
  watchdog received received_named : Bool → Call
  notified : Bool → List NotifyState → Call
  notified_fds : Bool → List NotifyState → List ℤ → Call

module _ {Addr : Type 0} (os : Os Addr) (sys : System) (process_id : ℕ) where
  -- The environment that a call leaves.
  unfoldable pub env_after : Call → Env → Env
  env_after (watchdog unset_env) env = (watchdog_enabled (pos process_id) unset_env env).1
  env_after (received unset_env) env = (receive_descriptors sys process_id unset_env env).1
  env_after (received_named unset_env) env =
      (receive_descriptors_with_names sys process_id unset_env env).1
  env_after (notified unset_env state) env = (notify os unset_env state env).env
  env_after (notified_fds unset_env state fds) env =
      (notify_with_fds os unset_env state fds env).env

  -- The environments that a process can get to.
  pub data Reach (env : Env) : Env → Type 0 where
    here : Reach env env
    next : {e : Env} → Reach env e → (c : Call) → Reach env (env_after c e)
