-- ===== src/Tests/Process.antt =====
-- Calls in a row
use libsystemd_rs.Activation.System.{System}
use libsystemd_rs.Base.{[], ◌∷◌, true, false, none, codes, refl}
use libsystemd_rs.Daemon.State.{ready}
use libsystemd_rs.Daemon.Watchdog.{usec_key}
use libsystemd_rs.Env.{Env}
use libsystemd_rs.Tests.Daemon.{sample_os}
use libsystemd_rs.Process.Unset.{IsKept, IsOff, Reach-IsKept, unset_lasts}
use libsystemd_rs.Process.{watchdog, notified, env_after, here, next}

abbrev no_sockets : System
no_sockets = record { fstat = λ _. none; getsockname = λ _. none; mq_getattr = λ _. false }

abbrev service_env : Env
service_env =
    (codes "WATCHDOG_USEC", codes "1500000") ∷ (codes "NOTIFY_SOCKET", codes "/run/notify") ∷ []

abbrev notified_env : Env
notified_env = env_after sample_os no_sockets 42 (notified true (ready ∷ [])) service_env

abbrev later : Env
later = env_after sample_os no_sockets 42 (watchdog true) notified_env

Reach-IsKept_example : IsKept service_env later usec_key
Reach-IsKept_example =
    Reach-IsKept sample_os no_sockets 42 service_env later usec_key
      (next (next here (notified true (ready ∷ []))) (watchdog true))

unset_lasts_example : IsOff sample_os no_sockets 42 (notified true (ready ∷ [])) later
unset_lasts_example =
    unset_lasts sample_os no_sockets 42 (notified true (ready ∷ [])) service_env later refl
      (next here (watchdog true))
