-- ===== src/Daemon/Notify/Ready.antt =====
-- The whole outcome of a notification that succeeds.
use libsystemd_rs.Base.{
  Bool, if◌then◌else◌, false, true, List, [], ◌∷◌, All, some, Str, bytes, length, ok, ◌≡◌, refl, ap,
  ◌∙◌,
}
use libsystemd_rs.Daemon.Notify.Sent.{IsSendable, prepare_iff, notify-set, deliver_iff}
use libsystemd_rs.Daemon.Notify.{Os, datagram, notify_key, socket_addr, notify_with_fds, sent_after}
use libsystemd_rs.Daemon.State.{NotifyState, message}
use libsystemd_rs.Decimal.Signed.{ℤ}
use libsystemd_rs.Env.{Env, var, remove_var}

-- One datagram goes out, and NOTIFY_SOCKET is unset if that is asked for.
pub notify-delivered :
    {Addr : Type 0} (os : Os Addr) (unset_env : Bool) (state : List NotifyState) (fds : List ℤ)
    (env : Env) (env_sock : Str) (addr : Addr)
    → var notify_key env ≡ some env_sock
    → All IsSendable state
    → socket_addr os env_sock ≡ ok addr
    → os.unbound ≡ ok tt
    → os.sendmsg (datagram addr state fds) ≡ ok (length (bytes (message state)))
    → notify_with_fds os unset_env state fds env ≡ record {
      result = ok true;
      env = if unset_env then remove_var notify_key env else env;
      sent = datagram addr state fds ∷ [];
    }
unfolding sent_after
notify-delivered os unset_env state fds env env_sock addr given valid resolves opens sends =
    let d = datagram addr state fds in
    let after = if unset_env then remove_var notify_key env else env in
    let prepared = (prepare_iff os env_sock state fds d).1 (valid, (addr, resolves, opens, refl)) in
    notify-set os unset_env state fds env env_sock given
    ∙ ap (sent_after os after) prepared
    ∙ ap (λ r. record { result = r; env = after; sent = d ∷ [] }) ((deliver_iff os d).1 sends)

-- The environment stays as it is where it is not to be changed.
pub notify-ready :
    {Addr : Type 0} (os : Os Addr) (state : List NotifyState) (fds : List ℤ) (env : Env)
    (env_sock : Str) (addr : Addr)
    → var notify_key env ≡ some env_sock
    → All IsSendable state
    → socket_addr os env_sock ≡ ok addr
    → os.unbound ≡ ok tt
    → os.sendmsg (datagram addr state fds) ≡ ok (length (bytes (message state)))
    → notify_with_fds os false state fds env
      ≡ record { result = ok true; env = env; sent = datagram addr state fds ∷ [] }
notify-ready os state fds env env_sock addr given valid resolves opens sends =
    notify-delivered os false state fds env env_sock addr given valid resolves opens sends
