-- ===== src/Daemon/Notify.antt =====
-- `notify` and `notify_with_fds`. The operating system and nix are a parameter: what each call
-- answers. The outcome keeps the arguments of the calls of `sendmsg`, in order.
pub mod Sent
pub mod Ready
pub mod Lines
use libsystemd_rs.Base.{
  ℕ, Bool, true, false, List, [], ◌∷◌, ◌++◌, Option, none, some, ◌==◌, if◌then◌else◌, is_empty,
  length, Str, Bytes, codes, bytes, Result, ok, err, ◌>>=◌, ◌>>◌, map_err,
}
use libsystemd_rs.Daemon.State.{NotifyState, message, sanity_check_state_entries}
use libsystemd_rs.Decimal
use libsystemd_rs.Decimal.Signed.{ℤ}
use libsystemd_rs.Env.{Env, var, remove_var}
use libsystemd_rs.Error.{SdError, context, from_str}
use libsystemd_rs.Os.{OsError, os_error_display}

-- What `sendmsg` is given: `fds` is `some` for a control message `ScmRights`.
pub record Datagram (Addr : Type 0) : Type 0 where
  pub to : Addr
  pub iov : Bytes
  pub fds : Option (List ℤ)

pub record Os (Addr : Type 0) : Type 0 where
  pub new_abstract : Bytes → Result OsError Addr
  pub new_path : Str → Result OsError Addr
  pub unbound : Result OsError (Unit {0})
  pub sendmsg : Datagram Addr → Result OsError ℕ
  pub from_raw_os_error : OsError → OsError

pub record Outcome (Addr : Type 0) : Type 0 where
  pub result : Result SdError Bool
  pub env : Env
  pub sent : List (Datagram Addr)

abbrev pub notify_key : Str
notify_key = codes "NOTIFY_SOCKET"

-- `vec![ScmRights(fds)]`, or `vec![]` if there are none
abbrev pub ancillary : List ℤ → Option (List ℤ)
ancillary fds = if is_empty fds then none else some fds

abbrev pub datagram : {Addr : Type 0} → Addr → List NotifyState → List ℤ → Datagram Addr
datagram addr state fds = record { to = addr; iov = bytes (message state); fds = ancillary fds }

incomplete_msg : ℕ → ℕ → Str
incomplete_msg sent_len msg_len =
    codes "incomplete notify sendmsg, sent "
    ++ (Decimal.display sent_len ++ (codes " out of " ++ Decimal.display msg_len))

check_sent : ℕ → ℕ → Result SdError Bool
unfolding from_str incomplete_msg
check_sent sent_len msg_len =
    if sent_len == msg_len then ok true else err (from_str (incomplete_msg sent_len msg_len))

module _ {Addr : Type 0} (os : Os Addr) where
  -- `env_sock.strip_prefix('@')`
  unfoldable pub socket_addr : Str → Result SdError Addr
  unfolding context
  socket_addr [] = context (codes "invalid Unix socket path address ") (os.new_path [])
  socket_addr (c ∷ s) =
      if c == b'@'
      then context (codes "invalid Unix socket abstract address " ++ c ∷ s)
          (os.new_abstract (bytes s))
      else context (codes "invalid Unix socket path address " ++ c ∷ s) (os.new_path (c ∷ s))

  -- From the checks to the arguments of `sendmsg`
  unfoldable pub prepare : Str → List NotifyState → List ℤ → Result SdError (Datagram Addr)
  unfolding socket_addr context
  prepare env_sock state fds = do
    sanity_check_state_entries state
    addr ← socket_addr env_sock
    context (codes "failed to open Unix datagram socket") os.unbound
    ok (datagram addr state fds)

  -- From `sendmsg` on
  unfoldable pub deliver : Datagram Addr → Result SdError Bool
  unfolding context check_sent
  deliver d = do
    sent_len ←
        context (codes "failed to send notify datagram")
          (map_err os.from_raw_os_error (os.sendmsg d))
    check_sent sent_len (length d.iov)

  unfoldable pub sent_after : Env → Result SdError (Datagram Addr) → Outcome Addr
  unfolding deliver
  sent_after env (err e) = record { result = err e; env = env; sent = [] }
  sent_after env (ok d) = record { result = deliver d; env = env; sent = d ∷ [] }

  unfoldable pub notify_with_fds : Bool → List NotifyState → List ℤ → Env → Outcome Addr
  unfolding prepare sent_after
  notify_with_fds unset_env state fds env = elim (var notify_key env) [
    | none ↦ record { result = ok false; env = env; sent = [] }
    | some env_sock ↦
        let after = if unset_env then remove_var notify_key env else env in
        sent_after after (prepare env_sock state fds)
  ]

  unfoldable pub notify : Bool → List NotifyState → Env → Outcome Addr
  unfolding notify_with_fds
  notify unset_env state env = notify_with_fds unset_env state [] env
