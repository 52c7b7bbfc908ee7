-- ===== src/Examples/PersistentState.antt =====
-- examples/persistent_state.rs: the functions of the program. What it prints is left out.
use libsystemd_rs.Activation.Descriptor.{into_raw_fd}
use libsystemd_rs.Activation.Receive.{receive_descriptors_with_names}
use libsystemd_rs.Activation.System.{SocketFd}
use libsystemd_rs.Base.{
  ℕ, ◌+◌, false, not, List, [], ◌∷◌, ◌++◌, ◌==◌, ltb, Option, none, some, if◌then◌else◌, Str, codes,
  equal, Result, ok, err,
}
use libsystemd_rs.Daemon.Booted.{booted}
use libsystemd_rs.Daemon.Notify.{notify, notify_with_fds}
use libsystemd_rs.Daemon.State.{NotifyState, fdname, fdstore, fdstore_remove}
use libsystemd_rs.Decimal
use libsystemd_rs.Decimal.Signed.{ℤ}
use libsystemd_rs.Error.{SdError}
use libsystemd_rs.Examples.Machine.{
  removed, Host, Failure, other_error, overflow, Run, ◌>>=◌, ◌>>◌, pure, fail, call, open_file,
  set_len, write_all, rewind, read_byte, told,
}

-- `Vec::pop`, of which only the element is used
abbrev pub pop : {A : Type 0} → List A → Option A
pop [] = none
pop (x ∷ []) = some x
pop (x ∷ y ∷ xs) = pop (y ∷ xs)

abbrev pub or_empty : Result SdError (List (SocketFd × Str)) → List (SocketFd × Str)
or_empty (ok ds) = ds
or_empty (err e) = []

abbrev pub state_name : Str
state_name = codes "persistent-state"

abbrev pub initial_state : List NotifyState
initial_state = fdname state_name ∷ fdstore ∷ []

abbrev pub final_state : List NotifyState
final_state = fdname state_name ∷ fdstore_remove ∷ []

-- `buf[0] += 1` in a build with overflow checks, as a debug build is; without them it wraps.
abbrev pub increment : ℕ → Run ℕ
increment b = if b == 255 then fail overflow else pure (b + 1)

-- The state path of a process
abbrev pub state_path : ℕ → Str
state_path process_id = codes "/dev/shm/persistent_state-" ++ Decimal.display process_id

module _ {Addr : Type 0} (host : Host Addr) where
  -- From the incremented byte on: the exit status
  unfoldable pub finish : ℕ → Run ℕ
  unfolding notify
  finish state =
      if ltb state 3 then pure 2 else told host (notify host.os false final_state) >> pure 0

  -- From `read_exact` on
  unfoldable pub count_up : ℤ → Run ℕ
  unfolding finish
  count_up persistent_state = do
    buf ← read_byte host persistent_state
    rewind host persistent_state
    next ← increment buf
    write_all host persistent_state (next ∷ [])
    rewind host persistent_state
    finish next

module _ {Addr : Type 0} (host : Host Addr) (process_id : ℕ) where
  unfoldable pub create_and_store_persistent_state : Run ℤ
  unfolding notify_with_fds
  create_and_store_persistent_state = do
    f ← open_file host (state_path process_id)
    call host (removed (state_path process_id))
    told host (notify_with_fds host.os false initial_state (f ∷ []))
    set_len host f 2
    write_all host f (0 ∷ 1 ∷ [])
    rewind host f
    pure f

  abbrev pub receive : Run (List (SocketFd × Str))
  receive w =
      let (r, env) = receive_descriptors_with_names host.system process_id false w.env in
      (ok (or_empty r), record w { env = env })

  -- The `if let` on the last descriptor
  unfoldable pub persistent_file : Option (SocketFd × Str) → Run ℤ
  unfolding create_and_store_persistent_state into_raw_fd
  persistent_file none = create_and_store_persistent_state
  persistent_file (some (fd, name)) =
      if equal name state_name
      then pure (into_raw_fd fd)
      else fail (other_error (codes "Got the wrong file descriptor."))

  unfoldable pub run : Run ℕ
  unfolding booted persistent_file count_up
  run = if not (booted host.symlink_metadata) then pure 1 else do
    descriptors ← receive
    persistent_state ← persistent_file (pop descriptors)
    count_up host persistent_state

-- `main`: an error is status 1, a panic 101.
unfoldable pub exit_status : Result Failure ℕ → ℕ
exit_status (ok n) = n
exit_status (err overflow) = 101
exit_status (err _) = 1
