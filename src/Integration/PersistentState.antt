-- ===== src/Integration/PersistentState.antt =====
-- tests/persistent_state.rs: the program that the test runs under a service manager. What it prints
-- is left out.
use libsystemd_rs.Activation.Descriptor.{into_raw_fd}
use libsystemd_rs.Activation.System.{SocketFd}
use libsystemd_rs.Base.{
  ℕ, zero, suc, ◌+◌, false, not, [], ◌∷◌, Option, none, some, if◌then◌else◌, length, Str, Bytes,
  codes, equal, Result, ok, err,
}
use libsystemd_rs.Daemon.Booted.{booted}
use libsystemd_rs.Daemon.Notify.{notify, notify_with_fds}
use libsystemd_rs.Decimal.Signed.{ℤ}
use libsystemd_rs.Examples.Machine.{
  OpenFile, drop, read_from, removed, Host, Failure, other_error, io_failed, overflow,
  assertion_failed, unexpected_eof, Run, ◌>>=◌, ◌>>◌, pure, fail, call, handle_of, file_of,
  set_file, open_file, write_all, rewind, told,
}
use libsystemd_rs.Examples.PersistentState.{
  pop, receive, state_name, initial_state, final_state, state_path,
}

-- The bytes `STATE`
abbrev pub persistent_state : Bytes
persistent_state = 83 ∷ 84 ∷ 65 ∷ 84 ∷ 69 ∷ []

-- The first `n` bytes, if there are as many
abbrev pub first : ℕ → Bytes → Option Bytes
first zero bs = some []
first (suc n) [] = none
first (suc n) (b ∷ bs) = elim (first n bs) [ none ↦ none | some front ↦ some (b ∷ front) ]

module _ {Addr : Type 0} (host : Host Addr) where
  abbrev pub taken_all : ℕ → OpenFile → Option Bytes → Run Bytes
  taken_all h f none = fail (io_failed unexpected_eof)
  taken_all h f (some bs) = do
    set_file host h (record { content = f.content; offset = f.offset + length bs })
    pure bs

  -- `read_exact` of some bytes
  abbrev pub read_exact : ℤ → ℕ → Run Bytes
  read_exact fd n = do
    call host (read_from fd)
    h ← handle_of host fd
    f ← file_of host h
    taken_all h f (first n (drop f.offset f.content))

  -- From `read_exact` on: `assert_eq!`, the last notification and the exit status
  unfoldable pub check_stored : ℤ → Run ℕ
  unfolding notify equal
  check_stored fd = do
    stored_state ← read_exact fd (length persistent_state)
    if equal stored_state persistent_state then pure tt else fail assertion_failed
    told host (notify host.os false final_state)
    pure 0

module _ {Addr : Type 0} (host : Host Addr) (process_id : ℕ) where
  unfoldable pub create_and_store_persistent_state : Run ℤ
  unfolding notify_with_fds
  create_and_store_persistent_state = do
    f ← open_file host (state_path process_id)
    call host (removed (state_path process_id))
    told host (notify_with_fds host.os false initial_state (f ∷ []))
    write_all host f persistent_state
    rewind host f
    pure f

  -- The `if let` on the last descriptor, and what follows
  unfoldable pub with_descriptor : Option (SocketFd × Str) → Run ℕ
  unfolding create_and_store_persistent_state check_stored into_raw_fd
  with_descriptor none = create_and_store_persistent_state >> pure 2
  with_descriptor (some (fd, name)) =
      if equal name state_name
      then check_stored host (into_raw_fd fd)
      else fail (other_error (codes "Got the wrong file descriptor."))

  unfoldable pub run : Run ℕ
  unfolding booted with_descriptor
  run =
      if not (booted host.symlink_metadata)
      then pure 1
      else do descriptors ← receive host process_id; with_descriptor (pop descriptors)

-- `main` where it runs the program: a failed assertion is a panic, with status 101.
unfoldable pub exit_status : Result Failure ℕ → ℕ
exit_status (ok n) = n
exit_status (err overflow) = 101
exit_status (err assertion_failed) = 101
exit_status (err _) = 1
