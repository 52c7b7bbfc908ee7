-- ===== src/Integration/Restarted.antt =====
-- The two processes of tests/persistent_state.rs under a service manager that keeps a descriptor.
use libsystemd_rs.Activation.System.{SocketFd}
use libsystemd_rs.Base.{
  ℕ, ◌+◌, ◌≤◌, true, false, [], ◌∷◌, ◌++◌, some, Str, Bytes, List, ok, ◌≡◌, refl, ap, ◌∙◌, arith,
}
use libsystemd_rs.Daemon.Notify.{notify_key, notify}
use libsystemd_rs.Decimal.Signed.{ℤ, pos}
use libsystemd_rs.Decimal.{u32_max}
use libsystemd_rs.Env.{var}
use libsystemd_rs.Examples.Counting.{Reaches, and_then-Reaches, changed-Reaches}
use libsystemd_rs.Examples.Created.{receive-none, kept_world, kept_world-IsOpen, stored_then}
use libsystemd_rs.Examples.Machine.{
  told, OpenFile, drop, overwrite, read_from, wrote, rewound, Host, World, Run, ◌>>◌, pure,
  write_all, rewind,
}
use libsystemd_rs.Examples.Open.{IsOpen, Leaves, and_then_ok, on_file_ok}
use libsystemd_rs.Examples.PersistentState.{state_name, state_path, final_state, pop}
use libsystemd_rs.Examples.Restarts.{removed_last, receive_kept}
use libsystemd_rs.Examples.Supervised.{Works, started}
use libsystemd_rs.Integration.PersistentState.{
  persistent_state, first, taken_all, read_exact, check_stored, create_and_store_persistent_state,
  with_descriptor, run,
}

module _ {Addr : Type 0} (host : Host Addr) (works : Works host) where
  -- A file that starts with the state
  abbrev pub HoldsState : Bytes → OpenFile
  HoldsState rest = record { content = persistent_state ++ rest; offset = 0 }

  stored :
      (w : World) (fd : ℤ) (h : ℕ) (bs : Bytes)
      → IsOpen fd h (record { content = bs; offset = 0 }) w
      → Reaches fd h
          (HoldsState (drop 5 bs))
          w
          (pure fd)
          ((write_all host fd persistent_state >> (rewind host fd >> pure fd)) w)
  stored w fd h bs is_open =
      let put : OpenFile → OpenFile = λ f. record {
        content = overwrite f.offset persistent_state f.content;
        offset = f.offset + 5;
      } in
      let back : OpenFile → OpenFile = λ f. record { content = f.content; offset = 0 } in
      changed-Reaches host works (wrote fd) fd put h _ _ w _ _ is_open (λ w1 open1.
        changed-Reaches host works (rewound fd) fd back h _ _ w1 _ _ open1
          (λ w2 open2. (w2, refl, open2, refl, refl)))

  -- The first process stores the file, and ends with 2.
  first_process :
      (process_id : ℕ) (w : World)
      → w.store ≡ []
      → (v : World) × (run host process_id (started host process_id w) ≡ (ok 2, v))
        × (v.files w.next ≡ HoldsState (drop 5 (host.content_at (state_path process_id))))
        × (v.store ≡ (state_name, w.next) ∷ [])
  unfolding run with_descriptor create_and_store_persistent_state
  first_process process_id w empty =
      let s = started host process_id w in
      let fd = host.free_fd s.table in
      let (v, going, (found, same), env, store) =
        stored (kept_world host process_id works s) fd w.next
          (host.content_at (state_path process_id)) (kept_world-IsOpen host process_id works s) in
      let unset = receive-none host process_id s (rw empty (works.keeps.passes_none process_id)) in
      let next : List (SocketFd × Str) → Run ℕ = λ ds. with_descriptor host process_id (pop ds) in
      let made =
        stored_then host process_id works s
          (λ f. write_all host f persistent_state >> (rewind host f >> pure f)) empty
          (works.socket_given process_id w.store)
        ∙ going in
      (
        v,
        rw works.is_booted (and_then_ok _ next [] s unset ∙ and_then_ok _ (λ _. pure 2) fd v made),
        same,
        store,
      )

  read_state-Leaves :
      (fd : ℤ) (h : ℕ) (rest : Bytes) (w : World)
      → IsOpen fd h (HoldsState rest) w
      → Leaves fd h
          (record { content = persistent_state ++ rest; offset = 5 })
          w
          persistent_state
          (read_exact host fd 5 w)
  read_state-Leaves fd h rest w (found, same) =
      let m : ℕ → OpenFile → Run Bytes =
        λ h f. taken_all host h f (first 5 (drop f.offset f.content)) in
      rw (on_file_ok host works.no_failure (read_from fd) fd m h w found, same)
        (record {
          returns = refl;
          is_open = (found, ground arith);
          env_kept = refl;
          store_kept = refl;
        })

  check_stored_ok :
      (fd : ℤ) (h : ℕ) (rest : Bytes) (w : World)
      → IsOpen fd h (HoldsState rest) w
      → w.store ≡ (state_name, h) ∷ []
      → var notify_key w.env ≡ some works.socket
      → (v : World) × (check_stored host fd w ≡ (ok 0, v)) × (v.store ≡ [])
  unfolding check_stored notify
  check_stored_ok fd h rest w is_open kept given =
      let (v, going, _, env, store) =
        and_then-Reaches fd h _ _ w persistent_state
          (told host (notify host.os false final_state) >> pure 0) (read_exact host fd 5 w) _
          (read_state-Leaves fd h rest w is_open) (λ w1 open1. (w1, refl, open1, refl, refl)) in
      (
        record v { store = [] },
        going
            ∙ and_then_ok _ (λ _. pure 0) true (record v { store = [] })
                (removed_last host works v h (store ∙ kept) (ap (var notify_key) env ∙ given)),
        refl,
      )

  -- The second process is passed the file, finds in it what the first has written, and ends with 0.
  second_process :
      (process_id : ℕ) (w : World) (h : ℕ) (rest : Bytes)
      → process_id ≤ u32_max
      → w.store ≡ (state_name, h) ∷ []
      → w.files h ≡ HoldsState rest
      → (v : World) × (run host process_id (started host process_id w) ≡ (ok 0, v)) × (v.store ≡ [])
  unfolding run with_descriptor
  second_process process_id w h rest small kept file =
      let s = started host process_id w in
      let (fd, received, third) = receive_kept host works process_id w h small kept in
      let next : List (SocketFd × Str) → Run ℕ = λ ds. with_descriptor host process_id (pop ds) in
      let (v, going, store) =
        check_stored_ok (pos 3) h rest s (rw kept (refl), file) kept
          (works.socket_given process_id w.store) in
      (
        v,
        rw works.is_booted (
            and_then_ok _ next ((fd, state_name) ∷ []) s received
            ∙ ap (λ i. check_stored host i s) third
            ∙ going),
        store,
      )

  -- On a machine with systemd where no call fails, under a manager that keeps a descriptor, the program
  -- of the test does what the test waits for: from an empty store a first process ends with status 2 and
  -- has the manager keep its file, and a second, with a number of 32 bits, finds the state in it, ends
  -- with status 0 and leaves nothing. No assertion fails, whatever the path has held before.
  pub restart-reads_state :
      (one two : ℕ) (w : World)
      → two ≤ u32_max
      → w.store ≡ []
      → (v u : World) × (run host one (started host one w) ≡ (ok 2, v))
        × (v.store ≡ (state_name, w.next) ∷ [])
        × (run host two (started host two v) ≡ (ok 0, u))
        × (u.store ≡ [])
  restart-reads_state one two w small empty =
      let (v, first_ran, file, kept) = first_process one w empty in
      let (u, then_ran, left) = second_process two v w.next _ small kept file in
      (v, u, first_ran, kept, then_ran, left)
