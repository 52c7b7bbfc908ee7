-- ===== src/Examples/Restarts.antt =====
-- The runs of examples/persistent_state.rs until it is finished.
use libsystemd_rs.Activation.Descriptor.{into_raw_fd}
use libsystemd_rs.Activation.Names.{Passes}
use libsystemd_rs.Activation.System.{SocketFd}
use libsystemd_rs.Base.{
  ℕ, suc, ◌<◌, ◌≤◌, true, false, not, ltb, List, [], ◌∷◌, keep, some, Str, Bytes, split, bytes,
  codes, equal, equal_refl, ok, ◌≡◌, refl, ap, ◌∙◌, arith,
}
use libsystemd_rs.Daemon.Notify.Lines.{assignments, assigns}
use libsystemd_rs.Daemon.Notify.{notify_key, notify}
use libsystemd_rs.Daemon.State.{message, display}
use libsystemd_rs.Decimal.Signed.{ℤ, pos}
use libsystemd_rs.Decimal.{u32_max}
use libsystemd_rs.Env.{var}
use libsystemd_rs.Examples.Counting.{count_up-Reaches, told_ok}
use libsystemd_rs.Examples.Created.{
  receive-none, receive_state, create_ok, state_name_ok, initial_IsSendable,
}
use libsystemd_rs.Examples.Machine.{told, pure, ◌>>=◌, Host, World, Run, pure, ◌>>=◌, pure, ◌>>=◌}
use libsystemd_rs.Examples.Open.{and_then_ok}
use libsystemd_rs.Examples.PersistentState.{
  state_name, final_state, receive, persistent_file, finish, count_up, run, exit_status, pop,
}
use libsystemd_rs.Examples.Supervised.{Works, started, run_of, service}

pub final_assignments :
    assignments (bytes (message final_state))
    ≡ (codes "FDNAME", state_name) ∷ (codes "FDSTOREREMOVE", codes "1") ∷ []
unfolding assignments assigns message display bytes split
final_assignments = refl

pub forgotten :
    (h : ℕ) → keep (λ (e : Str × ℕ). not (equal e.0 state_name)) ((state_name, h) ∷ []) ≡ []
unfolding equal
forgotten h = refl

module _ {Addr : Type 0} (host : Host Addr) (works : Works host) where
  -- A run that gets a file goes on with it.
  run_with :
      (process_id : ℕ) (w v : World) (fd : ℤ) (ds : List (SocketFd × Str))
      → receive host process_id w ≡ (ok ds, w)
      → persistent_file host process_id (pop ds) w ≡ (ok fd, v)
      → run host process_id w ≡ count_up host fd v
  unfolding run
  run_with process_id w v fd ds received got =
      let next : List (SocketFd × Str) → Run ℕ =
        λ ds. persistent_file host process_id (pop ds) >>= count_up host in
      rw works.is_booted (and_then_ok _ next ds w received ∙ and_then_ok _ (count_up host) fd v got)

  first_run :
      (process_id : ℕ) (w : World)
      → w.store ≡ []
      → (v : World) × (run_of host process_id w ≡ (ok 2, v))
        × (v.files w.next ≡ record { content = 1 ∷ 1 ∷ []; offset = 0 })
        × (v.store ≡ (state_name, w.next) ∷ [])
  unfolding finish persistent_file
  first_run process_id w empty =
      let s = started host process_id w in
      let (v, created, is_open, env, store) =
        create_ok host process_id works s empty (works.socket_given process_id w.store) in
      let (u, counted, (found, file), env2, store2) =
        count_up-Reaches host works (host.free_fd s.table) w.next 0 (1 ∷ []) v (omega arith)
          is_open in
      let unset = receive-none host process_id s (rw empty (works.keeps.passes_none process_id)) in
      (u, run_with process_id s v _ [] unset created ∙ counted, file, store2 ∙ store)

  -- A process that is passed the state file receives it as descriptor 3.
  pub receive_kept :
      (process_id : ℕ) (w : World) (h : ℕ)
      → process_id ≤ u32_max
      → w.store ≡ (state_name, h) ∷ []
      → (fd : SocketFd) × (receive host process_id (started host process_id w)
          ≡ (ok ((fd, state_name) ∷ []), started host process_id w))
        × (into_raw_fd fd ≡ pos 3)
  receive_kept process_id w h small kept =
      let s = started host process_id w in
      let passes : Passes process_id (state_name ∷ []) s.env =
        rw kept (works.keeps.passes process_id (state_name, h) [] (state_name_ok, tt)) in
      receive_state host process_id s small passes

  -- It goes on with it.
  pub stored_run :
      (process_id : ℕ) (w : World) (h : ℕ)
      → process_id ≤ u32_max
      → w.store ≡ (state_name, h) ∷ []
      → run_of host process_id w ≡ count_up host (pos 3) (started host process_id w)
  unfolding persistent_file
  stored_run process_id w h small kept =
      let s = started host process_id w in
      let (fd, received, third) = receive_kept process_id w h small kept in
      let fetched : persistent_file host process_id (some (fd, state_name)) s ≡ (ok (pos 3), s) =
        rw (equal_refl state_name) (ap (λ i. (ok i, s)) third) in
      run_with process_id s s (pos 3) _ received fetched

  pub later_run :
      (process_id : ℕ) (w : World) (h b : ℕ) (bs : Bytes)
      → process_id ≤ u32_max
      → b < 255
      → w.store ≡ (state_name, h) ∷ []
      → w.files h ≡ record { content = b ∷ bs; offset = 0 }
      → (v : World) × (run_of host process_id w ≡ finish host (suc b) v)
        × (v.files h ≡ record { content = suc b ∷ bs; offset = 0 })
        × (v.store ≡ (state_name, h) ∷ [])
        × (var notify_key v.env ≡ some works.socket)
  later_run process_id w h b bs small below kept file =
      let s = started host process_id w in
      let (u, counted, (found, same), env, store) =
        count_up-Reaches host works (pos 3) h b bs s below (rw kept (refl), file) in
      (
        u,
        stored_run process_id w h small kept ∙ counted,
        same,
        store ∙ kept,
        ap (var notify_key) env ∙ works.socket_given process_id w.store,
      )

  -- The last notification removes the descriptor.
  pub removed_last :
      (v : World) (h : ℕ)
      → v.store ≡ (state_name, h) ∷ []
      → var notify_key v.env ≡ some works.socket
      → told host (notify host.os false final_state) v ≡ (ok true, record v { store = [] })
  unfolding notify
  removed_last v h kept given =
      let removed : host.manager.handle (bytes (message final_state)) [] v.store ≡ [] =
        works.keeps.removes _ state_name v.store final_assignments
        ∙ ap (keep (λ (e : Str × ℕ). not (equal e.0 state_name))) kept
        ∙ forgotten h in
      told_ok host works final_state [] v initial_IsSendable given
      ∙ ap (λ s. (ok true, record v { store = s })) removed

  -- The last run removes the descriptor.
  pub finish_last :
      (v : World) (h n : ℕ)
      → ltb n 3 ≡ false
      → v.store ≡ (state_name, h) ∷ []
      → var notify_key v.env ≡ some works.socket
      → finish host n v ≡ (ok 0, record v { store = [] })
  unfolding finish
  finish_last v h n last kept given =
      rw last
        (and_then_ok _ (λ _. pure 0) true (record v { store = [] }) (removed_last v h kept given))

  pub service_again :
      (process_id : ℕ) (pids : List ℕ) (w v : World) (out : List ℕ × World)
      → run_of host process_id w ≡ (ok 2, v)
      → service host pids v ≡ some out
      → service host (process_id ∷ pids) w ≡ some (2 ∷ out.0, out.1)
  unfolding service exit_status
  service_again process_id pids w v out again rest = rw (again, rest) refl

  service_done :
      (process_id : ℕ) (pids : List ℕ) (w v : World)
      → run_of host process_id w ≡ (ok 0, v)
      → service host (process_id ∷ pids) w ≡ some (0 ∷ [], v)
  unfolding service exit_status
  service_done process_id pids w v done = rw done refl

  -- On a machine that runs systemd and where no call fails, under a manager that keeps a descriptor
  -- and restarts the program on status 2, the program ends after three runs: from an empty store, and
  -- with numbers of 32 bits for the second and the third process, two runs end with status 2 and the
  -- third with 0, and then the manager keeps nothing.
  pub service-ends :
      (one two three : ℕ) (pids : List ℕ) (w : World)
      → two ≤ u32_max
      → three ≤ u32_max
      → w.store ≡ []
      → (v : World) × (service host (one ∷ two ∷ three ∷ pids) w ≡ some (2 ∷ 2 ∷ 0 ∷ [], v))
        × (v.store ≡ [])
  unfolding finish
  service-ends one two three pids w small2 small3 empty =
      let (w1, run1, file1, store1) = first_run one w empty in
      let (w2, run2, file2, store2, _) =
        later_run two w1 w.next 1 (1 ∷ []) small2 (omega arith) store1 file1 in
      let (w3, run3, file3, store3, given) =
        later_run three w2 w.next 2 (1 ∷ []) small3 (omega arith) store2 file2 in
      let last = service_done three pids w2 _ (run3 ∙ finish_last w3 w.next 3 refl store3 given) in
      (
        record w3 { store = [] },
        service_again one (two ∷ three ∷ pids) w w1 _ run1
            (service_again two (three ∷ pids) w1 w2 _ run2 last),
        refl,
      )
