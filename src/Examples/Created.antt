-- ===== src/Examples/Created.antt =====
-- How a run of examples/persistent_state.rs gets at its state file.
use libsystemd_rs.Activation.Descriptor.{into_raw_fd}
use libsystemd_rs.Activation.Names.{Passes, receive_descriptors_with_names-names}
use libsystemd_rs.Activation.Receive.{pid_key, receive_descriptors_with_names}
use libsystemd_rs.Activation.System.{SocketFd}
use libsystemd_rs.Base.{
  ℕ, suc, ◌+◌, ◌≤◌, ◌==◌, true, false, List, [], ◌∷◌, All, map, none, some, if◌then◌else◌, Str,
  Bytes, split, bytes, codes, ok, ◌≡◌, refl, ap, ◌∙◌, arith,
}
use libsystemd_rs.Daemon.Fdname.{validate_fdname, validate_fdname_iff}
use libsystemd_rs.Daemon.Notify.Lines.{assignments, assigns}
use libsystemd_rs.Daemon.Notify.Sent.{IsSendable}
use libsystemd_rs.Daemon.Notify.{notify_key, notify_with_fds}
use libsystemd_rs.Daemon.State.{message, display}
use libsystemd_rs.Decimal.Signed.{ℤ, pos, negsuc, same_int}
use libsystemd_rs.Decimal.{u32_max}
use libsystemd_rs.Env.{var}
use libsystemd_rs.Examples.Counting.{Reaches, changed-Reaches, told_ok}
use libsystemd_rs.Examples.Machine.{
  set_len, write_all, rewind, OpenFile, Host, World, Run, ◌>>=◌, ◌>>◌, pure, call, opened_by,
  opened, removed, resized, wrote, rewound, resize, overwrite, open_file, told,
}
use libsystemd_rs.Examples.Open.{IsOpen, and_then_ok, call_ok}
use libsystemd_rs.Examples.PersistentState.{
  state_name, state_path, initial_state, create_and_store_persistent_state, receive, or_empty,
}
use libsystemd_rs.Examples.Supervised.{Works}

pub same_int_refl : (i : ℤ) → same_int i i ≡ true
same_int_refl (pos n) = ground arith
same_int_refl (negsuc n) = ground arith

-- Two bytes at the start of a file of two bytes are all that it holds.
two_bytes : (x y : ℕ) (bs : Bytes) → overwrite 0 (x ∷ y ∷ []) (resize 2 bs) ≡ x ∷ y ∷ []
two_bytes x y [] = refl
two_bytes x y (b ∷ []) = refl
two_bytes x y (b ∷ c ∷ bs) = refl

pub state_name_ok : validate_fdname state_name ≡ ok tt
unfolding validate_fdname bytes
state_name_ok = refl

initial_assignments :
    assignments (bytes (message initial_state))
    ≡ (codes "FDNAME", state_name) ∷ (codes "FDSTORE", codes "1") ∷ []
unfolding assignments assigns message display bytes split
initial_assignments = refl

-- One name and one number are of one descriptor.
one_descriptor :
    (name : Str) (i : ℤ) (out : List (SocketFd × Str))
    → map (λ p. p.1) out ≡ name ∷ []
    → map (λ p. into_raw_fd p.0) out ≡ i ∷ []
    → (fd : SocketFd) × (out ≡ (fd, name) ∷ []) × (into_raw_fd fd ≡ i)
one_descriptor name i [] names numbers = absurd (cc names)
one_descriptor name i ((fd, n) ∷ []) names numbers = (fd, cc names, cc numbers)
one_descriptor name i (x ∷ y ∷ out) names numbers = absurd (cc names)

opened_by-first :
    (fd : ℤ) (h : ℕ) (table : List (ℤ × ℕ)) → opened_by ((fd, h) ∷ table) (fd ∷ []) ≡ h ∷ []
opened_by-first fd h table = rw (same_int_refl fd, opened_by) refl

pub initial_IsSendable : All IsSendable initial_state
initial_IsSendable = ((validate_fdname_iff state_name).0 state_name_ok, (tt, tt))

module _ {Addr : Type 0} (host : Host Addr) (process_id : ℕ) where
  receive_ok :
      (w : World) (out : List (SocketFd × Str))
      → (receive_descriptors_with_names host.system process_id false w.env).0 ≡ ok out
      → receive host process_id w ≡ (ok out, w)
  unfolding receive_descriptors_with_names
  receive_ok w out h = ap (λ r. (ok (or_empty r), w)) h

  pub receive-none : (w : World) → var pid_key w.env ≡ none → receive host process_id w ≡ (ok [], w)
  unfolding receive_descriptors_with_names
  receive-none w unset = rw unset refl

  -- A process that is passed the state file alone receives it as descriptor 3.
  pub receive_state :
      (w : World)
      → process_id ≤ u32_max
      → Passes process_id (state_name ∷ []) w.env
      → (fd : SocketFd) × (receive host process_id w ≡ (ok ((fd, state_name) ∷ []), w))
        × (into_raw_fd fd ≡ pos 3)
  receive_state w small passes =
      let (out, good, names, numbers) =
        receive_descriptors_with_names-names host.system process_id false w.env state_name [] small
          (omega arith) (state_name_ok, tt) passes in
      let (fd, single, third) = one_descriptor state_name (pos 3) out names numbers in
      (fd, receive_ok w out good ∙ ap (λ ds. (ok ds, w)) single, third)

  pub opened_world : World → World
  opened_world w = record w {
    files = λ k.
        if k == w.next
        then record { content = host.content_at (state_path process_id); offset = 0 }
        else w.files k;
    next = suc w.next;
    table = (host.free_fd w.table, w.next) ∷ w.table;
  }

  module _ (works : Works host) where
    open_ok :
        (w : World)
        → open_file host (state_path process_id) w ≡ (ok (host.free_fd w.table), opened_world w)
    unfolding opened_world
    open_ok w =
        and_then_ok _ _ tt w (call_ok host works.no_failure (opened (state_path process_id)) w)

    -- The manager is sent the open file, and keeps it.
    stored_ok :
        (w : World)
        → w.store ≡ []
        → var notify_key w.env ≡ some works.socket
        → told host
            (notify_with_fds host.os false initial_state (host.free_fd w.table ∷ []))
            (opened_world w)
          ≡ (ok true, record (opened_world w) { store = (state_name, w.next) ∷ [] })
    unfolding opened_world
    stored_ok w empty given =
        let fd = host.free_fd w.table in
        let v = opened_world w in
        let kept : host.manager.handle (bytes (message initial_state)) (opened_by v.table (fd ∷ []))
              w.store
            ≡ (state_name, w.next) ∷ [] =
          rw (opened_by-first fd w.next w.table, empty)
            (works.keeps.stores _ state_name w.next initial_assignments) in
        told_ok host works initial_state (fd ∷ []) v (initial_IsSendable) given
        ∙ ap (λ s. (ok true, record v { store = s })) kept

    -- The world once the manager keeps the new file
    abbrev pub kept_world : World → World
    kept_world w = record (opened_world w) { store = (state_name, w.next) ∷ [] }

    pub kept_world-IsOpen :
        (w : World)
        → IsOpen
            (host.free_fd w.table)
            w.next
            (record { content = host.content_at (state_path process_id); offset = 0 })
            (kept_world w)
    unfolding opened_world
    kept_world-IsOpen w = (rw (same_int_refl (host.free_fd w.table)) refl, ground arith)

    -- A new file is opened, removed and sent to the manager, before what follows.
    pub stored_then :
        {B : Type 0} (w : World) (k : ℤ → Run B)
        → w.store ≡ []
        → var notify_key w.env ≡ some works.socket
        → (do
          f ← open_file host (state_path process_id)
          call host (removed (state_path process_id))
          told host (notify_with_fds host.os false initial_state (f ∷ []))
          k f)
            w
          ≡ k (host.free_fd w.table) (kept_world w)
    stored_then w k empty given =
        let fd = host.free_fd w.table in
        let w1 = opened_world w in
        and_then_ok _ _ fd w1 (open_ok w)
        ∙ and_then_ok _ _ tt w1 (call_ok host works.no_failure (removed (state_path process_id)) w1)
        ∙ and_then_ok _ _ true (kept_world w) (stored_ok w empty given)

    written :
        (w : World) (fd : ℤ) (h : ℕ) (bs : Bytes)
        → IsOpen fd h (record { content = bs; offset = 0 }) w
        → Reaches fd h
            (record { content = 0 ∷ 1 ∷ []; offset = 0 })
            w
            (pure fd)
            ((set_len host fd 2 >> (write_all host fd (0 ∷ 1 ∷ []) >> (rewind host fd >> pure fd)))
              w)
    written w fd h bs is_open =
        let resized_to : OpenFile → OpenFile =
          λ f. record { content = resize 2 f.content; offset = f.offset } in
        let put : OpenFile → OpenFile = λ f. record {
          content = overwrite f.offset (0 ∷ 1 ∷ []) f.content;
          offset = f.offset + 2;
        } in
        let back : OpenFile → OpenFile = λ f. record { content = f.content; offset = 0 } in
        changed-Reaches host works (resized fd) fd resized_to h _ _ w _ _ is_open (λ w1 open1.
          changed-Reaches host works (wrote fd) fd put h _ _ w1 _ _ open1 (λ w2 open2.
            changed-Reaches host works (rewound fd) fd back h _ _ w2 _ _ open2
              (λ w3 open3. (w3, refl, rw (← two_bytes 0 1 bs) open3, refl, refl))))

    -- A new state file holds the bytes 0 and 1, and the manager keeps it.
    pub create_ok :
        (w : World)
        → w.store ≡ []
        → var notify_key w.env ≡ some works.socket
        → (v : World) × (create_and_store_persistent_state host process_id w
            ≡ (ok (host.free_fd w.table), v))
          × IsOpen (host.free_fd w.table) w.next (record { content = 0 ∷ 1 ∷ []; offset = 0 }) v
          × (v.env ≡ w.env)
          × (v.store ≡ (state_name, w.next) ∷ [])
    unfolding create_and_store_persistent_state opened_world
    create_ok w empty given =
        let fd = host.free_fd w.table in
        let (v, going, is_open, env, store) =
          written (kept_world w) fd w.next (host.content_at (state_path process_id))
            (kept_world-IsOpen w) in
        (
          v,
          stored_then w
                (λ f.
                  set_len host f 2 >> (write_all host f (0 ∷ 1 ∷ []) >> (rewind host f >> pure f)))
                empty given
              ∙ going,
          is_open,
          env,
          store,
        )
