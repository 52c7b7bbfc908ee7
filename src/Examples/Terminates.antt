-- ===== src/Examples/Terminates.antt =====
-- The restarts of examples/persistent_state.rs from any state that the manager keeps.
use libsystemd_rs.Base.{
  ℕ, zero, suc, ◌-◌, ◌<◌, ◌≤◌, true, false, List, [], ◌∷◌, ◌==◌, ltb, if◌then◌else◌, length, All,
  some, Bytes, Result, ok, err, ◌≡◌, refl, ◌∙◌, arith, Bool-cases, inl, inr,
}
use libsystemd_rs.Decimal.Signed.{ℤ, pos}
use libsystemd_rs.Decimal.{u32_max}
use libsystemd_rs.Examples.Counting.{Reaches, and_then-Reaches, changed-Reaches}
use libsystemd_rs.Examples.Machine.{OpenFile, Host, World, Failure, overflow, rewound, fail}
use libsystemd_rs.Examples.Open.{IsOpen, read_byte-Leaves}
use libsystemd_rs.Examples.PersistentState.{state_name, finish, count_up, exit_status}
use libsystemd_rs.Examples.Restarts.{stored_run, later_run, finish_last, service_again}
use libsystemd_rs.Examples.Supervised.{Works, started, run_of, service}

-- The status of the last run, from a state with a given first byte
abbrev pub last_status : ℕ → ℕ
last_status b = if b == 255 then 101 else 0

-- The statuses of all runs: a byte below two is counted up to two before.
abbrev pub statuses : ℕ → List ℕ
statuses zero = 2 ∷ 2 ∷ 0 ∷ []
statuses (suc zero) = 2 ∷ 0 ∷ []
statuses b = last_status b ∷ []

module _ {Addr : Type 0} (host : Host Addr) (works : Works host) where
  -- A byte that has no successor stops the run at the addition, and what is stored stays.
  count_up-overflow :
      (fd : ℤ) (h : ℕ) (bs : Bytes) (w : World)
      → IsOpen fd h (record { content = 255 ∷ bs; offset = 0 }) w
      → Reaches fd h
          (record { content = 255 ∷ bs; offset = 0 })
          w
          (fail overflow)
          (count_up host fd w)
  unfolding count_up
  count_up-overflow fd h bs w is_open =
      let back : OpenFile → OpenFile = λ f. record { content = f.content; offset = 0 } in
      and_then-Reaches fd h _ _ w 255 _ _ _
        (read_byte-Leaves host works.no_failure fd h 255 bs w is_open)
        (λ w1 open1.
          changed-Reaches host works (rewound fd) fd back h _ _ w1 _ _ open1
            (λ w2 open2. (w2, refl, open2, refl, refl)))

  service_last :
      (process_id status : ℕ) (pids : List ℕ) (w v : World) (r : Result Failure ℕ)
      → run_of host process_id w ≡ (r, v)
      → exit_status r ≡ status
      → (status == 2) ≡ false
      → service host (process_id ∷ pids) w ≡ some (status ∷ [], v)
  unfolding service
  service_last process_id status pids w v r ran is last = rw (ran, is, last) refl

  -- A state that the manager keeps: the open file and its bytes
  abbrev pub IsKept : ℕ → Bytes → World → Type 0
  IsKept h bs w =
      (w.store ≡ (state_name, h) ∷ []) × (w.files h ≡ record { content = bs; offset = 0 })

  last_run :
      (process_id : ℕ) (pids : List ℕ) (w : World) (h b : ℕ) (bs : Bytes)
      → process_id ≤ u32_max
      → ltb (suc b) 3 ≡ false
      → b ≤ 255
      → IsKept h (b ∷ bs) w
      → (v : World) × (service host (process_id ∷ pids) w ≡ some (last_status b ∷ [], v))
        × (v.store ≡ (if b == 255 then (state_name, h) ∷ [] else []))
  last_run process_id pids w h b bs small enough byte (kept, file) = elim (Bool-cases (b == 255)) [
    | inl full ↦
        let is_255 : b ≡ 255 = ground arith in
        let s = started host process_id w in
        let content : w.files h ≡ record { content = 255 ∷ bs; offset = 0 } = rw (← is_255) file in
        let (u, stopped, is_open, env, store) =
          count_up-overflow (pos 3) h bs s (rw kept (refl), content) in
        rw full (
          u,
          service_last process_id 101 pids w u (err overflow)
              (stored_run host works process_id w h small kept ∙ stopped)
              (unfold exit_status in refl) refl,
          store ∙ kept,
        )
    | inr below ↦
        let less : b < 255 = ground arith in
        let (v, ran, same, store, given) =
          later_run host works process_id w h b bs small less kept file in
        rw below (
          record v { store = [] },
          service_last process_id 0 pids w (record v { store = [] }) (ok 0)
              (ran ∙ finish_last host works v h (suc b) enough store given)
              (unfold exit_status in refl) refl,
          refl,
        )
  ]

  service_again_at :
      (process_id : ℕ) (pids : List ℕ) (w : World) (h b : ℕ) (bs : Bytes)
      → process_id ≤ u32_max
      → ltb (suc b) 3 ≡ true
      → IsKept h (b ∷ bs) w
      → (v : World) × (run_of host process_id w ≡ (ok 2, v)) × IsKept h (suc b ∷ bs) v
  unfolding finish
  service_again_at process_id pids w h b bs small less (kept, file) =
      let below : b < 255 = ground arith in
      let (v, ran, same, store, _) =
        later_run host works process_id w h b bs small below kept file in
      (v, rw less at ran, (store, same))

  -- On a machine with systemd where no call fails, under a manager that restarts the program on status
  -- 2, the service ends from any state file that the manager keeps, whatever bytes it holds behind a
  -- first byte b of at most 255, if more than 2 - b process numbers of 32 bits are given: with the
  -- statuses that `statuses` lists, and nothing kept, or the file still kept where b is 255.
  pub service-terminates :
      (pids : List ℕ) (w : World) (h b : ℕ) (bs : Bytes)
      → All (λ process_id. process_id ≤ u32_max) pids
      → 2 - b < length pids
      → b ≤ 255
      → IsKept h (b ∷ bs) w
      → (v : World) × (service host pids w ≡ some (statuses b, v))
        × (v.store ≡ (if b == 255 then (state_name, h) ∷ [] else []))
  service-terminates [] w h b bs small many byte kept = absurd (omega arith)
  service-terminates (p ∷ pids) w h zero bs (small, rest) many byte kept =
      let (v, ran, kept') = service_again_at p pids w h 0 bs small refl kept in
      let (u, ends, store) =
        service-terminates pids v h 1 bs rest (omega arith) (omega arith) kept' in
      (u, service_again host works p pids w v _ ran ends, store)
  service-terminates (p ∷ pids) w h (suc zero) bs (small, rest) many byte kept =
      let (v, ran, kept') = service_again_at p pids w h 1 bs small refl kept in
      let (u, ends, store) =
        service-terminates pids v h 2 bs rest (omega arith) (omega arith) kept' in
      (u, service_again host works p pids w v _ ran ends, store)
  service-terminates (p ∷ pids) w h (suc (suc b)) bs (small, rest) many byte kept =
      last_run p pids w h (suc (suc b)) bs small (ground arith) byte kept
