-- ===== src/Activation/Received.antt =====
-- What a service receives.
use libsystemd_rs.Activation.Descriptor.{try_from, into_raw_fd}
use libsystemd_rs.Activation.Receive.{
  as_i32, add_to_start, descriptor, descriptors_from, socks_from_fds, pid_key, fds_key, names_key,
  listen_fds, listen_env, receive_descriptors, receive_descriptors_with_names, zip,
}
use libsystemd_rs.Activation.System.{System, SocketFd}
use libsystemd_rs.Base.{
  ℕ, zero, suc, ◌+◌, ◌-◌, ◌≤◌, ◌<◌, ◌^◌, ◌==◌, Bool, ◌||◌, ◌&&◌, List, [], ◌∷◌, map, Option, none,
  some, if◌then◌else◌, Str, equal, split, Result, ok, Result-cases, Option-cases, ◌>>=◌, ◌≡◌, ◌↔◌,
  refl, ap, ◌∙◌, inl, inr, >>=-eq-ok, Bool-cases, arith,
}
use libsystemd_rs.Decimal
use libsystemd_rs.Decimal.Signed.{ℤ, pos}
use libsystemd_rs.Decimal.{u32_max, u64_max}
use libsystemd_rs.Env.{Env, var, remove_var, var-remove_var}
use libsystemd_rs.Error.{SdError, context, option_context}

-- The numbers of `n` descriptors from an offset to `SD_LISTEN_FDS_START` on
abbrev pub fds_from : ℕ → ℕ → List ℤ
fds_from offset zero = []
fds_from offset (suc n) = pos (3 + offset) ∷ fds_from (suc offset) n

-- The greatest count whose descriptors are all in the range of `i32`.
abbrev pub max_fds : ℕ
max_fds = 2 ^ 31 - 3

index_iff :
    (n : ℕ)
    → n ≤ max_fds
    → add_to_start (as_i32 n) ≡ (if n == max_fds then none else some (pos (3 + n)))
unfolding as_i32 add_to_start
index_iff n le = ground arith

-- An index that is in range goes to what follows, and one that is not is an error.
index_some {ℓ} :
    {A : Type ℓ} (c : Str) (o : Option ℤ) (i : ℤ) (k : ℤ → Result SdError A)
    → o ≡ some i
    → (option_context c o >>= k) ≡ k i
unfolding option_context
index_some c (some j) i k h = ap k (cc)
index_some c none i k h = cc

index_none {ℓ} :
    {A : Type ℓ} (c : Str) (o : Option ℤ) (k : ℤ → Result SdError A) (a : A)
    → o ≡ none
    → (option_context c o >>= k) ≡ ok a
    → ⊥
unfolding option_context
index_none c none k a h e = cc
index_none c (some j) k a h e = cc

module _ (sys : System) where
  descriptors_in :
      (num_fds n offset : ℕ)
      → offset < max_fds
      → descriptors_from sys num_fds (suc n) offset ≡ (
          descriptors_from sys num_fds n (suc offset) >>= λ rest.
          ok (descriptor sys (pos (3 + offset)) ∷ rest))
  unfolding descriptors_from
  descriptors_in num_fds n offset lt =
      index_some _ (add_to_start (as_i32 offset)) (pos (3 + offset)) _
        (index_iff offset (omega (arith, lt)) ∙ ground arith)

  descriptors_out :
      (num_fds n offset : ℕ) (ds : List SocketFd)
      → offset ≡ max_fds
      → descriptors_from sys num_fds (suc n) offset ≡ ok ds
      → ⊥
  unfolding descriptors_from
  descriptors_out num_fds n offset ds same =
      index_none _ (add_to_start (as_i32 offset)) _ ds
        (index_iff offset (omega (arith, same)) ∙ ground arith)

  descriptors_from_iff :
      (num_fds n offset : ℕ) (ds : List SocketFd)
      → offset ≤ max_fds
      → (descriptors_from sys num_fds n offset ≡ ok ds)
        ↔ ((offset + n ≤ max_fds) × (ds ≡ map (descriptor sys) (fds_from offset n)))
  unfolding descriptors_from
  descriptors_from_iff num_fds zero offset ds le = ground arith
  descriptors_from_iff num_fds (suc n) offset ds le = elim (Bool-cases (offset == max_fds)) [
    | inl last ↦ (
      λ h. absurd (descriptors_out num_fds n offset ds (ground (arith, last)) h),
      λ (h, _). absurd (ground (arith, last)),
    )
    | inr before ↦ rw (descriptors_in num_fds n offset (ground (arith, before))) (
      λ h.
          let (rest, good, same) = >>=-eq-ok (descriptors_from sys num_fds n (suc offset)) _ h in
          let (fits, these) =
            (descriptors_from_iff num_fds n (suc offset) rest (ground (arith, before))).0 good in
          (omega arith, cc),
      λ (fits, same).
          let good =
            (descriptors_from_iff num_fds n (suc offset)
                (map (descriptor sys) (fds_from (suc offset) n)) (ground (arith, before))).1
              (omega arith, refl) in
          rw good (cc),
    )
  ]

  -- The count decides alone: every descriptor from 3 on is returned in order, up to a count of
  -- 2^31 - 3, and a greater count is refused.
  pub socks_from_fds_iff :
      (num_fds : ℕ) (ds : List SocketFd)
      → (socks_from_fds sys num_fds ≡ ok ds)
        ↔ ((num_fds ≤ max_fds) × (ds ≡ map (descriptor sys) (fds_from 0 num_fds)))
  unfolding socks_from_fds
  socks_from_fds_iff num_fds ds =
      ground (arith, descriptors_from_iff num_fds num_fds 0 ds (omega arith))

  into_raw_fd-descriptor : (fd : ℤ) → into_raw_fd (descriptor sys fd) ≡ fd
  unfolding descriptor try_from into_raw_fd
  into_raw_fd-descriptor fd = ground arith

  pub numbers_kept : (fds : List ℤ) → map into_raw_fd (map (descriptor sys) fds) ≡ fds
  numbers_kept [] = refl
  numbers_kept (fd ∷ fds) = simp (into_raw_fd-descriptor fd, numbers_kept fds)

  -- What the environment promises to this process: its number in LISTEN_PID and a count in
  -- LISTEN_FDS.
  abbrev pub IsListening : ℕ → Env → ℕ → Type 0
  IsListening process_id env num_fds =
      (pid : Str) × (fds : Str) × (var pid_key env ≡ some pid)
      × (Decimal.parse u32_max pid ≡ ok process_id)
      × (var fds_key env ≡ some fds)
      × (Decimal.parse u64_max fds ≡ ok num_fds)

  listen_fds_iff :
      (process_id : ℕ) (env : Env) (num_fds : ℕ)
      → (listen_fds process_id (var pid_key env) (var fds_key env) ≡ ok num_fds)
        ↔ IsListening process_id env num_fds
  unfolding listen_fds context
  listen_fds_iff process_id env num_fds = elim (Option-cases (var pid_key env)) [
    | inl unset ↦ ground (arith, unset)
    | inr (pid, set_pid) ↦ elim (Option-cases (var fds_key env)) [
      | inl unset ↦ ground (arith, set_pid, unset, Result-cases (Decimal.parse u32_max pid))
      | inr (fds, set_fds) ↦ ground (
        arith,
        set_pid,
        set_fds,
        Result-cases (Decimal.parse u32_max pid),
        Result-cases (Decimal.parse u64_max fds),
      )
    ]
  ]

  -- The descriptors are received exactly if LISTEN_PID is the number of this process and LISTEN_FDS a
  -- count of at most 2^31 - 3: then they are the descriptors from 3 on, in order.
  pub receive_descriptors_iff :
      (process_id : ℕ) (unset_env : Bool) (env : Env) (ds : List SocketFd)
      → ((receive_descriptors sys process_id unset_env env).0 ≡ ok ds) ↔ (
          (num_fds : ℕ) × IsListening process_id env num_fds
          × (num_fds ≤ max_fds)
          × (ds ≡ map (descriptor sys) (fds_from 0 num_fds)))
  unfolding receive_descriptors
  receive_descriptors_iff process_id unset_env env ds = (
    λ h.
        let (n, good, all) =
          >>=-eq-ok (listen_fds process_id (var pid_key env) (var fds_key env)) _ h in
        let (fits, same) = (socks_from_fds_iff n ds).0 all in
        (n, (listen_fds_iff process_id env n).0 good, fits, same),
    λ (n, listening, fits, same).
        rw ((listen_fds_iff process_id env n).1 listening)
          ((socks_from_fds_iff n ds).1 (fits, same)),
  )

  -- With names, the call succeeds exactly if the one without does and LISTEN_FDNAMES is set; then
  -- each descriptor comes with the part of LISTEN_FDNAMES at its place, as far as both reach.
  pub receive_descriptors_with_names_iff :
      (process_id : ℕ) (unset_env : Bool) (env : Env) (out : List (SocketFd × Str))
      → ((receive_descriptors_with_names sys process_id unset_env env).0 ≡ ok out) ↔ (
          (ds : List SocketFd) × (names : Str) × ((receive_descriptors sys process_id unset_env
              env).0
            ≡ ok ds)
          × (var names_key env ≡ some names)
          × (out ≡ zip ds (split b':' names)))
  unfolding receive_descriptors receive_descriptors_with_names context
  receive_descriptors_with_names_iff process_id unset_env env out =
      elim (Result-cases (listen_fds process_id (var pid_key env) (var fds_key env))) [
        | inl (e, bad) ↦ ground (arith, bad)
        | inr (n, good) ↦ elim (Option-cases (var names_key env)) [
          | inl unset ↦ ground (arith, good, unset)
          | inr (names, set) ↦ elim (Result-cases (socks_from_fds sys n)) [
            | inl (e, bad) ↦ ground (arith, good, set, bad)
            | inr (ds, fits) ↦ (
              λ h. (ds, names, ground (arith, good, fits), set, ground (arith, good, set, fits, h)),
              λ (x, y, one, two, three). ground (arith, good, set, fits),
            )
          ]
        ]
      ]

  -- Whatever is returned, the call unsets the three variables if it is asked to, and leaves every
  -- other variable as it is.
  pub receive_descriptors-var :
      (process_id : ℕ) (unset_env : Bool) (env : Env) (key : Str)
      → var key (receive_descriptors sys process_id unset_env env).1 ≡ (
          if unset_env && (equal pid_key key || (equal fds_key key || equal names_key key))
          then none
          else var key env)
  unfolding receive_descriptors listen_env
  receive_descriptors-var process_id unset_env env key = ground (
    arith,
    var-remove_var names_key key (remove_var fds_key (remove_var pid_key env)),
    var-remove_var fds_key key (remove_var pid_key env),
    var-remove_var pid_key key env,
  )
