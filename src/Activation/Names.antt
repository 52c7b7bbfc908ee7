-- ===== src/Activation/Names.antt =====
-- The names of stored descriptors: what src/daemon.rs lets a service give, src/activation.rs gives back.
use libsystemd_rs.Activation.Descriptor.{into_raw_fd}
use libsystemd_rs.Activation.Receive.{
  pid_key, fds_key, names_key, descriptor, receive_descriptors_with_names, zip,
}
use libsystemd_rs.Activation.Received.{
  IsListening, fds_from, max_fds, receive_descriptors_iff, receive_descriptors_with_names_iff,
  numbers_kept,
}
use libsystemd_rs.Activation.System.{System, SocketFd}
use libsystemd_rs.Base.{
  ℕ, zero, suc, ◌≤◌, Bool, List, [], ◌∷◌, ◌++◌, map, length, some, Str, split, split_one,
  split_first, sym, Lacks, All, All-map, ok, ◌≡◌, refl, ap, ◌∙◌, arith,
}
use libsystemd_rs.Daemon.Fdname.{validate_fdname, validate_fdname_iff}
use libsystemd_rs.Decimal
use libsystemd_rs.Decimal.RoundTrip.{parse-display}
use libsystemd_rs.Decimal.{u32_max, u64_max}
use libsystemd_rs.Env.{Env, var}

-- Names with a colon between two, as LISTEN_FDNAMES has them.
abbrev pub join_names : List Str → Str
join_names [] = []
join_names (name ∷ []) = name
join_names (name ∷ other ∷ names) = name ++ b':' ∷ join_names (other ∷ names)

-- What sd_listen_fds(3) says of the environment of a process that is passed named descriptors.
pub record Passes (process_id : ℕ) (names : List Str) (env : Env) : Type 0 where
  pub pid_is : var pid_key env ≡ some (Decimal.display process_id)
  pub count_is : var fds_key env ≡ some (Decimal.display (length names))
  pub names_are : var names_key env ≡ some (join_names names)

fdname-Lacks : (name : Str) → validate_fdname name ≡ ok tt → Lacks b':' name
fdname-Lacks name h =
    All-map name (λ c (_, _, no_colon). no_colon) ((validate_fdname_iff name).0 h).0

split-join_names :
    (name : Str) (names : List Str)
    → All (Lacks b':') (name ∷ names)
    → split b':' (join_names (name ∷ names)) ≡ name ∷ names
split-join_names name [] (h, _) = split_one b':' name h
split-join_names name (other ∷ names) (h, hs) =
    split_first b':' name (join_names (other ∷ names)) h
    ∙ ap (◌∷◌ name) (split-join_names other names hs)

zip-seconds {ℓ κ} :
    {A : Type ℓ} {B : Type κ} (xs : List A) (bs : List B)
    → length xs ≡ length bs
    → map (λ p. p.1) (zip xs bs) ≡ bs
zip-seconds [] [] h = refl
zip-seconds [] (b ∷ bs) h = absurd (omega arith)
zip-seconds (a ∷ xs) [] h = absurd (omega arith)
zip-seconds (a ∷ xs) (b ∷ bs) h = ap (◌∷◌ b) (zip-seconds xs bs (omega arith))

zip-firsts {ℓ κ ι} :
    {A : Type ℓ} {B : Type κ} {C : Type ι} (f : A → C) (xs : List A) (bs : List B)
    → length xs ≡ length bs
    → map (λ p. f p.0) (zip xs bs) ≡ map f xs
zip-firsts f [] [] h = refl
zip-firsts f [] (b ∷ bs) h = refl
zip-firsts f (a ∷ xs) [] h = absurd (omega arith)
zip-firsts f (a ∷ xs) (b ∷ bs) h = ap (◌∷◌ (f a)) (zip-firsts f xs bs (omega arith))

length-map {ℓ κ} :
    {A : Type ℓ} {B : Type κ} (f : A → B) (xs : List A) → length (map f xs) ≡ length xs
length-map f [] = refl
length-map f (x ∷ xs) = ap suc (length-map f xs)

length-fds_from : (offset n : ℕ) → length (fds_from offset n) ≡ n
length-fds_from offset zero = refl
length-fds_from offset (suc n) = ap suc (length-fds_from (suc offset) n)

names-Lacks :
    (names : List Str) → All (λ name. validate_fdname name ≡ ok tt) names → All (Lacks b':') names
names-Lacks names h = All-map names fdname-Lacks h

module _ (sys : System) where
  -- When a process whose number has 32 bits is passed as many descriptors as there are names, at
  -- least one and at most 2^31 - 3, and each name is one that `validate_fdname` accepts,
  -- `receive_descriptors_with_names` succeeds: it returns those names in order, with the descriptors
  -- numbered from 3 on.
  pub receive_descriptors_with_names-names :
      (process_id : ℕ) (unset_env : Bool) (env : Env) (name : Str) (names : List Str)
      → process_id ≤ u32_max
      → length (name ∷ names) ≤ max_fds
      → All (λ name. validate_fdname name ≡ ok tt) (name ∷ names)
      → Passes process_id (name ∷ names) env
      → (out : List (SocketFd × Str)) × ((receive_descriptors_with_names sys process_id unset_env
            env).0
          ≡ ok out)
        × (map (λ p. p.1) out ≡ name ∷ names)
        × (map (λ p. into_raw_fd p.0) out ≡ fds_from 0 (length (name ∷ names)))
  receive_descriptors_with_names-names process_id unset_env env name names small few valid passes =
      let all = name ∷ names in
      let ds = map (descriptor sys) (fds_from 0 (length all)) in
      let count : length ds ≡ length all =
        length-map (descriptor sys) (fds_from 0 (length all)) ∙ length-fds_from 0 (length all) in
      let listening : IsListening sys process_id env (length all) = (
        Decimal.display process_id,
        Decimal.display (length all),
        passes.pid_is,
        parse-display u32_max process_id small,
        passes.count_is,
        parse-display u64_max (length all) (omega (arith, few)),
      ) in
      let received =
        (receive_descriptors_iff sys process_id unset_env env ds).1
          (length all, listening, few, refl) in
      let places = split-join_names name names (names-Lacks all valid) in
      let named =
        (receive_descriptors_with_names_iff sys process_id unset_env env (zip ds all)).1
          (ds, join_names all, received, passes.names_are, ap (zip ds) (sym places)) in
      (
        zip ds all,
        named,
        zip-seconds ds all count,
        zip-firsts into_raw_fd ds all count ∙ numbers_kept sys (fds_from 0 (length all)),
      )
