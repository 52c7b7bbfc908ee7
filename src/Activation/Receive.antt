-- ===== src/Activation/Receive.antt =====
-- `socks_from_fds`, `receive_descriptors` and `receive_descriptors_with_names`.
use libsystemd_rs.Base.{
  ℕ, zero, suc, ◌+◌, ◌-◌, ◌%◌, ◌^◌, Bool, not, List, [], ◌∷◌, ◌++◌, Option, none, some, ltb, ◌==◌,
  if◌then◌else◌, Str, codes, split, Result, ok, err, ◌>>=◌,
}
use libsystemd_rs.Activation.Descriptor.{try_from}
use libsystemd_rs.Activation.System.{System, SocketFd, unknown}
use libsystemd_rs.Decimal
use libsystemd_rs.Decimal.Signed.{ℤ, pos, negsuc}
use libsystemd_rs.Decimal.{u32_max, u64_max}
use libsystemd_rs.Env.{Env, var, remove_var}
use libsystemd_rs.Error.{
  Display, SdError, from_str, context, option_context, sd_error_display, int_error_display,
}

-- `fd_offset as i32` of a `usize`
unfoldable pub as_i32 : ℕ → ℤ
as_i32 n = let low = n % 2 ^ 32 in if ltb low (2 ^ 31) then pos low else negsuc (2 ^ 32 - 1 - low)

-- `SD_LISTEN_FDS_START.checked_add(..)`
unfoldable pub add_to_start : ℤ → Option ℤ
add_to_start (pos n) = if ltb (n + 3) (2 ^ 31) then some (pos (3 + n)) else none
add_to_start (negsuc n) = if ltb n 3 then some (pos (2 - n)) else some (negsuc (n - 3))

overlarge_msg : ℕ → Str
overlarge_msg num_fds = codes "overlarge file descriptor index: " ++ Decimal.display num_fds

-- `std::env::VarError::NotPresent`; an environment of texts has no value that is `NotUnicode`.
pub data VarError : Type 0 where
  not_present : VarError

instance abbrev pub var_error_display : Display VarError
var_error_display = record { to_string = λ _. codes "environment variable not found" }

-- `env::var` as the result that it is
abbrev pub var_result : Option Str → Result VarError Str
var_result none = err not_present
var_result (some s) = ok s

abbrev pub pid_key : Str
pid_key = codes "LISTEN_PID"

abbrev pub fds_key : Str
fds_key = codes "LISTEN_FDS"

abbrev pub names_key : Str
names_key = codes "LISTEN_FDNAMES"

-- The number of descriptors, after the checks that both functions make.
unfoldable pub listen_fds : ℕ → Option Str → Option Str → Result SdError ℕ
unfolding from_str context
listen_fds process_id pid fds = do
  pid_str ← context (codes "failed to get LISTEN_PID") (var_result pid)
  pid_num ← context (codes "failed to parse LISTEN_PID") (Decimal.parse u32_max pid_str)
  fds_str ← context (codes "failed to get LISTEN_FDS") (var_result fds)
  fds_num ← context (codes "failed to parse LISTEN_FDS") (Decimal.parse u64_max fds_str)
  if not (process_id == pid_num) then err (from_str (codes "PID mismatch")) else ok fds_num

unfoldable pub listen_env : Bool → Env → Env
listen_env unset_env env =
    if unset_env then remove_var names_key (remove_var fds_key (remove_var pid_key env)) else env

-- `Iterator::zip`
abbrev pub zip {ℓ κ} : {A : Type ℓ} {B : Type κ} → List A → List B → List (A × B)
zip [] bs = []
zip (a ∷ rest) [] = []
zip (a ∷ rest) (b ∷ bs) = (a, b) ∷ zip rest bs

module _ (sys : System) where
  or_unknown : Result (SdError × ℤ) SocketFd → SocketFd
  or_unknown (ok fd) = fd
  or_unknown (err (msg, val)) = unknown val

  -- `FileDescriptor::try_from(index).unwrap_or_else(..)`
  unfoldable pub descriptor : ℤ → SocketFd
  unfolding or_unknown
  descriptor index = or_unknown (try_from sys index)

  -- The last `n` rounds of the loop, from an offset on
  unfoldable pub descriptors_from : ℕ → ℕ → ℕ → Result SdError (List SocketFd)
  unfolding option_context overlarge_msg as_i32 add_to_start descriptor
  descriptors_from num_fds zero fd_offset = ok []
  descriptors_from num_fds (suc n) fd_offset = do
    index ← option_context (overlarge_msg num_fds) (add_to_start (as_i32 fd_offset))
    rest ← descriptors_from num_fds n (suc fd_offset)
    ok (descriptor index ∷ rest)

  unfoldable pub socks_from_fds : ℕ → Result SdError (List SocketFd)
  unfolding descriptors_from
  socks_from_fds num_fds = descriptors_from num_fds num_fds 0

  -- Each returns the result and the environment that it leaves.
  unfoldable pub receive_descriptors : ℕ → Bool → Env → Result SdError (List SocketFd) × Env
  unfolding listen_fds listen_env socks_from_fds
  receive_descriptors process_id unset_env env =
      let pid = var pid_key env in
      let fds = var fds_key env in
      (listen_fds process_id pid fds >>= socks_from_fds, listen_env unset_env env)

  named : Option Str → ℕ → Result SdError (List (SocketFd × Str))
  unfolding context socks_from_fds
  named fdnames fds = do
    names ← context (codes "failed to get LISTEN_FDNAMES") (var_result fdnames)
    vec ← context (codes "failed to get sockets from file descriptor") (socks_from_fds fds)
    ok (zip vec (split b':' names))

  unfoldable pub receive_descriptors_with_names :
      ℕ → Bool → Env → Result SdError (List (SocketFd × Str)) × Env
  unfolding listen_fds listen_env named
  receive_descriptors_with_names process_id unset_env env =
      let pid = var pid_key env in
      let fds = var fds_key env in
      let fdnames = var names_key env in
      (listen_fds process_id pid fds >>= named fdnames, listen_env unset_env env)
