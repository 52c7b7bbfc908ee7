-- ===== src/Logging/Stream.antt =====
-- `JournalStream` and `connected_to_journal`. The value of a variable is a text, and `fstat` of the
-- standard error is an argument.
pub mod Parsed
use libsystemd_rs.Base.{
  ℕ, Bool, true, false, ◌&&◌, [], ◌∷◌, ◌++◌, Option, none, some, ◌==◌, if◌then◌else◌, Str, codes,
  Result, ok, err, map_ok, ◌>>=◌,
}
use libsystemd_rs.Decimal
use libsystemd_rs.Decimal.{u64_max}
use libsystemd_rs.Env.{Env, var}
use libsystemd_rs.Error.{SdError, context, option_context, int_error_display}
use libsystemd_rs.Os.{OsError}

pub record JournalStream : Type 0 where
  pub device : ℕ
  pub inode : ℕ

-- `s.find(':').map(|i| (&s[..i], &s[i + 1..]))`
unfoldable pub split_colon : Str → Option (Str × Str)
split_colon [] = none
split_colon (c ∷ s) =
    let rest = split_colon s in
    if c == b':'
    then some ([], s)
    else elim rest [ none ↦ none | some (before, behind) ↦ some (c ∷ before, behind) ]

separator_msg : Str → Str
separator_msg s =
    codes "Failed to parse journal stream: Missing separator ':' in value '" ++ (s ++ codes "'")

device_msg : Str → Str
device_msg s =
    codes "Failed to parse journal stream: Device part is not a number '" ++ (s ++ codes "'")

inode_msg : Str → Str
inode_msg s =
    codes "Failed to parse journal stream: Inode part is not a number '" ++ (s ++ codes "'")

-- Both parts are parsed as `u64`, which `dev_t` and `ino_t` are.
unfoldable pub parse : Str → Result SdError JournalStream
unfolding context option_context separator_msg device_msg inode_msg split_colon
parse s = do
  (device_s, inode_s) ← option_context (separator_msg s) (split_colon s)
  device ← context (device_msg device_s) (Decimal.parse u64_max device_s)
  inode ← context (inode_msg inode_s) (Decimal.parse u64_max inode_s)
  ok (record { device = device; inode = inode })

-- The key is shown as `{:?}` shows a text without characters to escape.
unset_msg : Str → Str
unset_msg key =
    codes "Failed to parse journal stream: Environment variable \"" ++ (key ++ codes "\" unset")

unfoldable pub from_env_impl : Str → Env → Result SdError JournalStream
unfolding option_context unset_msg parse
from_env_impl key env = option_context (unset_msg key) (var key env) >>= parse

abbrev pub stream_key : Str
stream_key = codes "JOURNAL_STREAM"

unfoldable pub from_env : Env → Result SdError JournalStream
unfolding from_env_impl
from_env env = from_env_impl stream_key env

-- `==` of `JournalStream`
abbrev pub same_stream : JournalStream → JournalStream → Bool
same_stream a b = a.device == b.device && a.inode == b.inode

-- `map_or(false, ..)` of a result
abbrev pub ok_and {ℓ κ} : {E : Type ℓ} {A : Type κ} → (A → Bool) → Result E A → Bool
ok_and f (ok a) = f a
ok_and f (err e) = false

-- What `fstat` tells of the standard error
pub record FileStat : Type 0 where
  pub st_dev : ℕ
  pub st_ino : ℕ

-- `From<FileStat> for JournalStream`
abbrev pub from_stat : FileStat → JournalStream
from_stat stat = record { device = stat.st_dev; inode = stat.st_ino }

-- `JournalStream::from_fd`, of the answer of `fstat`
unfoldable pub from_fd : Result OsError FileStat → Result OsError JournalStream
from_fd stat = map_ok from_stat stat

unfoldable pub connected_to_journal : Result OsError FileStat → Env → Bool
unfolding from_env from_fd
connected_to_journal stderr env =
    ok_and (λ env_stream. ok_and (λ o. same_stream o env_stream) (from_fd stderr)) (from_env env)
