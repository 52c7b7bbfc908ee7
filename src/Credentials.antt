-- ===== src/Credentials.antt =====
-- src/credentials.rs: the credentials of a unit. The file system is a parameter; a path is a text, and
-- an open file is its descriptor. The descriptor of the directory that the loader keeps is never read.
pub mod Directory
use libsystemd_rs.Base.{
  Bool, true, false, List, [], ◌∷◌, ◌++◌, Option, none, some, ◌==◌, if◌then◌else◌, contains,
  starts_with, Str, codes, Result, ok, err, ◌>>=◌, map_err,
}
use libsystemd_rs.Decimal.Signed.{ℤ}
use libsystemd_rs.Env.{Env, var}
use libsystemd_rs.Error.{SdError, from_str, context}
use libsystemd_rs.Os.{OsError, os_error_display}

pub record FileSystem : Type 0 where
  -- `Dir::open`, `File::open` and `std::fs::read_dir`
  pub open_dir : Str → Result OsError ℤ
  pub open_file : Str → Result OsError ℤ
  pub read_dir : Str → Result OsError (List (Result OsError Str))

pub record CredentialsLoader : Type 0 where
  pub path : Str
  pub dirfd : ℤ

abbrev pub directory_key : Str
directory_key = codes "CREDENTIALS_DIRECTORY"

unfoldable pub path_from_env : Env → Option Str
path_from_env env = var directory_key env

abbrev pub ends_with : Str → Bool
ends_with [] = false
ends_with (c ∷ []) = c == b'/'
ends_with (c ∷ d ∷ s) = ends_with (d ∷ s)

-- `Path::join`: an absolute path replaces the first, and a separator is added where one is missing.
unfoldable pub join : Str → Str → Str
join [] p = p
join (c ∷ path) p =
    if starts_with b'/' p
    then p
    else if ends_with (c ∷ path)
    then c ∷ (path ++ p)
    else c ∷ (path ++ b'/' ∷ p)

-- `Self::path_from_env().ok_or_else(..)`
unfoldable pub directory_or_error : Option Str → Result SdError Str
unfolding from_str
directory_or_error (some path) = ok path
directory_or_error none =
    err (from_str (codes "No valid environment variable 'CREDENTIALS_DIRECTORY' found"))

-- `CredentialsLoader::cred_absolute_path`
unfoldable pub cred_absolute_path : CredentialsLoader → Str → Result SdError Str
unfolding from_str join
cred_absolute_path loader i =
    if contains b'/' i
    then err (from_str (codes "Invalid credential ID"))
    else ok (join loader.path i)

opening_msg : Str → OsError → Str
opening_msg path e = codes "Opening credential at " ++ (path ++ (codes ": " ++ e.text))

module _ (fs : FileSystem) where
  -- `CredentialsLoader::open`
  unfoldable pub open_loader : Env → Result SdError CredentialsLoader
  unfolding path_from_env context directory_or_error
  open_loader env = do
    path ← directory_or_error (path_from_env env)
    dirfd ←
        context (codes "Opening credentials directory at '" ++ (path ++ codes "'"))
          (fs.open_dir path)
    ok (record { path = path; dirfd = dirfd })

  -- `CredentialsLoader::get`
  unfoldable pub get : CredentialsLoader → Str → Result SdError ℤ
  unfolding cred_absolute_path from_str opening_msg
  get loader i = do
    cred_path ← cred_absolute_path loader i
    map_err (λ e. from_str (opening_msg cred_path e)) (fs.open_file cred_path)

  -- `CredentialsLoader::iter`
  unfoldable pub iter : CredentialsLoader → Result SdError (List (Result OsError Str))
  unfolding context
  iter loader =
      context (codes "Opening credential directory at " ++ loader.path) (fs.read_dir loader.path)
