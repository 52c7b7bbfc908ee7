-- ===== src/Tests/Credentials.antt =====
-- src/credentials.rs
use libsystemd_rs.Base.{
  [], ◌∷◌, ◌++◌, Str, codes, equal, if◌then◌else◌, some, contains, starts_with, true, ok, err, ◌≡◌,
  refl,
}
use libsystemd_rs.Credentials.Directory.{get-components}
use libsystemd_rs.Credentials.{
  FileSystem, CredentialsLoader, cred_absolute_path, open_loader, get, iter,
}
use libsystemd_rs.Decimal.Signed.{pos}
use libsystemd_rs.Env.{var}
use libsystemd_rs.Unit.Components.{components}

-- One directory with one credential.
abbrev sample_fs : FileSystem
sample_fs = record {
  open_dir = λ p.
      if equal p (codes "/run/creds/")
      then ok (pos 7)
      else err (record { text = codes "ENOENT"; raw_os_error = some 2 });
  open_file = λ p.
      if equal p (codes "/run/creds/token")
      then ok (pos 8)
      else err (record { text = codes "ENOENT"; raw_os_error = some 2 });
  read_dir = λ p. ok (ok (codes "token") ∷ []);
}

abbrev sample_loader : CredentialsLoader
sample_loader = record { path = codes "/run/creds/"; dirfd = pos 7 }

credentials_cases :
    (open_loader sample_fs ((codes "CREDENTIALS_DIRECTORY", codes "/run/creds/") ∷ [])
      ≡ ok sample_loader)
    × (get sample_fs sample_loader (codes "token") ≡ ok (pos 8))
    × (iter sample_fs sample_loader ≡ ok (ok (codes "token") ∷ []))
    × (cred_absolute_path (record { path = codes "/run/creds"; dirfd = pos 7 }) (codes "token")
        ≡ ok (codes "/run/creds/token"))
unfolding open_loader get iter cred_absolute_path var equal contains
credentials_cases = (refl, refl, refl, refl)

get-components_example :
    (p : Str) × (sample_fs.open_file p ≡ ok (pos 8))
    × (starts_with b'/' p ≡ true)
    × (components p ≡ components (codes "/run/creds/") ++ codes "token" ∷ [])
unfolding get equal contains
get-components_example = get-components sample_fs sample_loader (codes "token") (pos 8) refl refl
