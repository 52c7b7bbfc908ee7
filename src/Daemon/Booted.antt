-- ===== src/Daemon/Booted.antt =====
-- `booted`. What the file system says of a path is a parameter.
use libsystemd_rs.Base.{Bool, false, Str, codes, Result, ok, err}
use libsystemd_rs.Os.{OsError}

-- `std::fs::Metadata`
pub record Metadata : Type 0 where
  pub is_dir : Bool

-- `.map(|p| p.is_dir()).unwrap_or(false)`
is_dir_or_false : Result OsError Metadata → Bool
is_dir_or_false (ok p) = p.is_dir
is_dir_or_false (err e) = false

unfoldable pub booted : (Str → Result OsError Metadata) → Bool
unfolding is_dir_or_false
booted symlink_metadata = is_dir_or_false (symlink_metadata (codes "/run/systemd/system"))
