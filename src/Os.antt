-- ===== src/Os.antt =====
-- Errors of the operating system, as the source sees them through std and nix.
use libsystemd_rs.Base.{ℕ, Option, Str}
use libsystemd_rs.Error.{Display}

-- `std::io::Error` and `nix::errno::Errno`: the text that they display, and `raw_os_error()`
pub record OsError : Type 0 where
  pub text : Str
  pub raw_os_error : Option ℕ

instance abbrev pub os_error_display : Display OsError
os_error_display = record { to_string = λ e. e.text }
