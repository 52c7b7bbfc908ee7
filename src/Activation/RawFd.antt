-- ===== src/Activation/RawFd.antt =====
-- `IsType for RawFd`.
use libsystemd_rs.Activation.System.{System, AddressFamily, inet_family, inet6_family, unix_family}
use libsystemd_rs.Base.{ℕ, ◌*◌, ◌/◌, ◌%◌, Bool, true, false, Option, none, some, ◌==◌}
use libsystemd_rs.Decimal.Signed.{ℤ}

-- `mode & 0o0_170_000`
abbrev pub file_type : ℕ → ℕ
file_type mode = mode / 0x1000 % 0x10 * 0x1000

abbrev pub has_type : ℕ → Option ℕ → Bool
has_type kind none = false
has_type kind (some mode) = file_type mode == kind

abbrev pub is_inet_family : Option AddressFamily → Bool
is_inet_family (some inet_family) = true
is_inet_family (some inet6_family) = true
is_inet_family _ = false

abbrev pub is_unix_family : Option AddressFamily → Bool
is_unix_family (some unix_family) = true
is_unix_family _ = false

module _ (sys : System) where
  -- `0o010_000`
  unfoldable pub is_fifo : ℤ → Bool
  is_fifo fd = has_type 0x1000 (sys.fstat fd)

  -- `0o100_000`
  unfoldable pub is_special : ℤ → Bool
  is_special fd = has_type 0x8000 (sys.fstat fd)

  unfoldable pub is_inet : ℤ → Bool
  is_inet fd = is_inet_family (sys.getsockname fd)

  unfoldable pub is_unix : ℤ → Bool
  is_unix fd = is_unix_family (sys.getsockname fd)

  unfoldable pub is_mq : ℤ → Bool
  is_mq fd = sys.mq_getattr fd
