-- ===== src/Activation/System.antt =====
-- `SocketFd`, and what the system answers about a descriptor, which is a parameter. A `RawFd` is an
-- `i32`.
use libsystemd_rs.Base.{ℕ, Bool, Option}
use libsystemd_rs.Decimal.Signed.{ℤ}

-- `nix::sys::socket::AddressFamily`, as far as it is told apart
pub data AddressFamily : Type 0 where
  inet_family inet6_family unix_family other_family : AddressFamily

pub record System : Type 0 where
  -- `st_mode` of `fstat`, `none` for an error
  pub fstat : ℤ → Option ℕ
  -- `family()` of `getsockname`, `none` for an error of either
  pub getsockname : ℤ → Option AddressFamily
  -- whether `mq_getattr` returns 0
  pub mq_getattr : ℤ → Bool

-- The number in each is the descriptor.
pub data SocketFd : Type 0 where
  fifo special inet unix mq unknown : ℤ → SocketFd
