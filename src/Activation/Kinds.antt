-- ===== src/Activation/Kinds.antt =====
-- How descriptors are told apart, by what the system answers about them.
use libsystemd_rs.Activation.RawFd
use libsystemd_rs.Activation.RawFd.{is_fifo, is_special, is_inet, is_unix, is_mq}
use libsystemd_rs.Activation.System.{
  System, AddressFamily, inet_family, inet6_family, unix_family, SocketFd, fifo, special, inet,
  unix, mq, unknown,
}
use libsystemd_rs.Base.{ℕ, ◌/◌, ◌%◌, true, false, Option, some, ◌≢◌, ◌≡◌, ◌⊎◌}
use libsystemd_rs.Decimal.Signed.{ℤ}

-- The file types of `st_mode`, its bits from the twelfth on, as POSIX systems number them
abbrev pub fifo_type : ℕ
fifo_type = 1

abbrev pub regular_type : ℕ
regular_type = 8

abbrev pub HasFileType : System → ℤ → ℕ → Type 0
HasFileType sys fd kind = (mode : ℕ) × (sys.fstat fd ≡ some mode) × (mode / 0x1000 % 0x10 ≡ kind)

-- No file type is recognised: the descriptor may be a socket or a queue.
abbrev pub HasOtherType : System → ℤ → Type 0
HasOtherType sys fd = (¬ HasFileType sys fd fifo_type) × ¬ HasFileType sys fd regular_type

abbrev pub IsInternet : Option AddressFamily → Type 0
IsInternet family = (family ≡ some inet_family) ⊎ (family ≡ some inet6_family)

-- What the system answers about a descriptor of each kind
abbrev pub IsOfKind : System → SocketFd → Type 0
IsOfKind sys (fifo fd) = HasFileType sys fd fifo_type
IsOfKind sys (special fd) = HasFileType sys fd regular_type
IsOfKind sys (inet fd) = HasOtherType sys fd × IsInternet (sys.getsockname fd)
IsOfKind sys (unix fd) = HasOtherType sys fd × (sys.getsockname fd ≡ some unix_family)
IsOfKind sys (mq fd) =
    HasOtherType sys fd
    × (¬ IsInternet (sys.getsockname fd))
    × (sys.getsockname fd ≢ some unix_family)
    × (sys.mq_getattr fd ≡ true)
IsOfKind sys (unknown fd) = ⊥

module _ (sys : System) (fd : ℤ) where
  -- The tests of `try_from` that lead to each result
  abbrev Guards : SocketFd → Type 0
  Guards (fifo x) = is_fifo sys fd ≡ true
  Guards (special x) = (is_fifo sys fd ≡ false) × (is_special sys fd ≡ true)
  Guards (inet x) = (is_fifo sys fd ≡ false) × (is_special sys fd ≡ false) × (is_inet sys fd ≡ true)
  Guards (unix x) =
      (is_fifo sys fd ≡ false)
      × (is_special sys fd ≡ false)
      × (is_inet sys fd ≡ false)
      × (is_unix sys fd ≡ true)
  Guards (mq x) =
      (is_fifo sys fd ≡ false)
      × (is_special sys fd ≡ false)
      × (is_inet sys fd ≡ false)
      × (is_unix sys fd ≡ false)
      × (is_mq sys fd ≡ true)
  Guards (unknown x) = ⊥
