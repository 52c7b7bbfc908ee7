-- ===== src/Activation/Descriptor.antt =====
-- `FileDescriptor`, a `SocketFd` in the source, and its conversions.
use libsystemd_rs.Activation.RawFd
use libsystemd_rs.Activation.System.{System, SocketFd, fifo, special, inet, unix, mq, unknown}
use libsystemd_rs.Base.{◌++◌, if◌then◌else◌, Str, codes, Result, ok, err}
use libsystemd_rs.Decimal.Signed.{ℤ, display_int}
use libsystemd_rs.Error.{SdError, from_str}

pub conversion_msg : ℤ → Str
conversion_msg value =
    codes "conversion failure, possibly invalid or unknown file descriptor " ++ display_int value

-- `TryFrom<RawFd>`
unfoldable pub try_from : System → ℤ → Result (SdError × ℤ) SocketFd
unfolding from_str conversion_msg
try_from sys value =
    if RawFd.is_fifo sys value
    then ok (fifo value)
    else if RawFd.is_special sys value
    then ok (special value)
    else if RawFd.is_inet sys value
    then ok (inet value)
    else if RawFd.is_unix sys value
    then ok (unix value)
    else if RawFd.is_mq sys value
    then ok (mq value)
    else err (from_str (conversion_msg value), value)

unfoldable pub into_raw_fd : SocketFd → ℤ
into_raw_fd (fifo fd) = fd
into_raw_fd (special fd) = fd
into_raw_fd (inet fd) = fd
into_raw_fd (unix fd) = fd
into_raw_fd (mq fd) = fd
into_raw_fd (unknown fd) = fd
