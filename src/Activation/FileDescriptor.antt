-- ===== src/Activation/FileDescriptor.antt =====
-- `IsType for FileDescriptor`.
use libsystemd_rs.Activation.System.{SocketFd, fifo, special, inet, unix, mq}
use libsystemd_rs.Base.{Bool, true, false}

abbrev pub is_fifo : SocketFd → Bool
is_fifo (fifo _) = true
is_fifo _ = false

abbrev pub is_special : SocketFd → Bool
is_special (special _) = true
is_special _ = false

abbrev pub is_unix : SocketFd → Bool
is_unix (unix _) = true
is_unix _ = false

abbrev pub is_inet : SocketFd → Bool
is_inet (inet _) = true
is_inet _ = false

abbrev pub is_mq : SocketFd → Bool
is_mq (mq _) = true
is_mq _ = false
