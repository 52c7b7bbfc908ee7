-- ===== src/Activation/Cases.antt =====
-- The tests of src/activation.rs: whether each of them panics.
use libsystemd_rs.Activation.FileDescriptor
use libsystemd_rs.Activation.System.{unix, special, inet, fifo, mq}
use libsystemd_rs.Base.{Bool}
use libsystemd_rs.Decimal.Signed.{pos}

unfoldable pub test_socketype_is_unix : Bool
test_socketype_is_unix = let sock = unix (pos 0) in FileDescriptor.is_unix sock

unfoldable pub test_socketype_is_special : Bool
test_socketype_is_special = let sock = special (pos 0) in FileDescriptor.is_special sock

unfoldable pub test_socketype_is_inet : Bool
test_socketype_is_inet = let sock = inet (pos 0) in FileDescriptor.is_inet sock

unfoldable pub test_socketype_is_fifo : Bool
test_socketype_is_fifo = let sock = fifo (pos 0) in FileDescriptor.is_fifo sock

unfoldable pub test_socketype_is_mq : Bool
test_socketype_is_mq = let sock = mq (pos 0) in FileDescriptor.is_mq sock
