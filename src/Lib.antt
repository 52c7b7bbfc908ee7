-- ===== src/Lib.antt =====
-- A model of libsystemd, a client library for systemd, with the theorems that make it correct.
--
-- Parts, each a module named for the source file that it models:
-- Error: src/errors.rs, `SdError` and the `Context` trait. A message is the text that the source
--   formats, so that errors are compared whole.
-- Unit: src/unit.rs, `escape_name`, `escape_path` and `escape_byte`. Unit/Unescape has the reader
--   that they are held to, Unit/Components the components of a path.
-- Sysusers: src/sysusers. Name is `validate_name_strict`, Id the types `IdOrPath` and `GidOrPath`
--   of mod.rs with their `FromStr` and their `Display` of format.rs, Entry the four entry types of
--   mod.rs, Format the `Display` of format.rs, Data the conversions and the `Serialize`
--   implementations of serialization.rs, Parse the parsers of parse.rs and Parse/Reader its
--   `parse_from_reader`. Parse calls Data, which calls the constructors of Entry, which call Name.
--   Grammar has the relation between a file and its entries that the reader is held to, written
--   without the parsers.
-- Logging: src/logging.rs, `Priority`, `ValidField`, the field encoding and the datagram that
--   `journal_send` builds, Logging/Send is its sending, Logging/Stream is `JournalStream` with `connected_to_journal`.
--   Logging/Protocol has the reader of journald's protocol that the encoding is held to.
-- Daemon: src/daemon.rs. Watchdog is `watchdog_enabled`, State `NotifyState` with its `Display` and
--   `sanity_check_state_entries`, Fdname `validate_fdname`, Notify `notify` and `notify_with_fds`, Booted
--   `booted`.
-- Activation: src/activation.rs. System has what the operating system answers, FileDescriptor and
--   RawFd the two implementations of `IsType`, Descriptor the conversions, Receive the functions
--   that read the environment. Activation/Names joins Daemon/Fdname and these functions.
-- Process: a process that calls the functions of src/daemon.rs and src/activation.rs in any order, as
--   a relation on the environment that these calls share.
-- Credentials: src/credentials.rs over a file system. A directory's path is held to the components
--   of Unit/Components.
-- Id128: src/id128.rs, with uuid and hmac as a parameter. A file that is read is the text in it.
-- Examples: examples/persistent_state.rs. Machine has the open files, the descriptors and the calls
--   that the program uses, PersistentState its functions, Supervised the service manager that restarts
--   it, with the laws of the manager's descriptor store. The number of runs is the length of a list of
--   process numbers, and three are shown to be enough; Examples/Terminates counts them from any state.
--   Watchdog is examples/watchdog.rs, Notify examples/notify.rs.
-- Integration: the programs of tests. PersistentState is tests/persistent_state.rs on the world of
--   Examples/Machine, Journal is tests/journal.rs, whose loop takes ten attempts as in the source, and
--   Connected is tests/connected_to_journal.rs. What journalctl answers is a parameter.
-- Env: `std::env`, an association list that the functions take and return.
-- Base and Decimal: what the source uses of Rust's standard library on texts, lists, results and
--   numbers. A `str` is a list of Unicode code points, `len` counts the bytes of its UTF-8 encoding,
--   and a byte is a number below 256. The decimal print takes `n + 1` rounds, of which each divides
--   by ten, so that they are enough.
--
-- Code outside the repository is a parameter. Sysusers/Nom has the nom parsers with the laws that
-- their documentation states; the deserializer of serde is an argument of Data/Serde. Logging/Send,
-- Daemon/Notify, Activation/System, Credentials, Id128 and Examples/Machine have records of what their
-- calls answer, and Daemon/Booted takes what a path is. Tests has concrete values of all of them.
--
-- Not modelled: paths that are not UTF-8, capacities of vectors, log levels, what programs print,
-- and with it examples/id128.rs, the commands that the tests build to start themselves under a
-- manager, and random names, the `OnceCell` in which `journal_send` keeps its socket, and builds
-- without overflow checks. A sleep is what the program asks for; how late it ends is a parameter
-- of Examples/InTime. The tests in src that need neither a system nor a crate are functions in
-- Unit/Quickcheck and in the Cases of Logging, Sysusers and Activation, and Tests runs them. A
-- reader is the list of what its `lines()` yields; its warnings are returned beside its result.
-- The process number and the answers of system calls are arguments.
pub mod Base
pub mod Decimal
pub mod Env
pub mod Error
pub mod Os
pub mod Unit
pub mod Sysusers
pub mod Logging
pub mod Daemon
pub mod Activation
pub mod Id128
pub mod Credentials
pub mod Process
pub mod Examples
pub mod Integration
mod Tests
