-- ===== src/Examples/Machine.antt =====
-- What examples/persistent_state.rs uses of the kernel, of std and of the service manager. The kernel
-- and the manager are a parameter; the open files are those of std.
use libsystemd_rs.Activation.System.{System}
use libsystemd_rs.Base.{
  ℕ, zero, suc, ◌+◌, Bool, List, [], ◌∷◌, ◌++◌, ◌==◌, Option, none, some, if◌then◌else◌, length,
  Str, Bytes, codes, Result, ok, err,
}
use libsystemd_rs.Daemon.Booted.{Metadata}
use libsystemd_rs.Daemon.Notify.{Os, Datagram, Outcome}
use libsystemd_rs.Decimal.Signed.{ℤ, same_int}
use libsystemd_rs.Env.{Env}
use libsystemd_rs.Error.{SdError}
use libsystemd_rs.Os.{OsError}

-- An open file: processes that are passed a descriptor share it, its offset included.
pub record OpenFile : Type 0 where
  pub content : Bytes
  pub offset : ℕ

-- `File::set_len`: what is missing is zero.
abbrev pub resize : ℕ → Bytes → Bytes
resize zero bs = []
resize (suc n) [] = 0 ∷ resize n []
resize (suc n) (b ∷ bs) = b ∷ resize n bs

abbrev pub drop : ℕ → Bytes → Bytes
drop zero bs = bs
drop (suc n) [] = []
drop (suc n) (b ∷ bs) = drop n bs

-- The contents after `new` is written at an offset
abbrev pub overwrite : ℕ → Bytes → Bytes → Bytes
overwrite zero new old = new ++ drop (length new) old
overwrite (suc n) new [] = 0 ∷ overwrite n new []
overwrite (suc n) new (b ∷ old) = b ∷ overwrite n new old

abbrev pub byte_at : ℕ → Bytes → Option ℕ
byte_at n [] = none
byte_at zero (b ∷ bs) = some b
byte_at (suc n) (b ∷ bs) = byte_at n bs

-- The calls on files that can fail
pub data FileCall : Type 0 where
  opened removed : Str → FileCall
  resized wrote rewound read_from : ℤ → FileCall

-- The names and the open files that the service manager keeps.
abbrev pub Store : Type 0
Store = List (Str × ℕ)

-- `handle` is what it does with a message that comes with open files, `environment` what it gives
-- a new process of a given number.
pub record Manager : Type 0 where
  pub handle : Bytes → List ℕ → Store → Store
  pub environment : ℕ → Store → Env

-- `content_at` is what a file of that name holds already, `free_fd` the number that a new descriptor
-- gets beside those of the table.
pub record Host (Addr : Type 0) : Type 0 where
  pub os : Os Addr
  pub system : System
  pub symlink_metadata : Str → Result OsError Metadata
  pub failure : FileCall → Option OsError
  pub content_at : Str → Bytes
  pub free_fd : List (ℤ × ℕ) → ℤ
  pub manager : Manager

-- The open files, the descriptors and the environment of the process, and the manager's store.
pub record World : Type 0 where
  pub files : ℕ → OpenFile
  pub next : ℕ
  pub table : List (ℤ × ℕ)
  pub env : Env
  pub store : Store

pub data Failure : Type 0 where
  io_failed : OsError → Failure
  sd_failed : SdError → Failure
  other_error : Str → Failure
  overflow assertion_failed : Failure

abbrev pub Run : Type 0 → Type 0
Run A = World → Result Failure A × World

abbrev pub and_then :
    {A B : Type 0} → Result Failure A × World → (A → Run B) → Result Failure B × World
and_then (ok a, w) k = k a w
and_then (err e, w) k = (err e, w)

infixl 5 ◌>>=◌ ◌>>◌
abbrev pub ◌>>=◌ : {A B : Type 0} → Run A → (A → Run B) → Run B
m >>= k = λ w. and_then (m w) k

abbrev pub ◌>>◌ : {A B : Type 0} → Run A → Run B → Run B
m >> k = λ w. and_then (m w) (λ _. k)

abbrev pub pure : {A : Type 0} → A → Run A
pure a = λ w. (ok a, w)

abbrev pub fail : {A : Type 0} → Failure → Run A
fail e = λ w. (err e, w)

abbrev pub lookup : ℤ → List (ℤ × ℕ) → Option ℕ
lookup fd [] = none
lookup fd ((n, h) ∷ table) = if same_int n fd then some h else lookup fd table

-- The open files of the descriptors that are sent
abbrev pub opened_by : List (ℤ × ℕ) → List ℤ → List ℕ
opened_by table [] = []
opened_by table (fd ∷ fds) = elim (lookup fd table) [
  | none ↦ opened_by table fds
  | some h ↦ h ∷ opened_by table fds
]

abbrev pub or_none : Option (List ℤ) → List ℤ
or_none none = []
or_none (some fds) = fds

abbrev pub bad_descriptor : OsError
bad_descriptor = record { text = codes "Bad file descriptor (os error 9)"; raw_os_error = some 9 }

abbrev pub unexpected_eof : OsError
unexpected_eof = record { text = codes "failed to fill whole buffer"; raw_os_error = none }

module _ {Addr : Type 0} (host : Host Addr) where
  abbrev pub call : FileCall → Run (Unit {0})
  call c w = elim (host.failure c) [ none ↦ (ok tt, w) | some e ↦ (err (io_failed e), w) ]

  -- The open file that a descriptor stands for
  abbrev pub handle_of : ℤ → Run ℕ
  handle_of fd w = elim (lookup fd w.table) [
    | none ↦ (err (io_failed bad_descriptor), w)
    | some h ↦ (ok h, w)
  ]

  abbrev pub set_file : ℕ → OpenFile → Run (Unit {0})
  set_file h f w = (ok tt, record w { files = λ k. if k == h then f else w.files k })

  abbrev pub file_of : ℕ → Run OpenFile
  file_of h w = (ok (w.files h), w)

  -- `OpenOptions::open`
  abbrev pub open_file : Str → Run ℤ
  open_file path = do
    call (opened path)
    λ w.
        let fd = host.free_fd w.table in
        let f : OpenFile = record { content = host.content_at path; offset = 0 } in
        (
          ok fd,
          record w {
            files = λ k. if k == w.next then f else w.files k;
            next = suc w.next;
            table = (fd, w.next) ∷ w.table;
          },
        )

  abbrev pub set_len : ℤ → ℕ → Run (Unit {0})
  set_len fd n = do
    call (resized fd)
    h ← handle_of fd
    f ← file_of h
    set_file h (record { content = resize n f.content; offset = f.offset })

  abbrev pub write_all : ℤ → Bytes → Run (Unit {0})
  write_all fd bs = do
    call (wrote fd)
    h ← handle_of fd
    f ← file_of h
    set_file h (record { content = overwrite f.offset bs f.content; offset = f.offset + length bs })

  abbrev pub rewind : ℤ → Run (Unit {0})
  rewind fd = do
    call (rewound fd)
    h ← handle_of fd
    f ← file_of h
    set_file h (record { content = f.content; offset = 0 })

  abbrev pub taken : ℕ → OpenFile → Option ℕ → Run ℕ
  taken h f none = fail (io_failed unexpected_eof)
  taken h f (some b) = do set_file h (record { content = f.content; offset = suc f.offset }); pure b

  -- `read_exact` of one byte
  abbrev pub read_byte : ℤ → Run ℕ
  read_byte fd = do
    call (read_from fd)
    h ← handle_of fd
    f ← file_of h
    taken h f (byte_at f.offset f.content)

  abbrev pub as_run : Result SdError Bool → Result Failure Bool
  as_run (ok b) = ok b
  as_run (err e) = err (sd_failed e)

  -- The manager handles what is sent, in order.
  abbrev pub handled : List (ℤ × ℕ) → List (Datagram Addr) → Store → Store
  handled table [] store = store
  handled table (d ∷ sent) store =
      handled table sent (host.manager.handle d.iov (opened_by table (or_none d.fds)) store)

  abbrev pub store_after : Result SdError Bool → Store → Store → Store
  store_after (ok b) later before = later
  store_after (err e) later before = before

  -- A notification: what it sends without an error reaches the manager.
  abbrev pub told : (Env → Outcome Addr) → Run Bool
  told send w =
      let o = send w.env in
      let later = handled w.table o.sent w.store in
      (as_run o.result, record w { env = o.env; store = store_after o.result later w.store })
