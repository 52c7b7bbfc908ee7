-- ===== src/Id128.antt =====
-- src/id128.rs: 128-bit IDs. The crates uuid and hmac are a parameter; an ID is the bytes of its UUID.
pub mod Hex
pub mod AppSpecific
pub mod Files
use libsystemd_rs.Base.{
  ℕ, zero, suc, ◌+◌, ◌/◌, ◌%◌, List, [], ◌∷◌, ◌++◌, not, Bool, true, false, ◌==◌, if◌then◌else◌,
  length, trim_end, is_whitespace, Str, Bytes, codes, Result, ok, err, ◌>>=◌, ◌>>◌, map_err, Option,
  some, none,
}
use libsystemd_rs.Error.{Display, SdError, from_str, context}
use libsystemd_rs.Os.{OsError, os_error_display}
use libsystemd_rs.Unit.{hex_digit}

-- `uuid::Error`, as the text that it displays
pub record UuidError : Type 0 where
  pub text : Str

instance abbrev pub uuid_error_display : Display UuidError
uuid_error_display = record { to_string = λ e. e.text }

pub record Crates : Type 0 where
  -- `Uuid::from_slice` and `Uuid::parse_str`
  pub from_slice : Bytes → Result UuidError Bytes
  pub parse_uuid : Str → Result UuidError Bytes
  -- the text of `uuid.hyphenated()`
  pub hyphenated : Bytes → Str
  -- HMAC-SHA-256 of a key and a message; the error is of `new_from_slice`
  pub hmac : Bytes → Bytes → Result (Unit {0}) Bytes

pub record Id128 : Type 0 where
  pub uuid_v4 : Bytes

-- `write!(hex, "{byte:02x}")` for every byte
unfoldable pub hex_bytes : Bytes → Str
hex_bytes [] = []
hex_bytes (b ∷ bs) = hex_digit (b / 16) ∷ hex_digit (b % 16) ∷ hex_bytes bs

unfoldable pub lower_hex : Id128 → Str
unfolding hex_bytes
lower_hex i = hex_bytes i.uuid_v4

-- What the custom serialization of the field gives to `serialize_str`
unfoldable pub ser_uuid : Bytes → Str
unfolding hex_bytes
ser_uuid field = hex_bytes field

-- `from_bytes` and `From<Uuid>`
abbrev pub from_bytes : Bytes → Id128
from_bytes bs = record { uuid_v4 = bs }

-- `hashed[n]`, and the assignment to it
unfoldable pub get : ℕ → Bytes → ℕ
get n [] = 0
get zero (b ∷ bs) = b
get (suc n) (b ∷ bs) = get n bs

unfoldable pub set : ℕ → ℕ → Bytes → Bytes
set n v [] = []
set zero v (b ∷ bs) = v ∷ bs
set (suc n) v (b ∷ bs) = b ∷ set n v bs

-- `hashed[..n]`
unfoldable pub take : ℕ → Bytes → Bytes
take zero bs = []
take (suc n) [] = []
take (suc n) (b ∷ bs) = b ∷ take n bs

-- `(b & 0x0F) | 0x40` and `(b & 0x3F) | 0x80` of a byte
abbrev pub version_4 : ℕ → ℕ
version_4 b = b % 16 + 0x40

abbrev pub variant_dce : ℕ → ℕ
variant_dce b = b % 64 + 0x80

-- The hash with the version and the variant set
unfoldable pub marked : Bytes → Bytes
unfolding get set
marked hashed =
    let h1 = set 6 (version_4 (get 6 hashed)) hashed in set 8 (variant_dce (get 8 h1)) h1

module _ (crates : Crates) where
  unfoldable pub dashed_hex : Id128 → Str
  dashed_hex i = crates.hyphenated i.uuid_v4

  -- `fmt::Debug`
  unfoldable pub debug : Id128 → Str
  unfolding dashed_hex
  debug i = dashed_hex i

  unfoldable pub try_from_slice : Bytes → Result SdError Id128
  unfolding context
  try_from_slice slice = do
    uuid_v4 ← context (codes "failed to parse ID from bytes slice") (crates.from_slice slice)
    ok (record { uuid_v4 = uuid_v4 })

  unfoldable pub parse_str : Str → Result SdError Id128
  unfolding context
  parse_str input = do
    uuid_v4 ← context (codes "failed to parse ID from string") (crates.parse_uuid input)
    ok (record { uuid_v4 = uuid_v4 })

  -- From `hashed.len()` on
  unfoldable pub hashed_id : Bytes → Result SdError Id128
  unfolding from_str marked take try_from_slice
  hashed_id hashed =
      if not (length hashed == 32)
      then err (from_str (codes "short hash"))
      else try_from_slice (take 16 (marked hashed))

  unfoldable pub app_specific : Id128 → Id128 → Result SdError Id128
  unfolding from_str hashed_id
  app_specific this app =
      map_err (λ _. from_str (codes "failed to prepare HMAC"))
        (crates.hmac this.uuid_v4 app.uuid_v4)
      >>= hashed_id

  -- `get_machine` and `get_boot`. `open_file` stands for `fs::File::open` with `read_to_string`: for a path
  -- the error of the first, or else the error or the text of the second.
  read_id : Str → Str → Str → (Str → Result OsError (Result OsError Str)) → Result SdError Id128
  unfolding context parse_str
  read_id path open_msg read_msg open_file = do
    fd ← context open_msg (open_file path)
    buf ← context read_msg fd
    parse_str (trim_end is_whitespace buf)

  unfoldable pub get_machine : (Str → Result OsError (Result OsError Str)) → Result SdError Id128
  unfolding read_id
  get_machine =
      read_id (codes "/etc/machine-id") (codes "failed to open machine-id")
        (codes "failed to read machine-id")

  unfoldable pub get_boot : (Str → Result OsError (Result OsError Str)) → Result SdError Id128
  unfolding read_id
  get_boot =
      read_id (codes "/proc/sys/kernel/random/boot_id") (codes "failed to open boot_id")
        (codes "failed to read boot_id")

  unfoldable pub get_machine_app_specific :
      Id128 → (Str → Result OsError (Result OsError Str)) → Result SdError Id128
  unfolding get_machine app_specific
  get_machine_app_specific app_id open_file = do
    machine_id ← get_machine open_file
    app_specific machine_id app_id

  unfoldable pub get_boot_app_specific :
      Id128 → (Str → Result OsError (Result OsError Str)) → Result SdError Id128
  unfolding get_boot app_specific
  get_boot_app_specific app_id open_file = do
    boot_id ← get_boot open_file
    app_specific boot_id app_id
