-- ===== src/Error.antt =====
-- src/errors.rs: `SdError`, its kinds, its conversions and the `Context` trait. A `Display` instance
-- stands for the trait of that name: the text that `{}` writes.
use libsystemd_rs.Base.{Option, none, some, ◌++◌, Str, codes, Result, ok, err, map_err}
use libsystemd_rs.Decimal
use libsystemd_rs.Decimal.{IntError}

pub record Display {ℓ} (A : Type ℓ) : Type ℓ where
  pub to_string : A → Str

pub data ErrorKind : Type 0 where
  generic sysusers_unknown_type : ErrorKind

pub record SdError : Type 0 where
  pub kind : ErrorKind
  pub msg : Str

-- `From<&str>` and `From<String>`
unfoldable pub from_str : Str → SdError
from_str arg = record { kind = generic; msg = arg }

unfoldable pub display_error : SdError → Str
display_error e = codes "libsystemd error: " ++ e.msg

instance abbrev pub sd_error_display : Display SdError
sd_error_display = record { to_string = display_error }

instance abbrev pub int_error_display : Display IntError
int_error_display = record { to_string = Decimal.describe }

module _ {ℓ κ} {E : Type ℓ} ⦃d : Display E⦄ {T : Type κ} where
  -- `context` and `with_context` of `Result`: the text is built when it is needed, which a pure
  -- function cannot tell.
  unfoldable pub context : Str → Result E T → Result SdError T
  unfolding from_str
  context c r = map_err (λ e. from_str (c ++ codes ": " ++ d.to_string e)) r

-- `context` and `with_context` of `Option`
unfoldable pub option_context {ℓ} : {T : Type ℓ} → Str → Option T → Result SdError T
unfolding from_str
option_context c (some t) = ok t
option_context c none = err (from_str c)
