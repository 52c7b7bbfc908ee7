-- ===== src/Sysusers/Grammar.antt =====
-- The grammar of a sysusers.d line, independent of src/sysusers/parse.rs, which is held to it.
pub mod Combinators
pub mod Fields
pub mod Entries
pub mod Errors
pub mod File
use libsystemd_rs.Base.{
  ℕ, true, false, [], ◌∷◌, ◌++◌, Option, none, some, is_empty, starts_with, is_ascii_whitespace,
  not, Bool, ◌==◌, Str, ◌≡◌,
}
use libsystemd_rs.Sysusers.Data.{SysusersData}
use libsystemd_rs.Sysusers.Nom.{Stops, Passes, is_multispace}

-- `value` is the longest beginning of `input` whose characters pass `p`, and `rest` what follows.
abbrev pub Longest : (ℕ → Bool) → Str → Str → Str → Type 0
Longest p input rest value = (input ≡ value ++ rest) × Passes p value × Stops p rest

-- The same, of a value that is not empty
abbrev pub Longest1 : (ℕ → Bool) → Str → Str → Str → Type 0
Longest1 p input rest value = (is_empty value ≡ false) × Longest p input rest value

abbrev pub plain_char : ℕ → Bool
plain_char c = not (is_ascii_whitespace c)

abbrev pub inner_char : ℕ → Bool
inner_char c = not (c == b'"')

-- An optional field is missing at the end of the line, or is a text in quotes or a plain one.
pub data IsOptional (input rest : Str) : Option Str → Type 0 where
  missing : input ≡ [] → rest ≡ [] → IsOptional input rest none
  quoted :
      (value : Str)
      → input ≡ b'"' ∷ (value ++ b'"' ∷ rest)
      → is_empty value ≡ false
      → Passes inner_char value
      → IsOptional input rest (some value)
  plain :
      (value : Str)
      → starts_with b'"' input ≡ false
      → Longest1 plain_char input rest value
      → IsOptional input rest (some value)

-- The six fields of a line, with the white space between them, and what stands behind them.
pub record IsLine (input rest : Str) (d : SysusersData) : Type 0 where
  pub kind : ℕ
  pub blank1 : Str
  pub blank2 : Str
  pub blank3 : Str
  pub blank4 : Str
  pub blank5 : Str
  pub blank6 : Str
  pub after_kind : Str
  pub from_name : Str
  pub after_name : Str
  pub from_id : Str
  pub after_id : Str
  pub from_gecos : Str
  pub after_gecos : Str
  pub from_home_dir : Str
  pub after_home_dir : Str
  pub from_shell : Str
  pub after_shell : Str
  pub typed : input ≡ kind ∷ after_kind
  pub kind_is : d.kind ≡ kind ∷ []
  pub gap1 : Longest1 is_multispace after_kind from_name blank1
  pub name_is : Longest1 plain_char from_name after_name d.name
  pub gap2 : Longest1 is_multispace after_name from_id blank2
  pub id_is : Longest1 plain_char from_id after_id d.id
  pub gap3 : Longest is_multispace after_id from_gecos blank3
  pub gecos_is : IsOptional from_gecos after_gecos d.gecos
  pub gap4 : Longest is_multispace after_gecos from_home_dir blank4
  pub home_dir_is : IsOptional from_home_dir after_home_dir d.home_dir
  pub gap5 : Longest is_multispace after_home_dir from_shell blank5
  pub shell_is : IsOptional from_shell after_shell d.shell
  pub gap6 : Longest is_multispace after_shell rest blank6
