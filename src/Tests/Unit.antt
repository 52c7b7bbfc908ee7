-- ===== src/Tests/Unit.antt =====
-- src/unit.rs
use libsystemd_rs.Base.{
  true, false, ◌≡◌, ◌↔◌, some, refl, arith, Str, codes, bytes, All, starts_with, contains, is_empty,
}
use libsystemd_rs.Unit.Alphabet.{IsUnitChar}
use libsystemd_rs.Unit.Components.{components}
use libsystemd_rs.Unit.Path.{path_of, escape_path-eq_iff, unescape-escape_path}
use libsystemd_rs.Unit.Quickcheck.{test_name_escape, test_path_escape}
use libsystemd_rs.Unit.Runs.{has_run, escape_path_shape}
use libsystemd_rs.Unit.Unescape.{unescape, unescape-escape_name}
use libsystemd_rs.Unit.{escape_name, escape_path, hex_digit}

table_passes : (test_name_escape ≡ true) × (test_path_escape ≡ true)
unfolding test_name_escape test_path_escape hex_digit bytes
table_passes = (refl, refl)

abbrev sample_name : Str
sample_name = codes ".foo/.bär"

abbrev sample_path : Str
sample_path = codes "//.foo///bar/"

unescape-escape_name_example : unescape (escape_name sample_name) ≡ some (bytes sample_name)
unescape-escape_name_example = unescape-escape_name sample_name (omega arith)

escape_path-eq_iff_example :
    (escape_path sample_path ≡ escape_path (codes ".foo/bar"))
    ↔ (components (bytes sample_path) ≡ components (bytes (codes ".foo/bar")))
escape_path-eq_iff_example =
    escape_path-eq_iff sample_path (codes ".foo/bar") (omega arith) (omega arith)

unescape-escape_path_example :
    unescape (escape_path sample_path) ≡ some (path_of (components (bytes sample_path)))
unescape-escape_path_example = unescape-escape_path sample_path (omega arith)

escape_path_shape_example :
    All IsUnitChar (escape_path sample_path)
    × (is_empty (escape_path sample_path) ≡ false)
    × (contains b'/' (escape_path sample_path) ≡ false)
    × (has_run b'-' (escape_path sample_path) ≡ false)
    × (starts_with b'.' (escape_path sample_path) ≡ false)
escape_path_shape_example = escape_path_shape sample_path (omega arith)
