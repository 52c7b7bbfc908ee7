-- ===== src/Logging/Cases.antt =====
-- The tests of src/logging.rs that need no journal: whether each of them panics.
use libsystemd_rs.Base.{
  Bool, true, false, ◌&&◌, List, [], ◌∷◌, Option, none, some, Bytes, codes, bytes, equal,
}
use libsystemd_rs.Decimal
use libsystemd_rs.Logging.Field.{ValidField, is_valid_field, validate, unchecked, as_bytes}
use libsystemd_rs.Logging.Message.{priority_field, message_field}
use libsystemd_rs.Logging.Payload.{add_field_and_payload, add_field_and_payload_explicit_length}
use libsystemd_rs.Logging.Priority.{
  Priority, emergency, alert, critical, error, warning, notice, info, debug, to_u8, numeric_level,
}

abbrev foo : ValidField
foo = unchecked (codes "FOO")

abbrev pub priorities : List Priority
priorities = emergency ∷ alert ∷ critical ∷ error ∷ warning ∷ notice ∷ info ∷ debug ∷ []

-- `for priority in priorities`
levels_match : List Priority → Bool
unfolding equal
levels_match [] = true
levels_match (p ∷ ps) = equal (Decimal.display (to_u8 p)) (numeric_level p) && levels_match ps

unfoldable pub test_priority_numeric_level_matches_to_string : Bool
unfolding levels_match
test_priority_numeric_level_matches_to_string = levels_match priorities

-- `ValidField::validate_unchecked`
unfoldable pub validate_unchecked : ValidField → Bool
unfolding is_valid_field
validate_unchecked f = is_valid_field f.field

unfoldable pub test_predeclared_fields_are_valid : Bool
unfolding validate_unchecked
test_predeclared_fields_are_valid =
    validate_unchecked priority_field
    && (validate_unchecked message_field && validate_unchecked foo)

abbrev pub is_none : Option ValidField → Bool
is_none none = true
is_none (some f) = false

unfoldable pub test_is_valid_field_lowercase_invalid : Bool
unfolding validate
test_is_valid_field_lowercase_invalid = is_none (validate (codes "test"))

unfoldable pub test_is_valid_field_uppercase_non_ascii_invalid : Bool
unfolding validate
test_is_valid_field_uppercase_non_ascii_invalid = is_none (validate (codes "TRÖT"))

unfoldable pub test_is_valid_field_uppercase_valid : Bool
unfolding validate equal
test_is_valid_field_uppercase_valid =
    let field = codes "TEST" in
    elim (validate field) [ none ↦ false | some f ↦ equal (as_bytes f) (bytes field) ]

unfoldable pub test_is_valid_field_uppercase_non_alpha_invalid : Bool
unfolding validate
test_is_valid_field_uppercase_non_alpha_invalid = is_none (validate (codes "TE!ST"))

unfoldable pub test_is_valid_field_uppercase_leading_underscore_invalid : Bool
unfolding validate
test_is_valid_field_uppercase_leading_underscore_invalid = is_none (validate (codes "_TEST"))

unfoldable pub test_is_valid_field_uppercase_leading_digit_invalid : Bool
unfolding validate
test_is_valid_field_uppercase_leading_digit_invalid = is_none (validate (codes "1TEST"))

unfoldable pub add_field_and_payload_explicit_length_simple : Bool
unfolding add_field_and_payload_explicit_length equal
add_field_and_payload_explicit_length_simple =
    let vec = add_field_and_payload_explicit_length [] foo (codes "BAR") in
    equal vec
      (b'F' ∷ b'O' ∷ b'O' ∷ b'\n' ∷ 3 ∷ 0 ∷ 0 ∷ 0 ∷ 0 ∷ 0 ∷ 0 ∷ 0 ∷ b'B' ∷ b'A' ∷ b'R' ∷ b'\n' ∷ [])

abbrev with_inner_newline : Bytes
with_inner_newline =
    b'F' ∷ b'O' ∷ b'O' ∷ b'\n' ∷ 4 ∷ 0 ∷ 0 ∷ 0 ∷ 0 ∷ 0 ∷ 0 ∷ 0 ∷ b'B' ∷ b'\n' ∷ b'A' ∷ b'R' ∷ b'\n'
    ∷ []

abbrev with_last_newline : Bytes
with_last_newline =
    b'F' ∷ b'O' ∷ b'O' ∷ b'\n' ∷ 4 ∷ 0 ∷ 0 ∷ 0 ∷ 0 ∷ 0 ∷ 0 ∷ 0 ∷ b'B' ∷ b'A' ∷ b'R' ∷ b'\n' ∷ b'\n'
    ∷ []

unfoldable pub add_field_and_payload_explicit_length_internal_newline : Bool
unfolding add_field_and_payload_explicit_length equal
add_field_and_payload_explicit_length_internal_newline =
    equal (add_field_and_payload_explicit_length [] foo (codes "B\nAR")) with_inner_newline

unfoldable pub add_field_and_payload_explicit_length_trailing_newline : Bool
unfolding add_field_and_payload_explicit_length equal
add_field_and_payload_explicit_length_trailing_newline =
    equal (add_field_and_payload_explicit_length [] foo (codes "BAR\n")) with_last_newline

unfoldable pub add_field_and_payload_simple : Bool
unfolding add_field_and_payload equal
add_field_and_payload_simple =
    equal (add_field_and_payload [] foo (codes "BAR")) (bytes (codes "FOO=BAR\n"))

unfoldable pub add_field_and_payload_internal_newline : Bool
unfolding add_field_and_payload equal
add_field_and_payload_internal_newline =
    equal (add_field_and_payload [] foo (codes "B\nAR")) with_inner_newline

unfoldable pub add_field_and_payload_trailing_newline : Bool
unfolding add_field_and_payload equal
add_field_and_payload_trailing_newline =
    equal (add_field_and_payload [] foo (codes "BAR\n")) with_last_newline
