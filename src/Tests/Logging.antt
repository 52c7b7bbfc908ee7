-- ===== src/Tests/Logging.antt =====
-- src/logging.rs
use libsystemd_rs.Base.{
  true, List, [], ◌∷◌, map, some, ◌≡◌, refl, arith, Str, codes, bytes, contains,
}
use libsystemd_rs.Decimal
use libsystemd_rs.Logging.Cases.{
  test_priority_numeric_level_matches_to_string, test_predeclared_fields_are_valid,
  test_is_valid_field_lowercase_invalid, test_is_valid_field_uppercase_non_ascii_invalid,
  test_is_valid_field_uppercase_valid, test_is_valid_field_uppercase_non_alpha_invalid,
  test_is_valid_field_uppercase_leading_underscore_invalid,
  test_is_valid_field_uppercase_leading_digit_invalid, add_field_and_payload_explicit_length_simple,
  add_field_and_payload_explicit_length_internal_newline,
  add_field_and_payload_explicit_length_trailing_newline, add_field_and_payload_simple,
  add_field_and_payload_internal_newline, add_field_and_payload_trailing_newline,
}
use libsystemd_rs.Logging.Field.{is_valid_field, validate}
use libsystemd_rs.Logging.Message.Decoded.{fields_to_send, decode-journal_data}
use libsystemd_rs.Logging.Message.{journal_data}
use libsystemd_rs.Logging.Payload.{add_field_and_payload, add_field_and_payload_explicit_length}
use libsystemd_rs.Logging.Priority.{Priority, numeric_level, to_u8}
use libsystemd_rs.Logging.Protocol.{decode, read_as}

cases_pass :
    (test_priority_numeric_level_matches_to_string ≡ true)
    × (test_predeclared_fields_are_valid ≡ true)
    × (test_is_valid_field_lowercase_invalid ≡ true)
    × (test_is_valid_field_uppercase_non_ascii_invalid ≡ true)
    × (test_is_valid_field_uppercase_valid ≡ true)
    × (test_is_valid_field_uppercase_non_alpha_invalid ≡ true)
    × (test_is_valid_field_uppercase_leading_underscore_invalid ≡ true)
    × (test_is_valid_field_uppercase_leading_digit_invalid ≡ true)
    × (add_field_and_payload_explicit_length_simple ≡ true)
    × (add_field_and_payload_explicit_length_internal_newline ≡ true)
    × (add_field_and_payload_explicit_length_trailing_newline ≡ true)
    × (add_field_and_payload_simple ≡ true)
    × (add_field_and_payload_internal_newline ≡ true)
    × (add_field_and_payload_trailing_newline ≡ true)
unfolding test_priority_numeric_level_matches_to_string test_predeclared_fields_are_valid
    test_is_valid_field_lowercase_invalid test_is_valid_field_uppercase_non_ascii_invalid
    test_is_valid_field_uppercase_valid test_is_valid_field_uppercase_non_alpha_invalid
    test_is_valid_field_uppercase_leading_underscore_invalid
    test_is_valid_field_uppercase_leading_digit_invalid add_field_and_payload_explicit_length_simple
    add_field_and_payload_explicit_length_internal_newline
    add_field_and_payload_explicit_length_trailing_newline add_field_and_payload_simple
    add_field_and_payload_internal_newline add_field_and_payload_trailing_newline bytes contains
    Decimal.display is_valid_field validate numeric_level to_u8 add_field_and_payload
    add_field_and_payload_explicit_length
cases_pass = (refl, refl, refl, refl, refl, refl, refl, refl, refl, refl, refl, refl, refl, refl)

abbrev vars : List (Str × Str)
vars =
    (codes "UNIT", codes "a\nb")
    ∷ (codes "PRIORITY", codes "0")
    ∷ (codes "lower", codes "x")
    ∷ (codes "CODE_LINE", codes "7")
    ∷ []

decode-journal_data_example :
    decode (journal_data Priority.info (codes "hello") vars)
    ≡ some (map read_as (fields_to_send Priority.info (codes "hello") vars))
unfolding bytes
decode-journal_data_example =
    decode-journal_data Priority.info (codes "hello") vars (ground arith) (ground arith)
