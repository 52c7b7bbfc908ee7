-- ===== src/Tests/Cases.antt =====
-- The tests of src/sysusers and src/activation.rs, run
use libsystemd_rs.Activation.Cases.{
  test_socketype_is_unix, test_socketype_is_special, test_socketype_is_inet, test_socketype_is_fifo,
  test_socketype_is_mq,
}
use libsystemd_rs.Base.{true, ◌≡◌, refl, bytes, equal, split, trim}
use libsystemd_rs.Decimal
use libsystemd_rs.Sysusers.Cases.{
  test_validate_name_strict, test_formatters, test_type_g, test_type_m, test_type_r, test_type_u,
  test_parse_from_reader,
}
use libsystemd_rs.Sysusers.Data.{
  range_try_from, member_try_from, group_try_from, user_try_from, check_kind, check_automatic,
  ensure_field_none_or_automatic, range_ends,
}
use libsystemd_rs.Sysusers.Entry.{new_range, new_member, group_impl_new, user_impl_new}
use libsystemd_rs.Sysusers.Format.{path_or_dash}
use libsystemd_rs.Sysusers.Id.{id_from_str, gid_from_str, display_id, display_gid}
use libsystemd_rs.Sysusers.Name.{validate_name_strict, check_chars}
use libsystemd_rs.Sysusers.Parse.Reader.{line_step, parsed_step}
use libsystemd_rs.Sysusers.Parse.{
  entry_from_str, dispatch, range_from_str, member_from_str, group_from_str, user_from_str,
  parse_to_sysusers_data, parse_line, parse_opt_string, parse_quoted_string, parse_plain_string,
}
use libsystemd_rs.Tests.SampleNom.{sample}

format_passes : (test_validate_name_strict ≡ true) × (test_formatters ≡ true)
unfolding test_validate_name_strict test_formatters check_chars validate_name_strict display_id
    display_gid path_or_dash group_impl_new user_impl_new bytes equal Decimal.display
format_passes = (refl, refl)

parse_passes :
    (test_type_g sample ≡ true)
    × (test_type_m sample ≡ true)
    × (test_type_r sample ≡ true)
    × (test_type_u sample ≡ true)
    × (test_parse_from_reader sample ≡ true)
unfolding test_type_g test_type_m test_type_r test_type_u test_parse_from_reader display_id
    display_gid path_or_dash line_step parsed_step entry_from_str dispatch range_from_str
    member_from_str group_from_str user_from_str parse_to_sysusers_data parse_line parse_opt_string
    parse_quoted_string parse_plain_string range_try_from member_try_from group_try_from
    user_try_from check_kind check_automatic ensure_field_none_or_automatic range_ends new_range
    new_member group_impl_new user_impl_new validate_name_strict check_chars id_from_str
    gid_from_str trim equal split bytes Decimal.parse Decimal.display
parse_passes = (refl, refl, refl, refl, refl)

socket_passes :
    (test_socketype_is_unix ≡ true)
    × (test_socketype_is_special ≡ true)
    × (test_socketype_is_inet ≡ true)
    × (test_socketype_is_fifo ≡ true)
    × (test_socketype_is_mq ≡ true)
unfolding test_socketype_is_unix test_socketype_is_special test_socketype_is_inet
    test_socketype_is_fifo test_socketype_is_mq
socket_passes = (refl, refl, refl, refl, refl)
