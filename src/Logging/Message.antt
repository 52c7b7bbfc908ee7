-- ===== src/Logging/Message.antt =====
-- The datagram that `journal_send` builds.
pub mod Decoded
use libsystemd_rs.Base.{
  Bool, true, false, not, ◌&&◌, List, [], ◌∷◌, ◌++◌, Option, none, some, if◌then◌else◌, equal, Str,
  Bytes, codes,
}
use libsystemd_rs.Logging.Field.{ValidField, validate, unchecked}
use libsystemd_rs.Logging.Payload.{add_field_and_payload}
use libsystemd_rs.Logging.Priority.{Priority, numeric_level}

abbrev pub priority_field : ValidField
priority_field = unchecked (codes "PRIORITY")

abbrev pub message_field : ValidField
message_field = unchecked (codes "MESSAGE")

-- `==` of `ValidField`
abbrev pub same_field : ValidField → ValidField → Bool
same_field a b = equal a.field b.field

-- The body of `for (ref k, ref v) in vars`
unfoldable pub add_var : Bytes → Str × Str → Bytes
add_var buffer (k, v) = elim (validate k) [
  | none ↦ buffer
  | some field ↦
      if not (same_field field priority_field) && not (same_field field message_field)
      then add_field_and_payload buffer field v
      else buffer
]

unfoldable pub add_vars : Bytes → List (Str × Str) → Bytes
add_vars buffer [] = buffer
add_vars buffer (kv ∷ vars) = add_vars (add_var buffer kv) vars

unfoldable pub journal_data : Priority → Str → List (Str × Str) → Bytes
journal_data priority msg vars =
    let b1 = add_field_and_payload [] priority_field (numeric_level priority) in
    let b2 = add_field_and_payload b1 message_field msg in add_vars b2 vars
