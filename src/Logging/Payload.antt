-- ===== src/Logging/Payload.antt =====
-- `add_field_and_payload` and `add_field_and_payload_explicit_length`. `reserve` changes a capacity
-- alone, and is left out.
use libsystemd_rs.Base.{
  ℕ, zero, suc, ◌/◌, ◌%◌, ◌^◌, [], ◌∷◌, ◌++◌, append_assoc, if◌then◌else◌, contains, Str, Bytes,
  bytes, len, ◌≡◌, Bool-cases, inl, inr,
}
use libsystemd_rs.Logging.Field.{ValidField, as_bytes}

abbrev pub newline : ℕ
newline = 10

-- The low `k` bytes of a number, the lowest first.
unfoldable pub to_le_bytes : ℕ → ℕ → Bytes
to_le_bytes zero n = []
to_le_bytes (suc k) n = (n % 256) ∷ to_le_bytes k (n / 256)

abbrev pub u64_mod : ℕ
u64_mod = 2 ^ 64

unfoldable pub add_field_and_payload_explicit_length : Bytes → ValidField → Str → Bytes
unfolding to_le_bytes
add_field_and_payload_explicit_length buffer field payload =
    let encoded_len = to_le_bytes 8 (len payload % u64_mod) in
    let b1 = buffer ++ as_bytes field in
    let b2 = b1 ++ newline ∷ [] in
    let b3 = b2 ++ encoded_len in let b4 = b3 ++ bytes payload in b4 ++ newline ∷ []

unfoldable pub add_field_and_payload : Bytes → ValidField → Str → Bytes
add_field_and_payload buffer field payload =
    let b1 = buffer ++ as_bytes field in
    let b2 = b1 ++ b'=' ∷ [] in
    let b3 = b2 ++ bytes payload in
    if contains newline payload
    then add_field_and_payload_explicit_length buffer field payload
    else b3 ++ newline ∷ []

-- What is added for one field, in front of what follows.
abbrev pub encoded : ValidField → Str → Bytes → Bytes
encoded field payload rest =
    if contains newline payload
    then as_bytes field
      ++ newline ∷ (to_le_bytes 8 (len payload % u64_mod) ++ (bytes payload ++ newline ∷ rest))
    else as_bytes field ++ b'=' ∷ (bytes payload ++ newline ∷ rest)

pub add_field_and_payload-append :
    (buffer : Bytes) (field : ValidField) (payload : Str) (rest : Bytes)
    → add_field_and_payload buffer field payload ++ rest ≡ buffer ++ encoded field payload rest
unfolding add_field_and_payload
add_field_and_payload-append buffer field payload rest =
    elim (Bool-cases (contains newline payload)) [
      | inl explicit ↦
          rw explicit (unfold add_field_and_payload_explicit_length in simp append_assoc)
      | inr plain ↦ rw plain (simp append_assoc)
    ]
