-- ===== src/Logging/Message/Decoded.antt =====
-- What a reader of the native protocol sees of the datagram.
use libsystemd_rs.Base.{
  ℕ, ◌<◌, Bool, true, not, ◌&&◌, List, [], ◌∷◌, ◌++◌, append-nil, keep, map, All, All-map, some,
  if◌then◌else◌, equal, Str, Bytes, codes, bytes, len, IsAscii, bytes-IsAscii, ◌≡◌, ◌≢◌, arith, ap,
  ◌∙◌, sym, Bool-cases, inl, inr,
}
use libsystemd_rs.Logging.Field.{
  ValidField, validate, is_valid_field, unchecked, IsFieldName, IsFieldChar, is_valid_field_iff,
}
use libsystemd_rs.Logging.Message.{priority_field, message_field, add_var, add_vars, journal_data}
use libsystemd_rs.Logging.Payload.{
  newline, u64_mod, add_field_and_payload, encoded, add_field_and_payload-append,
}
use libsystemd_rs.Logging.Priority.{Priority, numeric_level}
use libsystemd_rs.Logging.Protocol.{
  IsKey, decode, encode_all, IsSendable, read_as, decode-encode_all,
}

-- The variables that are sent: those with a valid name that is not reserved for the arguments.
abbrev pub is_sent : Str × Str → Bool
is_sent (k, v) =
    is_valid_field k && (not (equal k (codes "PRIORITY")) && not (equal k (codes "MESSAGE")))

abbrev pub unchecked_var : Str × Str → ValidField × Str
unchecked_var (k, v) = (unchecked k, v)

-- What the datagram is to hold: the two arguments, then the sent variables in order.
abbrev pub fields_to_send : Priority → Str → List (Str × Str) → List (ValidField × Str)
fields_to_send priority msg vars =
    (priority_field, numeric_level priority)
    ∷ (message_field, msg)
    ∷ map unchecked_var (keep is_sent vars)

add_var-append :
    (buffer : Bytes) (k v : Str) (rest : Bytes)
    → add_var buffer (k, v) ++ rest
      ≡ buffer ++ (if is_sent (k, v) then encoded (unchecked k) v rest else rest)
unfolding add_var validate
add_var-append buffer k v rest =
    ground (arith, add_field_and_payload-append buffer (unchecked k) v rest)

add_vars-append :
    (vars : List (Str × Str)) (buffer : Bytes)
    → add_vars buffer vars ≡ buffer ++ encode_all (map unchecked_var (keep is_sent vars))
unfolding add_vars
add_vars-append [] buffer = sym (append-nil buffer)
add_vars-append ((k, v) ∷ vars) buffer =
    add_vars-append vars (add_var buffer (k, v))
    ∙ add_var-append buffer k v (encode_all (map unchecked_var (keep is_sent vars)))
    ∙ ap (◌++◌ buffer) (ground arith)

journal_data-encode_all :
    (priority : Priority) (msg : Str) (vars : List (Str × Str))
    → journal_data priority msg vars ≡ encode_all (fields_to_send priority msg vars)
unfolding journal_data
journal_data-encode_all priority msg vars =
    let first = add_field_and_payload [] priority_field (numeric_level priority) in
    let later = encode_all (map unchecked_var (keep is_sent vars)) in
    add_vars-append vars (add_field_and_payload first message_field msg)
    ∙ add_field_and_payload-append first message_field msg later
    ∙ add_field_and_payload-append [] priority_field (numeric_level priority)
        (encoded message_field msg later)

field_char-key : (c : ℕ) → IsFieldChar c → IsAscii c × (c ≢ b'=') × (c ≢ newline)
field_char-key c h = ground arith

-- A valid name holds neither of the two characters that end a name.
field_name-IsKey : (s : Str) → IsFieldName s → IsKey (unchecked s)
field_name-IsKey [] h = absurd h
field_name-IsKey (c ∷ s) (h, hs, le) =
    let chars : All IsFieldChar (c ∷ s) = (ground arith, hs) in
    let keys = All-map (c ∷ s) field_char-key chars in
    let same = bytes-IsAscii (c ∷ s) (All-map (c ∷ s) (λ x k. k.0) keys) in
    rw same (All-map (c ∷ s) (λ x k. k.1) keys, All-map (c ∷ s) (λ x k. k.2) keys)

abbrev pub FitsU64 : Str × Str → Type 0
FitsU64 (k, v) = len v < u64_mod

vars-IsSendable :
    (vars : List (Str × Str))
    → All FitsU64 vars
    → All IsSendable (map unchecked_var (keep is_sent vars))
vars-IsSendable [] h = tt
vars-IsSendable ((k, v) ∷ vars) (h, hs) = elim (Bool-cases (is_sent (k, v))) [
  | inl sent ↦
      let valid : is_valid_field k ≡ true = ground arith in
      let kept : keep is_sent ((k, v) ∷ vars) ≡ (k, v) ∷ keep is_sent vars = ground arith in
      rw kept ((field_name-IsKey k ((is_valid_field_iff k).0 valid), h), vars-IsSendable vars hs)
  | inr dropped ↦
      let kept : keep is_sent ((k, v) ∷ vars) ≡ keep is_sent vars = ground arith in
      rw kept (vars-IsSendable vars hs)
]

level-fits : (p : Priority) → len (numeric_level p) < u64_mod
unfolding numeric_level bytes
level-fits Priority.emergency = omega arith
level-fits _ = omega arith

-- If the message and every value have fewer than 2^64 bytes, a reader of journald's protocol gets from
-- the datagram the priority and the message first, and then the variables with a valid name other
-- than theirs, in order, each value byte for byte.
pub decode-journal_data :
    (priority : Priority) (msg : Str) (vars : List (Str × Str))
    → len msg < u64_mod
    → All FitsU64 vars
    → decode (journal_data priority msg vars)
      ≡ some (map read_as (fields_to_send priority msg vars))
decode-journal_data priority msg vars h hs =
    ap decode (journal_data-encode_all priority msg vars)
    ∙ decode-encode_all (fields_to_send priority msg vars) (
      (field_name-IsKey (codes "PRIORITY") (ground arith), level-fits priority),
      ((field_name-IsKey (codes "MESSAGE") (ground arith), h), vars-IsSendable vars hs),
    )
