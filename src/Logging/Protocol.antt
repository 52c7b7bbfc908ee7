-- ===== src/Logging/Protocol.antt =====
-- A reader of journald's native protocol, written from its documentation: a field is a name, then
-- either `=`, the value and a newline, or a newline, the size as 64 bits with the lowest byte first,
-- that many bytes and a newline. This is the independent description of what the source writes.
use native.Mathlib.Nat.{pow-suc}
use libsystemd_rs.Base.{
  ℕ, zero, suc, ◌+◌, ◌*◌, ◌/◌, ◌%◌, ◌^◌, ◌<◌, false, List, [], ◌∷◌, ◌++◌, map, append_assoc,
  append-nil, Option, none, some, ◌==◌, if◌then◌else◌, All, All-append, length, contains, Str,
  Bytes, bytes, utf8_char, len, Lacks, ◌≡◌, refl, arith, ap, ◌∙◌, Bool-cases, inl, inr,
}
use libsystemd_rs.Logging.Payload.{newline, to_le_bytes, u64_mod, encoded}
use libsystemd_rs.Logging.Field.{ValidField, as_bytes}

pub data Mode : Type 0 where
  in_name : Bytes → Mode
  in_value : Bytes → Bytes → Mode
  -- the name, the bytes of the size that are missing, the weight of the next, the size so far
  in_size : Bytes → ℕ → ℕ → ℕ → Mode
  -- the name, the bytes that are missing, the value so far
  in_blob : Bytes → ℕ → Bytes → Mode

abbrev pub Fields : Type 0
Fields = List (Bytes × Bytes)

-- The next mode and the fields that are complete.
next : Mode → ℕ → Option (Mode × Fields)
next (in_name name) c =
    if c == b'='
    then some (in_value name [], [])
    else if c == newline
    then some (in_size name 8 1 0, [])
    else some (in_name (name ++ c ∷ []), [])
next (in_value name value) c =
    if c == newline
    then some (in_name [], (name, value) ∷ [])
    else some (in_value name (value ++ c ∷ []), [])
next (in_size name zero weight size) c = none
next (in_size name (suc zero) weight size) c = some (in_blob name (size + weight * c) [], [])
next (in_size name (suc (suc k)) weight size) c =
    some (in_size name (suc k) (weight * 256) (size + weight * c), [])
next (in_blob name zero value) c =
    if c == newline then some (in_name [], (name, value) ∷ []) else none
next (in_blob name (suc k) value) c = some (in_blob name k (value ++ c ∷ []), [])

read : Mode → Fields → Bytes → Option Fields
read (in_name []) out [] = some out
read m out [] = none
read m out (c ∷ s) = elim (next m c) [ none ↦ none | some (m', done) ↦ read m' (out ++ done) s ]

pub decode : Bytes → Option Fields
unfolding read next
decode s = read (in_name []) [] s

module _ (out : Fields) where
  read_name :
      (name rest acc : Bytes)
      → Lacks b'=' name
      → Lacks newline name
      → read (in_name acc) out (name ++ rest) ≡ read (in_name (acc ++ name)) out rest
  unfolding read next
  read_name [] rest acc h k = rw append-nil
  read_name (c ∷ name) rest acc (h, hs) (k, ks) = ground (
    arith,
    read_name name rest (acc ++ c ∷ []) hs ks,
    append_assoc acc (c ∷ []) name,
    append-nil out,
  )

  read_value :
      (name value rest acc : Bytes)
      → Lacks newline value
      → read (in_value name acc) out (value ++ newline ∷ rest)
        ≡ read (in_name []) (out ++ (name, acc ++ value) ∷ []) rest
  unfolding read next
  read_value name [] rest acc h = rw append-nil
  read_value name (c ∷ value) rest acc (h, hs) = ground (
    arith,
    read_value name value rest (acc ++ c ∷ []) hs,
    append_assoc acc (c ∷ []) value,
    append-nil out,
  )

  read_blob :
      (name value rest acc : Bytes)
      → read (in_blob name (length value) acc) out (value ++ newline ∷ rest)
        ≡ read (in_name []) (out ++ (name, acc ++ value) ∷ []) rest
  unfolding read next
  read_blob name [] rest acc = rw append-nil
  read_blob name (c ∷ value) rest acc = ground (
    arith,
    read_blob name value rest (acc ++ c ∷ []),
    append_assoc acc (c ∷ []) value,
    append-nil out,
  )

  size_step :
      (k weight size c : ℕ) (name s : Bytes)
      → read (in_size name (suc (suc k)) weight size) out (c ∷ s)
        ≡ read (in_size name (suc k) (weight * 256) (size + weight * c)) out s
  unfolding read next
  size_step k weight size c name s = rw append-nil

  -- The value of the bytes that `to_le_bytes` writes.
  read_size :
      (k v weight size : ℕ) (name rest : Bytes)
      → v < 256 ^ suc k
      → read (in_size name (suc k) weight size) out (to_le_bytes (suc k) v ++ rest)
        ≡ read (in_blob name (size + weight * v) []) out rest
  unfolding read next to_le_bytes
  read_size zero v weight size name rest h =
      let small : v % 256 ≡ v = omega arith in rw (append-nil out, small)
  read_size (suc k) v weight size name rest h =
      let smaller : v / 256 < 256 ^ suc k = omega (arith, pow-suc 256 (suc k)) in
      let parts : v ≡ v / 256 * 256 + v % 256 = omega arith in
      let total : size + weight * (v % 256) + weight * 256 * (v / 256) ≡ size + weight * v =
        omega (arith, ap (λ (t : ℕ). weight * t) parts) in
      size_step k weight size (v % 256) name (to_le_bytes (suc k) (v / 256) ++ rest)
      ∙ read_size k (v / 256) (weight * 256) (size + weight * (v % 256)) name rest smaller
      ∙ ap (λ t. read (in_blob name t []) out rest) total

-- A text with no newline has none in its bytes.
utf8_char-no_newline : (c : ℕ) → (c == newline) ≡ false → Lacks newline (utf8_char c)
unfolding utf8_char
utf8_char-no_newline c h = ground arith

bytes-no_newline : (s : Str) → contains newline s ≡ false → Lacks newline (bytes s)
unfolding bytes contains
bytes-no_newline [] h = tt
bytes-no_newline (c ∷ s) h =
    All-append _ (utf8_char c) (bytes s) (utf8_char-no_newline c (ground arith))
      (bytes-no_newline s (ground arith))

-- The names that the reader can tell from what follows.
abbrev pub IsKey : ValidField → Type 0
IsKey f = Lacks b'=' (as_bytes f) × Lacks newline (as_bytes f)

-- The reader takes back one field that the source adds, whatever follows.
read-encoded :
    (out : Fields) (f : ValidField) (payload : Str) (rest : Bytes)
    → IsKey f
    → len payload < u64_mod
    → read (in_name []) out (encoded f payload rest)
      ≡ read (in_name []) (out ++ (as_bytes f, bytes payload) ∷ []) rest
read-encoded out f payload rest key fits = elim (Bool-cases (contains newline payload)) [
  | inr plain ↦ rw plain (
      read_name out (as_bytes f) (b'=' ∷ (bytes payload ++ newline ∷ rest)) [] key.0 key.1
      ∙ at_equals (bytes payload ++ newline ∷ rest)
      ∙ read_value out (as_bytes f) (bytes payload) rest [] (bytes-no_newline payload plain))
  | inl explicit ↦
      let same : len payload % u64_mod ≡ len payload = omega arith in
      let sum : 0 + 1 * len payload ≡ len payload = omega arith in
      let after = bytes payload ++ newline ∷ rest in
      rw (explicit, same)
        (read_name out (as_bytes f) (newline ∷ (to_le_bytes 8 (len payload) ++ after)) [] key.0
            key.1
          ∙ at_newline (to_le_bytes 8 (len payload) ++ after)
          ∙ read_size out 7 (len payload) 1 0 (as_bytes f) after fits
          ∙ ap (λ t. read (in_blob (as_bytes f) t []) out after) sum
          ∙ read_blob out (as_bytes f) (bytes payload) rest [])
]
  where
    at_equals :
        (s : Bytes)
        → read (in_name ([] ++ as_bytes f)) out (b'=' ∷ s) ≡ read (in_value (as_bytes f) []) out s
    at_equals s = unfold read next in rw (append-nil out)

    at_newline :
        (s : Bytes)
        → read (in_name ([] ++ as_bytes f)) out (newline ∷ s)
          ≡ read (in_size (as_bytes f) 8 1 0) out s
    at_newline s = unfold read next in rw (append-nil out)

-- Fields in their encoding, one behind the other.
abbrev pub encode_all : List (ValidField × Str) → Bytes
encode_all [] = []
encode_all ((f, payload) ∷ fs) = encoded f payload (encode_all fs)

abbrev pub IsSendable : ValidField × Str → Type 0
IsSendable (f, payload) = IsKey f × (len payload < u64_mod)

abbrev pub read_as : ValidField × Str → Bytes × Bytes
read_as (f, payload) = (as_bytes f, bytes payload)

read-encode_all :
    (out : Fields) (fs : List (ValidField × Str))
    → All IsSendable fs
    → read (in_name []) out (encode_all fs) ≡ some (out ++ map read_as fs)
read-encode_all out [] h = rw append-nil (unfold read in refl)
read-encode_all out ((f, payload) ∷ fs) ((key, fits), hs) =
    read-encoded out f payload (encode_all fs) key fits
    ∙ read-encode_all (out ++ (as_bytes f, bytes payload) ∷ []) fs hs
    ∙ ap some (append_assoc out ((as_bytes f, bytes payload) ∷ []) (map read_as fs))

pub decode-encode_all :
    (fs : List (ValidField × Str))
    → All IsSendable fs
    → decode (encode_all fs) ≡ some (map read_as fs)
unfolding decode
decode-encode_all fs h = read-encode_all [] fs h
