-- ===== src/Logging/Stream/Parsed.antt =====
-- Which texts denote a stream, and when the process is connected to the journal.
use libsystemd_rs.Base.{
  true, [], ◌∷◌, ◌++◌, some, Str, Lacks, Result, ok, Result-cases, Option-cases, ◌≡◌, ◌↔◌, refl,
  arith, inl, inr,
}
use libsystemd_rs.Decimal
use libsystemd_rs.Decimal.{u64_max}
use libsystemd_rs.Env.{Env, var}
use libsystemd_rs.Error.{context, option_context}
use libsystemd_rs.Logging.Stream.{
  JournalStream, FileStat, split_colon, parse, from_env_impl, stream_key, same_stream,
  connected_to_journal,
}
use libsystemd_rs.Os.{OsError}

-- `s` is the number of a device, a colon and the number of an inode.
abbrev pub Denotes : Str → JournalStream → Type 0
Denotes s stream =
    (device_s : Str) × (inode_s : Str) × (s ≡ device_s ++ b':' ∷ inode_s)
    × Lacks b':' device_s
    × (Decimal.parse u64_max device_s ≡ ok stream.device)
    × (Decimal.parse u64_max inode_s ≡ ok stream.inode)

split_colon_sound : (s a b : Str) → split_colon s ≡ some (a, b) → (s ≡ a ++ b':' ∷ b) × Lacks b':' a
unfolding split_colon
split_colon_sound [] a b h = cc
split_colon_sound (c ∷ s) [] b h = ground (arith, Option-cases (split_colon s))
split_colon_sound (c ∷ s) (x ∷ a) b h =
    ground (arith, Option-cases (split_colon s), split_colon_sound s a b)

split_colon_complete : (a b : Str) → Lacks b':' a → split_colon (a ++ b':' ∷ b) ≡ some (a, b)
unfolding split_colon
split_colon_complete [] b h = refl
split_colon_complete (c ∷ a) b (h, hs) = ground (arith, split_colon_complete a b hs)

-- A text is read exactly if it denotes a stream, and as that stream: two numbers of 64 bits with the
-- first colon between them.
pub parse_iff : (s : Str) (stream : JournalStream) → (parse s ≡ ok stream) ↔ Denotes s stream
unfolding parse context option_context
parse_iff s stream = (parse-Denotes, Denotes-parse)
  where
    parse-Denotes : parse s ≡ ok stream → Denotes s stream
    parse-Denotes h = elim (Option-cases (split_colon s)) [
      | inl bad ↦ ground (arith, bad)
      | inr ((a, b), good) ↦
          let (same, lacks) = split_colon_sound s a b good in
          (
            a,
            b,
            same,
            lacks,
            ground (
              arith,
              good,
              Result-cases (Decimal.parse u64_max a),
              Result-cases (Decimal.parse u64_max b),
            ),
            ground (
              arith,
              good,
              Result-cases (Decimal.parse u64_max a),
              Result-cases (Decimal.parse u64_max b),
            ),
          )
    ]

    Denotes-parse : Denotes s stream → parse s ≡ ok stream
    Denotes-parse (a, b, same, lacks, first, second) =
        let found : split_colon s ≡ some (a, b) = rw same (split_colon_complete a b lacks) in
        ground (arith, found, first, second)

same_stream_iff : (a b : JournalStream) → (same_stream a b ≡ true) ↔ (a ≡ b)
same_stream_iff a b = ground arith

-- The process is connected to the journal exactly if JOURNAL_STREAM denotes the stream of the device
-- and the inode that `fstat` tells of its standard error.
pub connected_to_journal_iff :
    (stderr : Result OsError FileStat) (env : Env)
    → (connected_to_journal stderr env ≡ true) ↔ (
        (s : Str) × (stream : JournalStream) × (var stream_key env ≡ some s)
        × Denotes s stream
        × (stderr ≡ ok (record { st_dev = stream.device; st_ino = stream.inode })))
unfolding connected_to_journal from_env_impl option_context
connected_to_journal_iff stderr env = (
  λ h. elim (Option-cases (var stream_key env)) [
    | inl unset ↦ absurd (ground (arith, unset))
    | inr (s, set) ↦ elim (Result-cases (parse s)) [
      | inl (e, bad) ↦ absurd (ground (arith, set, bad))
      | inr (stream, good) ↦ (
        s,
        stream,
        set,
        (parse_iff s stream).0 good,
        ground (arith, set, good, Result-cases stderr),
      )
    ]
  ],
  λ (s, stream, set, denotes, same). ground (arith, set, (parse_iff s stream).1 denotes, same),
)
