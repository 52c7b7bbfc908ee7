-- ===== src/Tests/Ids.antt =====
-- src/id128.rs
use libsystemd_rs.Base.{
  Str, equal, ℕ, suc, Option-cases, inl, inr, keep, not, ◌++◌, ◌/◌, ◌==◌, [], ◌∷◌, Option, none,
  some, if◌then◌else◌, length, Bytes, codes, Result, ok, err, ◌≡◌, refl, arith,
}
use libsystemd_rs.Id128.AppSpecific.{TakesSixteen, app_specific_lem}
use libsystemd_rs.Id128.Files.{dashes_from, with_dashes, ReadsHyphenated, get-hex}
use libsystemd_rs.Id128.Hex.{pair, digit_value, unhex, ReadsSimple}
use libsystemd_rs.Id128.{
  hex_bytes, dashed_hex, get_machine, get_boot, Crates, Id128, UuidError, get, lower_hex,
  app_specific,
}
use libsystemd_rs.Os.{OsError}
use libsystemd_rs.Unit.{hex_digit}

-- The text without its dashes
abbrev without_dashes : Str → Str
without_dashes = keep (λ c. not (c == b'-'))

abbrev read_or_refuse : Option Bytes → Result UuidError Bytes
read_or_refuse none = err (record { text = codes "invalid character" })
read_or_refuse (some bs) =
    if length bs == 16 then ok bs else err (record { text = codes "invalid length" })

abbrev sample_hash : Bytes
sample_hash =
    0 ∷ 1 ∷ 2 ∷ 3 ∷ 4 ∷ 5 ∷ 255 ∷ 7 ∷ 255 ∷ 9 ∷ 10 ∷ 11 ∷ 12 ∷ 13 ∷ 14 ∷ 15 ∷ 0 ∷ 1 ∷ 2 ∷ 3 ∷ 4 ∷ 5
    ∷ 6 ∷ 7 ∷ 8 ∷ 9 ∷ 10 ∷ 11 ∷ 12 ∷ 13 ∷ 14 ∷ 15 ∷ []

-- A uuid crate that knows the simple form only, and a hash that counts up.
abbrev sample_crates : Crates
sample_crates = record {
  from_slice = λ slice. read_or_refuse (some slice);
  parse_uuid = λ s. read_or_refuse (unhex (without_dashes s));
  hyphenated = λ bs. with_dashes (hex_bytes bs);
  hmac = λ key message. ok sample_hash;
}

abbrev sample_id : Id128
sample_id = record {
  uuid_v4 =
      0xd8 ∷ 0x6a ∷ 0x4e ∷ 0x9e ∷ 0x4d ∷ 0xca ∷ 0x45 ∷ 0xc5 ∷ 0xbc ∷ 0xd9 ∷ 0x84 ∷ 0x64 ∷ 0x09
      ∷ 0xbf ∷ 0xa1 ∷ 0xae ∷ [];
}

hex_cases : lower_hex sample_id ≡ codes "d86a4e9e4dca45c5bcd9846409bfa1ae"
unfolding lower_hex hex_digit
hex_cases = refl

dashes_dropped : (n : ℕ) (s : Str) → without_dashes (dashes_from n s) ≡ without_dashes s
unfolding dashes_from
dashes_dropped n [] = refl
dashes_dropped n (c ∷ s) = ground (arith, dashes_dropped (suc n) s)

digits-without_dashes : (s : Str) (bs : Bytes) → unhex s ≡ some bs → without_dashes s ≡ s
unfolding unhex pair
digits-without_dashes [] bs h = refl
digits-without_dashes (h ∷ []) bs e = cc
digits-without_dashes (h ∷ l ∷ s) bs e = elim (Option-cases (unhex s)) [
  | inl bad ↦ ground (arith, bad, Option-cases (digit_value h), Option-cases (digit_value l))
  | inr (rest, good) ↦ ground (arith, good, digits-without_dashes s rest good)
]

sample-ReadsSimple : ReadsSimple sample_crates
sample-ReadsSimple s bs read full =
    rw (digits-without_dashes s bs read) (rw read (ground (arith, full)))

sample-TakesSixteen : TakesSixteen sample_crates
sample-TakesSixteen slice full = ground (arith, full)

sample-ReadsHyphenated : ReadsHyphenated sample_crates
unfolding with_dashes
sample-ReadsHyphenated = record {
  displays = λ bs. refl;
  parses = λ s bs read full.
      rw (dashes_dropped 0 s)
        (rw (digits-without_dashes s bs read) (rw read (ground (arith, full))));
}

-- A machine with the two files
abbrev sample_files : Str → Result OsError (Result OsError Str)
sample_files path =
    if equal path (codes "/etc/machine-id")
    then ok (ok (lower_hex sample_id ++ codes "\n"))
    else if equal path (codes "/proc/sys/kernel/random/boot_id")
    then ok (ok (dashed_hex sample_crates sample_id ++ codes "\n"))
    else err (record { text = codes "ENOENT"; raw_os_error = some 2 })

get-hex_example :
    (get_machine sample_crates sample_files ≡ ok sample_id)
    × (get_boot sample_crates sample_files ≡ ok sample_id)
unfolding equal
get-hex_example =
    get-hex sample_crates sample_id (codes "\n") sample-ReadsSimple sample-ReadsHyphenated refl
      (ground arith) (ground arith) sample_files refl refl

app_specific_lem_example :
    (r : Id128) × (app_specific sample_crates sample_id sample_id ≡ ok r)
    × (length r.uuid_v4 ≡ 16)
    × (get 6 r.uuid_v4 / 16 ≡ 4)
    × (get 8 r.uuid_v4 / 64 ≡ 2)
    × (get 5 r.uuid_v4 ≡ get 5 sample_hash)
app_specific_lem_example =
    app_specific_lem sample_crates sample_id sample_id sample_hash 5 sample-TakesSixteen refl refl
      (omega arith) (omega arith) (omega arith)
