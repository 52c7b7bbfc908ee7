-- ===== src/Id128/Files.antt =====
-- The IDs of the machine and of the boot are read from files that hold their text.
use libsystemd_rs.Base.{
  ℕ, suc, ◌<◌, ◌==◌, Bool, true, false, ◌||◌, [], ◌∷◌, ◌++◌, some, length, if◌then◌else◌,
  is_whitespace, trim_end, Str, Bytes, IsByte, All, Result, codes, ok, ◌≡◌, refl, ap, ◌∙◌, arith,
}
use libsystemd_rs.Error.{context}
use libsystemd_rs.Os.{OsError}
use libsystemd_rs.Id128.Hex.{unhex, ReadsSimple, parse_str-lower_hex, unhex-hex_bytes}
use libsystemd_rs.Id128.{
  Crates, Id128, hex_bytes, lower_hex, dashed_hex, parse_str, get_machine, get_boot,
}
use libsystemd_rs.Unit.{hex_digit}

module _ (p : ℕ → Bool) where
  trim_end-All : (w : Str) → All (λ c. p c ≡ true) w → trim_end p w ≡ []
  unfolding trim_end
  trim_end-All [] h = refl
  trim_end-All (c ∷ w) (h, hs) = ground (arith, trim_end-All w hs)

  trim_end-append :
      (s w : Str) → All (λ c. p c ≡ false) s → All (λ c. p c ≡ true) w → trim_end p (s ++ w) ≡ s
  unfolding trim_end
  trim_end-append [] w h hw = trim_end-All w hw
  trim_end-append (c ∷ s) w (h, hs) hw = ground (arith, trim_end-append s w hs hw)

-- The text with a dash behind the characters 8, 12, 16 and 20: the hyphenated form of a UUID.
unfoldable pub dashes_from : ℕ → Str → Str
dashes_from n [] = []
dashes_from n (c ∷ s) =
    let rest = dashes_from (suc n) s in
    if n == 8 || n == 12 || n == 16 || n == 20 then b'-' ∷ c ∷ rest else c ∷ rest

unfoldable pub with_dashes : Str → Str
unfolding dashes_from
with_dashes s = dashes_from 0 s

-- uuid displays and parses the hyphenated form of 32 digits.
pub record ReadsHyphenated (crates : Crates) : Type 0 where
  pub displays : (bs : Bytes) → crates.hyphenated bs ≡ with_dashes (hex_bytes bs)
  pub parses :
      (s : Str) (bs : Bytes)
      → unhex s ≡ some bs
      → length bs ≡ 16
      → crates.parse_uuid (with_dashes s) ≡ ok bs

abbrev IsVisible : ℕ → Type 0
IsVisible c = is_whitespace c ≡ false

hex_digit-IsVisible : (d : ℕ) → d < 16 → IsVisible (hex_digit d)
unfolding hex_digit
hex_digit-IsVisible d h = ground arith

hex_bytes-IsVisible : (bs : Bytes) → All IsByte bs → All IsVisible (hex_bytes bs)
unfolding hex_bytes
hex_bytes-IsVisible [] h = tt
hex_bytes-IsVisible (b ∷ bs) (h, hs) = (
  hex_digit-IsVisible _ (omega arith),
  (hex_digit-IsVisible _ (omega arith), hex_bytes-IsVisible bs hs),
)

dashes_from-IsVisible : (n : ℕ) (s : Str) → All IsVisible s → All IsVisible (dashes_from n s)
unfolding dashes_from
dashes_from-IsVisible n [] h = tt
dashes_from-IsVisible n (c ∷ s) (h, hs) = ground (arith, dashes_from-IsVisible (suc n) s hs)

module _ (crates : Crates) (i : Id128) (w : Str) where
  parse_str-dashed_hex :
      ReadsHyphenated crates
      → length i.uuid_v4 ≡ 16
      → All IsByte i.uuid_v4
      → parse_str crates (dashed_hex crates i) ≡ ok i
  unfolding parse_str dashed_hex context
  parse_str-dashed_hex reads full valid = rw (reads.displays i.uuid_v4) (
      rw (reads.parses (hex_bytes i.uuid_v4) i.uuid_v4 (unhex-hex_bytes i.uuid_v4 valid) full) refl)

  lower_hex-IsVisible : All IsByte i.uuid_v4 → All IsVisible (lower_hex i)
  unfolding lower_hex
  lower_hex-IsVisible valid = hex_bytes-IsVisible i.uuid_v4 valid

  dashed_hex-IsVisible :
      ReadsHyphenated crates → All IsByte i.uuid_v4 → All IsVisible (dashed_hex crates i)
  unfolding dashed_hex with_dashes
  dashed_hex-IsVisible reads valid =
      rw (reads.displays i.uuid_v4)
        (dashes_from-IsVisible 0 (hex_bytes i.uuid_v4) (hex_bytes-IsVisible i.uuid_v4 valid))

  -- The machine's ID is read from `/etc/machine-id` if that holds its 32 digits, and the boot's from
  -- `/proc/sys/kernel/random/boot_id` if that holds the hyphenated form, with any whitespace behind
  -- them, if uuid reads both forms.
  pub get-hex :
      ReadsSimple crates
      → ReadsHyphenated crates
      → length i.uuid_v4 ≡ 16
      → All IsByte i.uuid_v4
      → All (λ c. is_whitespace c ≡ true) w
      → (open_file : Str → Result OsError (Result OsError Str))
      → open_file (codes "/etc/machine-id") ≡ ok (ok (lower_hex i ++ w))
      → open_file (codes "/proc/sys/kernel/random/boot_id") ≡ ok (ok (dashed_hex crates i ++ w))
      → (get_machine crates open_file ≡ ok i) × (get_boot crates open_file ≡ ok i)
  unfolding get_machine get_boot context
  get-hex simple hyphenated full valid blank open_file machine boot = (
    rw machine (
        ap (parse_str crates)
          (trim_end-append is_whitespace (lower_hex i) w (lower_hex-IsVisible valid) blank)
        ∙ parse_str-lower_hex crates i simple full valid),
    rw boot (
        ap (parse_str crates) (
          trim_end-append is_whitespace (dashed_hex crates i) w
            (dashed_hex-IsVisible hyphenated valid) blank)
        ∙ parse_str-dashed_hex hyphenated full valid),
  )
