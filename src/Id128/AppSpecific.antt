-- ===== src/Id128/AppSpecific.antt =====
-- The IDs of an application are UUIDs of version 4 and of the DCE variant.
use libsystemd_rs.Base.{
  ℕ, zero, suc, ◌/◌, ◌≤◌, ◌<◌, [], ◌∷◌, length, Bytes, ok, ◌≡◌, ◌≢◌, refl, ◌∙◌, ap, arith,
}
use libsystemd_rs.Error.{context}
use libsystemd_rs.Id128.{
  Crates, Id128, get, set, take, marked, version_4, variant_dce, try_from_slice, hashed_id,
  app_specific,
}

-- `Uuid::from_slice` takes any 16 bytes.
abbrev pub TakesSixteen : Crates → Type 0
TakesSixteen crates = (slice : Bytes) → length slice ≡ 16 → crates.from_slice slice ≡ ok slice

get-set : (n v : ℕ) (bs : Bytes) → n < length bs → get n (set n v bs) ≡ v
unfolding get set
get-set n v [] h = absurd (omega arith)
get-set zero v (b ∷ bs) h = refl
get-set (suc n) v (b ∷ bs) h = get-set n v bs (omega arith)

get-set_other : (m n v : ℕ) (bs : Bytes) → m ≢ n → get m (set n v bs) ≡ get m bs
unfolding get set
get-set_other m n v [] h = refl
get-set_other zero zero v (b ∷ bs) h = absurd (h refl)
get-set_other zero (suc n) v (b ∷ bs) h = refl
get-set_other (suc m) zero v (b ∷ bs) h = refl
get-set_other (suc m) (suc n) v (b ∷ bs) h = get-set_other m n v bs (omega arith)

length-set : (n v : ℕ) (bs : Bytes) → length (set n v bs) ≡ length bs
unfolding set
length-set n v [] = refl
length-set zero v (b ∷ bs) = refl
length-set (suc n) v (b ∷ bs) = ap suc (length-set n v bs)

get-take : (n k : ℕ) (bs : Bytes) → n < k → get n (take k bs) ≡ get n bs
unfolding get take
get-take n zero bs h = absurd (omega arith)
get-take n (suc k) [] h = refl
get-take zero (suc k) (b ∷ bs) h = refl
get-take (suc n) (suc k) (b ∷ bs) h = get-take n k bs (omega arith)

length-take : (k : ℕ) (bs : Bytes) → k ≤ length bs → length (take k bs) ≡ k
unfolding take
length-take zero bs h = refl
length-take (suc k) [] h = absurd (omega arith)
length-take (suc k) (b ∷ bs) h = ap suc (length-take k bs (omega arith))

length-marked : (h : Bytes) → length (marked h) ≡ length h
unfolding marked
length-marked h = length-set 8 _ (set 6 _ h) ∙ length-set 6 _ h

get_6-marked : (h : Bytes) → 6 < length h → get 6 (marked h) ≡ version_4 (get 6 h)
unfolding marked
get_6-marked h lt = get-set_other 6 8 _ (set 6 _ h) (omega arith) ∙ get-set 6 _ h lt

get_8-marked : (h : Bytes) → 8 < length h → get 8 (marked h) ≡ variant_dce (get 8 h)
unfolding marked
get_8-marked h lt =
    get-set 8 _ (set 6 (version_4 (get 6 h)) h)
      (omega (arith, length-set 6 (version_4 (get 6 h)) h))
    ∙ ap variant_dce (get-set_other 8 6 _ h (omega arith))

get-marked : (n : ℕ) (h : Bytes) → n ≢ 6 → n ≢ 8 → get n (marked h) ≡ get n h
unfolding marked
get-marked n h not_6 not_8 =
    get-set_other n 8 _ (set 6 (version_4 (get 6 h)) h) not_8 ∙ get-set_other n 6 _ h not_6

-- If the hash has 32 bytes and uuid takes any 16, the ID of an application is built and has 16 bytes;
-- the version in byte 6 is 4, the variant in byte 8 is the DCE's, and any other byte is the hash's.
pub app_specific_lem :
    (crates : Crates) (this app : Id128) (hashed : Bytes) (n : ℕ)
    → TakesSixteen crates
    → crates.hmac this.uuid_v4 app.uuid_v4 ≡ ok hashed
    → length hashed ≡ 32
    → n < 16
    → n ≢ 6
    → n ≢ 8
    → (r : Id128) × (app_specific crates this app ≡ ok r)
      × (length r.uuid_v4 ≡ 16)
      × (get 6 r.uuid_v4 / 16 ≡ 4)
      × (get 8 r.uuid_v4 / 64 ≡ 2)
      × (get n r.uuid_v4 ≡ get n hashed)
unfolding app_specific hashed_id try_from_slice context
app_specific_lem crates this app hashed n takes hmac full lt not_6 not_8 =
    let r = take 16 (marked hashed) in
    let long : length r ≡ 16 =
      length-take 16 (marked hashed) (omega (arith, length-marked hashed, full)) in
    (
      record { uuid_v4 = r },
      ground (arith, hmac, full, takes r long),
      long,
      omega (
        arith,
        get-take 6 16 (marked hashed) (omega arith),
        get_6-marked hashed (omega (arith, full)),
      ),
      omega (
        arith,
        get-take 8 16 (marked hashed) (omega arith),
        get_8-marked hashed (omega (arith, full)),
      ),
      get-take n 16 (marked hashed) lt ∙ get-marked n hashed not_6 not_8,
    )
