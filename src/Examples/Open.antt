-- ===== src/Examples/Open.antt =====
-- What the calls on an open file leave.
use libsystemd_rs.Base.{ℕ, ◌∷◌, none, some, Bytes, Result, ok, err, ◌≡◌, refl, ap, ◌∙◌, arith}
use libsystemd_rs.Decimal.Signed.{ℤ}
use libsystemd_rs.Examples.Machine.{
  OpenFile, byte_at, FileCall, read_from, Host, World, Failure, Run, and_then, ◌>>=◌, ◌>>◌, lookup,
  call, handle_of, set_file, file_of, taken, read_byte,
}

-- A descriptor stands for an open file of some contents and offset.
abbrev pub IsOpen : ℤ → ℕ → OpenFile → World → Type 0
IsOpen fd h f w = (lookup fd w.table ≡ some h) × (w.files h ≡ f)

-- A run from a world returns a value, leaves the open file as stated, and the rest as it was.
pub record Leaves {A : Type 0} (fd : ℤ) (h : ℕ) (f : OpenFile) (w : World) (a : A)
    (r : Result Failure A × World) : Type 0 where
  pub returns : r.0 ≡ ok a
  pub is_open : IsOpen fd h f r.1
  pub env_kept : r.1.env ≡ w.env
  pub store_kept : r.1.store ≡ w.store

pub and_then-Leaves :
    {A B : Type 0} (fd : ℤ) (h : ℕ) (f g : OpenFile) (w : World) (a : A) (b : B)
    (r : Result Failure A × World) (k : A → Run B)
    → Leaves fd h f w a r
    → ((v : World) → IsOpen fd h f v → Leaves fd h g v b (k a v))
    → Leaves fd h g w b (and_then r k)
and_then-Leaves fd h f g w a b (err e, v) k first rest = absurd (cc (first.returns))
and_then-Leaves fd h f g w a b (ok x, v) k first rest =
    let same : x ≡ a = cc (first.returns) in
    rw same (
      let then_ = rest v first.is_open in
      record {
        returns = then_.returns;
        is_open = then_.is_open;
        env_kept = then_.env_kept ∙ first.env_kept;
        store_kept = then_.store_kept ∙ first.store_kept;
      })

pub and_then_ok :
    {A B : Type 0} (r : Result Failure A × World) (k : A → Run B) (a : A) (v : World)
    → r ≡ (ok a, v)
    → and_then r k ≡ k a v
and_then_ok r k a v same = ap (λ r. and_then r k) same

pub handle_of_ok :
    {Addr : Type 0} (host : Host Addr) (fd : ℤ) (h : ℕ) (w : World)
    → lookup fd w.table ≡ some h
    → handle_of host fd w ≡ (ok h, w)
handle_of_ok host fd h w found = rw (found, handle_of) refl

module _ {Addr : Type 0} (host : Host Addr) (works : (c : FileCall) → host.failure c ≡ none) where
  pub call_ok : (c : FileCall) (w : World) → call host c w ≡ (ok tt, w)
  call_ok c w = rw (works c, call) refl

  -- A call on the open file that a descriptor stands for
  abbrev pub on_file : {A : Type 0} → FileCall → ℤ → (ℕ → OpenFile → Run A) → Run A
  on_file c fd m = do call host c; h ← handle_of host fd; f ← file_of host h; m h f

  pub on_file_ok :
      {A : Type 0} (c : FileCall) (fd : ℤ) (m : ℕ → OpenFile → Run A) (h : ℕ) (w : World)
      → lookup fd w.table ≡ some h
      → on_file c fd m w ≡ m h (w.files h) w
  on_file_ok c fd m h w found =
      and_then_ok _ _ tt w (call_ok c w) ∙ and_then_ok _ _ h w (handle_of_ok host fd h w found)

  pub set_file-Leaves :
      (fd : ℤ) (h : ℕ) (f g : OpenFile) (w : World)
      → IsOpen fd h f w
      → Leaves fd h g w tt (set_file host h g w)
  set_file-Leaves fd h f g w (found, same) = record {
    returns = refl;
    is_open = (found, ground arith);
    env_kept = refl;
    store_kept = refl;
  }

  -- A call that replaces the open file by a function of it
  pub changed-Leaves :
      (c : FileCall) (fd : ℤ) (g : OpenFile → OpenFile) (h : ℕ) (f : OpenFile) (w : World)
      → IsOpen fd h f w
      → Leaves fd h (g f) w tt (on_file c fd (λ h f. set_file host h (g f)) w)
  changed-Leaves c fd g h f w (found, same) =
      rw (on_file_ok c fd (λ h f. set_file host h (g f)) h w found, same)
        (set_file-Leaves fd h f (g f) w (found, same))

  pub read_byte-Leaves :
      (fd : ℤ) (h b : ℕ) (bs : Bytes) (w : World)
      → IsOpen fd h (record { content = b ∷ bs; offset = 0 }) w
      → Leaves fd h (record { content = b ∷ bs; offset = 1 }) w b (read_byte host fd w)
  read_byte-Leaves fd h b bs w (found, same) =
      let m : ℕ → OpenFile → Run ℕ = λ h f. taken host h f (byte_at f.offset f.content) in
      rw (on_file_ok (read_from fd) fd m h w found, same)
        (record {
          returns = refl;
          is_open = (found, ground arith);
          env_kept = refl;
          store_kept = refl;
        })
