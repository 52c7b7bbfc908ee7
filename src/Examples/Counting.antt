-- ===== src/Examples/Counting.antt =====
-- One run of examples/persistent_state.rs, from the open state file on.
use libsystemd_rs.Base.{
  ℕ, suc, ◌+◌, ◌<◌, true, false, List, [], ◌∷◌, All, some, Bytes, bytes, Result, ok, err, ◌≡◌, refl,
  ap, ◌∙◌, arith,
}
use libsystemd_rs.Daemon.Notify.Ready.{notify-ready}
use libsystemd_rs.Daemon.Notify.Sent.{IsSendable}
use libsystemd_rs.Daemon.Notify.{ancillary, notify_key, notify_with_fds}
use libsystemd_rs.Daemon.State.{NotifyState, message}
use libsystemd_rs.Decimal.Signed.{ℤ}
use libsystemd_rs.Env.{var}
use libsystemd_rs.Examples.Machine.{
  OpenFile, FileCall, set_file, Host, World, Failure, Run, and_then, opened_by, or_none, overwrite,
  rewound, wrote, told,
}
use libsystemd_rs.Examples.Open.{IsOpen, Leaves, on_file, changed-Leaves, read_byte-Leaves}
use libsystemd_rs.Examples.PersistentState.{increment, finish, count_up}
use libsystemd_rs.Examples.Supervised.{Works}

-- A run goes on with `t` from a world where the open file is as stated and all else as before.
abbrev pub Reaches :
    {B : Type 0} → ℤ → ℕ → OpenFile → World → Run B → Result Failure B × World → Type 0
Reaches fd h g w t r =
    (v : World) × (r ≡ t v) × IsOpen fd h g v × (v.env ≡ w.env) × (v.store ≡ w.store)

pub and_then-Reaches :
    {A B : Type 0} (fd : ℤ) (h : ℕ) (f g : OpenFile) (w : World) (a : A) (t : Run B)
    (r : Result Failure A × World) (k : A → Run B)
    → Leaves fd h f w a r
    → ((v : World) → IsOpen fd h f v → Reaches fd h g v t (k a v))
    → Reaches fd h g w t (and_then r k)
and_then-Reaches fd h f g w a t (err e, v) k first rest = absurd (cc (first.returns))
and_then-Reaches fd h f g w a t (ok x, v) k first rest =
    let same : x ≡ a = cc (first.returns) in
    let (u, going, is_open, env, store) = rest v first.is_open in
    (u, ap (λ x. k x v) same ∙ going, is_open, env ∙ first.env_kept, store ∙ first.store_kept)

module _ {Addr : Type 0} (host : Host Addr) (works : Works host) where
  -- A notification whose entries may be sent reaches the manager.
  pub told_ok :
      (state : List NotifyState) (fds : List ℤ) (w : World)
      → All IsSendable state
      → var notify_key w.env ≡ some works.socket
      → told host (notify_with_fds host.os false state fds) w ≡ (
        ok true,
        record w {
          store =
              host.manager.handle
                (bytes (message state))
                (opened_by w.table (or_none (ancillary fds)))
                w.store;
        },
      )
  told_ok state fds w valid given =
      rw
        (notify-ready host.os state fds w.env works.socket works.addr given valid works.resolves
          works.opens (works.sends _))
        refl

  -- A call that only changes the open file, before what follows it
  pub changed-Reaches :
      {B : Type 0} (c : FileCall) (fd : ℤ) (c_of : OpenFile → OpenFile) (h : ℕ) (f g : OpenFile)
      (w : World) (t : Run B) (k : Unit {0} → Run B)
      → IsOpen fd h f w
      → ((v : World) → IsOpen fd h (c_of f) v → Reaches fd h g v t (k tt v))
      → Reaches fd h g w t
          (and_then (on_file host works.no_failure c fd (λ h f. set_file host h (c_of f)) w) k)
  changed-Reaches c fd c_of h f g w t k is_open =
      and_then-Reaches fd h (c_of f) g w tt t _ k
        (changed-Leaves host works.no_failure c fd c_of h f w is_open)

  increment_ok : (b : ℕ) (w : World) → b < 255 → increment b w ≡ (ok (suc b), w)
  increment_ok b w small = ground arith

  increment-Leaves :
      (fd : ℤ) (h b : ℕ) (f : OpenFile) (w : World)
      → b < 255
      → IsOpen fd h f w
      → Leaves fd h f w (suc b) (increment b w)
  increment-Leaves fd h b f w small is_open =
      rw (increment_ok b w small)
        (record { returns = refl; is_open = is_open; env_kept = refl; store_kept = refl })

  -- A byte below 255 is one more at the end, and is handed to `finish`.
  pub count_up-Reaches :
      (fd : ℤ) (h b : ℕ) (bs : Bytes) (w : World)
      → b < 255
      → IsOpen fd h (record { content = b ∷ bs; offset = 0 }) w
      → Reaches fd h
          (record { content = suc b ∷ bs; offset = 0 })
          w
          (finish host (suc b))
          (count_up host fd w)
  unfolding count_up
  count_up-Reaches fd h b bs w small is_open =
      let back : OpenFile → OpenFile = λ f. record { content = f.content; offset = 0 } in
      let put : OpenFile → OpenFile = λ f. record {
        content = overwrite f.offset (suc b ∷ []) f.content;
        offset = f.offset + 1;
      } in
      and_then-Reaches fd h _ _ w b _ _ _
        (read_byte-Leaves host works.no_failure fd h b bs w is_open)
        (λ w1 open1. changed-Reaches (rewound fd) fd back h _ _ w1 _ _ open1 (λ w2 open2.
          and_then-Reaches fd h _ _ w2 (suc b) _ _ _ (increment-Leaves fd h b _ w2 small open2)
            (λ w3 open3. changed-Reaches (wrote fd) fd put h _ _ w3 _ _ open3 (λ w4 open4.
              changed-Reaches (rewound fd) fd back h _ _ w4 _ _ open4
                (λ w5 open5. (w5, refl, open5, refl, refl))))))
