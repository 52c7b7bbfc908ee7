-- ===== src/Logging/Send.antt =====
-- `journal_send` from the datagram on, with its slow path through a memfd. The operating system's
-- answers are a parameter. Beside its result each function returns the effects that it had, in
-- order: a call that fails has none.
pub mod Effects
pub mod Delivered
use libsystemd_rs.Base.{
  ℕ, Bool, true, false, List, [], ◌∷◌, ◌++◌, Option, none, some, ◌==◌, if◌then◌else◌, length, Str,
  Bytes, codes, Result, ok, err, map_ok,
}
use libsystemd_rs.Decimal.Signed.{ℤ}
use libsystemd_rs.Error.{SdError, context, sd_error_display}
use libsystemd_rs.Logging.Message.{journal_data}
use libsystemd_rs.Logging.Priority.{Priority}
use libsystemd_rs.Os.{OsError, os_error_display}

pub record System : Type 0 where
  pub unbound : Result OsError (Unit {0})
  pub send_to : Bytes → Result OsError ℕ
  pub memfd_create : Result OsError ℤ
  pub write_all : ℤ → Bytes → Result OsError (Unit {0})
  pub add_seals : ℤ → Result OsError (Unit {0})
  pub unix_addr : Result OsError (Unit {0})
  pub sendmsg : ℤ → Result OsError ℕ

pub data Effect : Type 0 where
  sent : Bytes → Effect
  created : ℤ → Effect
  wrote : ℤ → Bytes → Effect
  sealed passed closed : ℤ → Effect

abbrev pub Traced : Type 0 → Type 0
Traced A = Result SdError A × List Effect

-- A call with the effects that it has if it succeeds, and what follows it.
unfoldable pub after_ok :
    {A : Type 0} {B : Type 0} → Result SdError A → (A → List Effect) → (A → Traced B) → Traced B
after_ok (err e) effects k = (err e, [])
after_ok (ok a) effects k = let (r, later) = k a in (r, effects a ++ later)

-- The `File` is dropped on every way out of the block.
abbrev pub closing : {A : Type 0} → ℤ → Traced A → Traced A
closing fd (r, effects) = (r, effects ++ closed fd ∷ [])

abbrev pub socket_path : Str
socket_path = codes "/run/systemd/journal/socket"

-- `Some(90)` is `EMSGSIZE`.
abbrev pub is_too_long : OsError → Bool
is_too_long e = elim e.raw_os_error [ none ↦ false | some n ↦ n == 90 ]

print_failed_msg : Str
print_failed_msg = codes "failed to print to journal at '" ++ (socket_path ++ codes "'")

module _ (sys : System) where
  -- From `file.write_all` to the end of the function
  unfoldable pub pass_memfd : ℤ → Bytes → Traced ℕ
  unfolding context
  pass_memfd fd payload =
      after_ok (context (codes "failed to write to memfd") (sys.write_all fd payload))
        (λ _. wrote fd payload ∷ [])
        λ _.
          after_ok (context (codes "unable to seal memfd") (sys.add_seals fd)) (λ _. sealed fd ∷ [])
            λ _.
              after_ok (context (codes "unable to create new unix address") sys.unix_addr) (λ _. [])
                λ _.
                  after_ok (context (codes "sendmsg failed") (sys.sendmsg fd)) (λ _. passed fd ∷ [])
                    λ _. (ok (length payload), [])

  unfoldable pub send_memfd_payload : Bytes → Traced ℕ
  unfolding context pass_memfd
  send_memfd_payload payload =
      after_ok (context (codes "unable to create memfd") sys.memfd_create) (λ fd. created fd ∷ [])
        λ fd. closing fd (pass_memfd fd payload)

  -- The match on the result of `sock.send_to(&data, SD_JOURNAL_SOCK_PATH)`
  unfoldable pub after_send_to : Bytes → Result OsError ℕ → Traced ℕ
  unfolding context send_memfd_payload
  after_send_to payload (ok x) = (ok x, sent payload ∷ [])
  after_send_to payload (err e) =
      let (r, effects) = send_memfd_payload payload in
      if is_too_long e
      then (context (codes "sending with memfd failed") r, effects)
      else (context (codes "send_to failed") (err e), [])

  unfoldable pub send_data : Bytes → Traced ℕ
  unfolding after_send_to
  send_data payload = after_send_to payload (sys.send_to payload)

  unfoldable pub journal_send : Priority → Str → List (Str × Str) → Traced (Unit {0})
  unfolding context send_data print_failed_msg
  journal_send priority msg vars =
      after_ok (context (codes "failed to open datagram socket") sys.unbound) (λ _. [])
        λ _.
          let (r, effects) = send_data (journal_data priority msg vars) in
          (context print_failed_msg (map_ok (λ _. tt) r), effects)

  unfoldable pub journal_print : Priority → Str → Traced (Unit {0})
  unfolding journal_send
  journal_print priority msg = journal_send priority msg []
