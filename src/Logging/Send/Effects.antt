-- ===== src/Logging/Send/Effects.antt =====
-- The order of the effects.
use libsystemd_rs.Base.{
  ◌⊎◌, ℕ, List, [], ◌∷◌, ◌++◌, Str, Bytes, Result, ok, err, ◌≡◌, refl, inl, inr, Bool-cases,
}
use libsystemd_rs.Decimal.Signed.{ℤ}
use libsystemd_rs.Error.{SdError}
use libsystemd_rs.Logging.Message.{journal_data}
use libsystemd_rs.Logging.Priority.{Priority}
use libsystemd_rs.Os.{OsError}
use libsystemd_rs.Logging.Send.{
  System, Traced, after_ok, closing, Effect, sent, created, wrote, sealed, passed, closed,
  pass_memfd, send_memfd_payload, is_too_long, after_send_to, send_data, journal_send,
}

-- How far the sending of some data is. The numbers are the memfd's.
pub data Phase : Type 0 where
  idle done : Phase
  opened filled frozen handed : ℤ → Phase

-- The effects that are allowed in a phase: the memfd gets all of the data, then its seals, then it
-- is passed, and it may be closed at any time.
pub data Step (payload : Bytes) : Phase → Effect → Phase → Type 0 where
  send : Step payload idle (sent payload) done
  create : {fd : ℤ} → Step payload idle (created fd) (opened fd)
  write : {fd : ℤ} → Step payload (opened fd) (wrote fd payload) (filled fd)
  freeze : {fd : ℤ} → Step payload (filled fd) (sealed fd) (frozen fd)
  pass : {fd : ℤ} → Step payload (frozen fd) (passed fd) (handed fd)
  close_opened : {fd : ℤ} → Step payload (opened fd) (closed fd) done
  close_filled : {fd : ℤ} → Step payload (filled fd) (closed fd) done
  close_frozen : {fd : ℤ} → Step payload (frozen fd) (closed fd) done
  close_handed : {fd : ℤ} → Step payload (handed fd) (closed fd) done

-- The steps of a list of effects.
pub data Steps (payload : Bytes) : Phase → List Effect → Phase → Type 0 where
  stay : {p : Phase} → Steps payload p [] p
  next :
      {p q r : Phase} {e : Effect} {es : List Effect}
      → Step payload p e q
      → Steps payload q es r
      → Steps payload p (e ∷ es) r

-- The effects lead from `p` to a phase in which the memfd may be closed.
record IsClosable (payload : Bytes) (fd : ℤ) (p : Phase) {A : Type 0} (m : Traced A) : Type 0 where
  last : Phase
  steps : Steps payload p m.1 last
  close : Step payload last (closed fd) done

module _ {payload : Bytes} {fd : ℤ} {B : Type 0} {p : Phase} where
  stopped :
      {b : Result SdError B} → Step payload p (closed fd) done → IsClosable payload fd p (b, [])
  stopped close = record { last = p; steps = stay; close = close }

module _ {payload : Bytes} {fd : ℤ} {A : Type 0} {B : Type 0} {p : Phase} where
  -- A call without effects
  silent :
      (r : Result SdError A) {k : A → Traced B}
      → Step payload p (closed fd) done
      → ((a : A) → IsClosable payload fd p (k a))
      → IsClosable payload fd p (after_ok r (λ _. []) k)
  unfolding after_ok
  silent (err e) close later = stopped close
  silent (ok a) close later = record {
    last = (later a).last;
    steps = (later a).steps;
    close = (later a).close;
  }

  -- A call with one effect
  single :
      {q : Phase} {e : Effect} (r : Result SdError A) {k : A → Traced B}
      → Step payload p e q
      → Step payload p (closed fd) done
      → ((a : A) → IsClosable payload fd q (k a))
      → IsClosable payload fd p (after_ok r (λ _. e ∷ []) k)
  unfolding after_ok
  single (err x) step close later = stopped close
  single (ok a) step close later = record {
    last = (later a).last;
    steps = next step (later a).steps;
    close = (later a).close;
  }

module _ (sys : System) where
  pass_memfd-IsClosable :
      (fd : ℤ) (payload : Bytes) → IsClosable payload fd (opened fd) (pass_memfd sys fd payload)
  unfolding pass_memfd
  pass_memfd-IsClosable fd payload = single _ write close_opened λ _.
      single _ freeze close_filled
        λ _. silent _ close_frozen λ _. single _ pass close_frozen λ _. stopped close_handed

Steps-Step :
    {payload : Bytes} {p q r : Phase} {es : List Effect} {e : Effect}
    → Steps payload p es q
    → Step payload q e r
    → Steps payload p (es ++ e ∷ []) r
Steps-Step stay step = next step stay
Steps-Step (next first steps) step = next first (Steps-Step steps step)

-- The effects begin with nothing sent and end with no open memfd.
abbrev pub IsOrderly : Bytes → List Effect → Type 0
IsOrderly payload es = (p : Phase) × Steps payload idle es p × ((p ≡ idle) ⊎ (p ≡ done))

none-IsOrderly : (payload : Bytes) → IsOrderly payload []
none-IsOrderly payload = (idle, stay, inl refl)

memfd-IsOrderly :
    (payload : Bytes) (r : Result SdError ℤ) (m : ℤ → Traced ℕ)
    → ((fd : ℤ) → IsClosable payload fd (opened fd) (m fd))
    → IsOrderly payload (after_ok r (λ fd. created fd ∷ []) (λ fd. closing fd (m fd))).1
unfolding after_ok
memfd-IsOrderly payload (err e) m h = none-IsOrderly payload
memfd-IsOrderly payload (ok fd) m h =
    let c = h fd in (done, next create (Steps-Step c.steps c.close), inr refl)

silent-IsOrderly :
    {A : Type 0} {B : Type 0} (payload : Bytes) (r : Result SdError A) (k : A → Traced B)
    → ((a : A) → IsOrderly payload (k a).1)
    → IsOrderly payload (after_ok r (λ _. []) k).1
unfolding after_ok
silent-IsOrderly payload (err e) k h = none-IsOrderly payload
silent-IsOrderly payload (ok a) k h = h a

module _ (sys : System) where
  send_memfd_payload-IsOrderly :
      (payload : Bytes) → IsOrderly payload (send_memfd_payload sys payload).1
  unfolding send_memfd_payload
  send_memfd_payload-IsOrderly payload =
      memfd-IsOrderly payload _ _ λ fd. pass_memfd-IsClosable sys fd payload

  after_send_to-IsOrderly :
      (payload : Bytes) (r : Result OsError ℕ) → IsOrderly payload (after_send_to sys payload r).1
  unfolding after_send_to
  after_send_to-IsOrderly payload (ok x) = (done, next send stay, inr refl)
  after_send_to-IsOrderly payload (err e) = elim (Bool-cases (is_too_long e)) [
    | inl long ↦ rw long (send_memfd_payload-IsOrderly payload)
    | inr other ↦ rw other (none-IsOrderly payload)
  ]

  send_data-IsOrderly : (payload : Bytes) → IsOrderly payload (send_data sys payload).1
  unfolding send_data
  send_data-IsOrderly payload = after_send_to-IsOrderly payload (sys.send_to payload)

  -- Whatever the system answers, the effects are in the order of the protocol, with the built
  -- datagram as their data: it is sent in one datagram, or written whole to a memfd that is sealed
  -- before it is passed; and a memfd that was created is closed in the end.
  pub journal_send-IsOrderly :
      (priority : Priority) (msg : Str) (vars : List (Str × Str))
      → IsOrderly (journal_data priority msg vars) (journal_send sys priority msg vars).1
  unfolding journal_send
  journal_send-IsOrderly priority msg vars =
      silent-IsOrderly (journal_data priority msg vars) _ _ λ _. send_data-IsOrderly _
