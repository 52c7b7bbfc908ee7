-- ===== src/Logging/Send/Delivered.antt =====
-- When a message is sent.
use libsystemd_rs.Base.{
  codes, ℕ, true, List, some, Option-cases, Str, Bytes, map_ok, Result, ok, err, ◌≡◌, ◌↔◌, ◌⊎◌,
  refl, inl, inr, arith, Bool-cases, length,
}
use libsystemd_rs.Decimal.Signed.{ℤ}
use libsystemd_rs.Error.{Display, SdError, context, sd_error_display}
use libsystemd_rs.Logging.Message.{journal_data}
use libsystemd_rs.Logging.Priority.{Priority}
use libsystemd_rs.Logging.Send.{
  System, Traced, after_ok, closing, Effect, pass_memfd, send_memfd_payload, is_too_long,
  after_send_to, send_data, journal_send, print_failed_msg,
}
use libsystemd_rs.Os.{OsError, os_error_display}

-- A success of the function behind an effect.
record Returns {A : Type 0} (m : Traced A) (a : A) : Type 0 where
  given : m.0 ≡ ok a

module _ {A : Type 0} {B : Type 0} (effects : A → List Effect) where
  after_ok-Returns :
      (r : Result SdError A) (k : A → Traced B) {b : B}
      → Returns (after_ok r effects k) b
      → (a : A) × (r ≡ ok a) × Returns (k a) b
  unfolding after_ok
  after_ok-Returns (err e) k h = absurd (cc (h.given))
  after_ok-Returns (ok a) k h = (a, refl, record { given = h.given })

  Returns-after_ok :
      (r : Result SdError A) (k : A → Traced B) {b : B} (a : A)
      → r ≡ ok a
      → Returns (k a) b
      → Returns (after_ok r effects k) b
  unfolding after_ok
  Returns-after_ok (err e) k a same h = absurd (cc)
  Returns-after_ok (ok x) k a same h = let here : x ≡ a = cc in rw here (record { given = h.given })

context-ok_iff :
    {E : Type 0} ⦃d : Display E⦄ {A : Type 0} (c : Str) (r : Result E A) (a : A)
    → (context c r ≡ ok a) ↔ (r ≡ ok a)
unfolding context
context-ok_iff c (ok x) a = ground arith
context-ok_iff c (err e) a = (λ h. cc, λ h. cc)

is_too_long_iff : (e : OsError) → (is_too_long e ≡ true) ↔ (e.raw_os_error ≡ some 90)
is_too_long_iff e = elim (Option-cases e.raw_os_error) [
  | inl unset ↦ ground (arith, unset)
  | inr (n, set) ↦ ground (arith, set)
]

dropped-ok_iff :
    {E : Type 0} (r : Result E ℕ) → (map_ok (λ _. tt {0}) r ≡ ok (tt {0})) ↔ ((n : ℕ) × (r ≡ ok n))
dropped-ok_iff (ok n) = (λ _. (n, refl), λ _. refl)
dropped-ok_iff (err e) = (λ h. cc, λ (n, h). cc)

module _ (sys : System) where
  -- The whole slow path succeeds.
  abbrev pub IsPassed : Bytes → Type 0
  IsPassed payload =
      (fd : ℤ) × (n : ℕ) × (sys.memfd_create ≡ ok fd)
      × (sys.write_all fd payload ≡ ok tt)
      × (sys.add_seals fd ≡ ok tt)
      × (sys.unix_addr ≡ ok tt)
      × (sys.sendmsg fd ≡ ok n)

  pass_memfd-Returns :
      (fd : ℤ) (payload : Bytes) {m : ℕ}
      → Returns (pass_memfd sys fd payload) m
      → (n : ℕ) × (sys.write_all fd payload ≡ ok tt)
        × (sys.add_seals fd ≡ ok tt)
        × (sys.unix_addr ≡ ok tt)
        × (sys.sendmsg fd ≡ ok n)
  unfolding pass_memfd
  pass_memfd-Returns fd payload h =
      let (_, written, h1) = after_ok-Returns _ _ _ h in
      let (_, frozen, h2) = after_ok-Returns _ _ _ h1 in
      let (_, resolved, h3) = after_ok-Returns _ _ _ h2 in
      let (n, passed, h4) = after_ok-Returns _ _ _ h3 in
      (
        n,
        (context-ok_iff (codes "failed to write to memfd") (sys.write_all fd payload) tt).0 written,
        (context-ok_iff (codes "unable to seal memfd") (sys.add_seals fd) tt).0 frozen,
        (context-ok_iff (codes "unable to create new unix address") sys.unix_addr tt).0 resolved,
        (context-ok_iff (codes "sendmsg failed") (sys.sendmsg fd) n).0 passed,
      )

  Returns-pass_memfd :
      (fd : ℤ) (payload : Bytes) (n : ℕ)
      → sys.write_all fd payload ≡ ok tt
      → sys.add_seals fd ≡ ok tt
      → sys.unix_addr ≡ ok tt
      → sys.sendmsg fd ≡ ok n
      → Returns (pass_memfd sys fd payload) (length payload)
  unfolding pass_memfd
  Returns-pass_memfd fd payload n written frozen resolved passed =
      Returns-after_ok _ _ _ tt
        ((context-ok_iff (codes "failed to write to memfd") (sys.write_all fd payload) tt).1
          written)
        (Returns-after_ok _ _ _ tt
          ((context-ok_iff (codes "unable to seal memfd") (sys.add_seals fd) tt).1 frozen)
          (Returns-after_ok _ _ _ tt
            ((context-ok_iff (codes "unable to create new unix address") sys.unix_addr tt).1
              resolved)
            (Returns-after_ok _ _ _ n
              ((context-ok_iff (codes "sendmsg failed") (sys.sendmsg fd) n).1 passed)
              (record { given = refl }))))

  closing-Returns : (fd : ℤ) (m : Traced ℕ) (n : ℕ) → Returns (closing fd m) n ↔ Returns m n
  closing-Returns fd (r, effects) n =
      (λ h. record { given = h.given }, λ h. record { given = h.given })

  send_memfd_payload_iff :
      (payload : Bytes) → ((n : ℕ) × Returns (send_memfd_payload sys payload) n) ↔ IsPassed payload
  unfolding send_memfd_payload
  send_memfd_payload_iff payload = (
    λ (m, h).
        let (fd, made, h1) = after_ok-Returns _ _ _ h in
        let (n, written, frozen, resolved, passed) =
          pass_memfd-Returns fd payload ((closing-Returns fd (pass_memfd sys fd payload) m).0 h1) in
        (
          fd,
          n,
          (context-ok_iff (codes "unable to create memfd") sys.memfd_create fd).0 made,
          written,
          frozen,
          resolved,
          passed,
        ),
    λ (fd, n, made, written, frozen, resolved, passed). (
      length payload,
      Returns-after_ok _ _ _ fd
          ((context-ok_iff (codes "unable to create memfd") sys.memfd_create fd).1 made)
          ((closing-Returns fd (pass_memfd sys fd payload) _).1
            (Returns-pass_memfd fd payload n written frozen resolved passed)),
    ),
  )

  -- The data goes out as one datagram, or the datagram is too long and the slow path succeeds.
  abbrev pub IsSent : Bytes → Type 0
  IsSent payload =
      ((n : ℕ) × (sys.send_to payload ≡ ok n))
      ⊎ ((e : OsError) × (sys.send_to payload ≡ err e)
          × (e.raw_os_error ≡ some 90)
          × IsPassed payload)

  after_send_to-Returns :
      (payload : Bytes) (r : Result OsError ℕ)
      → ((n : ℕ) × Returns (after_send_to sys payload r) n) ↔ (
          ((n : ℕ) × (r ≡ ok n))
          ⊎ ((e : OsError) × (r ≡ err e) × (e.raw_os_error ≡ some 90) × IsPassed payload))
  unfolding after_send_to
  after_send_to-Returns payload (ok n) = (λ _. inl (n, refl), λ _. (n, record { given = refl }))
  after_send_to-Returns payload (err e) = elim (Bool-cases (is_too_long e)) [
    | inl long ↦ rw long (
      λ (n, h). inr (
        e,
        refl,
        (is_too_long_iff e).0 long,
        (send_memfd_payload_iff payload).0 (
          n,
          record {
            given =
                (context-ok_iff (codes "sending with memfd failed")
                    (send_memfd_payload sys payload).0 n).0
                  h.given;
          },
        ),
      ),
      λ s. elim s [
        | inl (n, bad) ↦ absurd (cc bad)
        | inr (x, same, code, passed) ↦
            let (n, h) = (send_memfd_payload_iff payload).1 passed in
            (
              n,
              record {
                given =
                    (context-ok_iff (codes "sending with memfd failed")
                        (send_memfd_payload sys payload).0 n).1
                      h.given;
              },
            )
      ],
    )
    | inr short ↦ rw short (
      λ (n, h). absurd (cc (h.given)),
      λ s. elim s [
        | inl (n, bad) ↦ absurd (cc bad)
        | inr (x, same, code, passed) ↦
            let same_code : e.raw_os_error ≡ some 90 = cc in
            absurd (cc (short, (is_too_long_iff e).1 same_code))
      ],
    )
  ]

  -- A message is sent exactly if a socket opens and the datagram that is built goes out as it is, or
  -- is refused with EMSGSIZE and each call of the slow path succeeds.
  pub journal_send_iff :
      (priority : Priority) (msg : Str) (vars : List (Str × Str))
      → ((journal_send sys priority msg vars).0 ≡ ok tt)
        ↔ ((sys.unbound ≡ ok tt) × IsSent (journal_data priority msg vars))
  unfolding journal_send send_data
  journal_send_iff priority msg vars = (there, back)
    where
      there :
          (journal_send sys priority msg vars).0 ≡ ok tt
          → (sys.unbound ≡ ok tt) × IsSent (journal_data priority msg vars)
      there h =
          let whole : Returns (journal_send sys priority msg vars) tt = record { given = h } in
          let (_, opened, h1) = after_ok-Returns _ _ _ whole in
          let (n, some_) =
            (dropped-ok_iff (send_data sys (journal_data priority msg vars)).0).0
              ((context-ok_iff print_failed_msg _ tt).0 h1.given) in
          (
            (context-ok_iff (codes "failed to open datagram socket") sys.unbound tt).0 opened,
            (after_send_to-Returns (journal_data priority msg vars)
                  (sys.send_to (journal_data priority msg vars))).0
                (n, record { given = some_ }),
          )

      back :
          (sys.unbound ≡ ok tt) × IsSent (journal_data priority msg vars)
          → (journal_send sys priority msg vars).0 ≡ ok tt
      back (opened, is_sent) =
          let (n, h) =
            (after_send_to-Returns (journal_data priority msg vars)
                (sys.send_to (journal_data priority msg vars))).1
              is_sent in
          let last =
            (context-ok_iff print_failed_msg _ tt).1 (
              (dropped-ok_iff (send_data sys (journal_data priority msg vars)).0).1 (n, h.given)) in
          (Returns-after_ok _ _ _ tt
            ((context-ok_iff (codes "failed to open datagram socket") sys.unbound tt).1 opened)
            (record { given = last })).given
