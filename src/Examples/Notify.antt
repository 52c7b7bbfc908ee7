-- ===== src/Examples/Notify.antt =====
-- examples/notify.rs. The operating system's answers are a parameter; what the program does is the list
-- of its datagrams. What it prints is left out.
use libsystemd_rs.Base.{
  ◌≤◌, true, false, not, List, [], ◌∷◌, map, none, some, if◌then◌else◌, length, Str, bytes, codes,
  Result, ok, err, Result-cases, Bool-cases, ◌≡◌, ◌↔◌, ◌⊎◌, inl, inr, refl, sym, ap, ◌∙◌, arith,
}
use libsystemd_rs.Daemon.Booted.{Metadata, booted}
use libsystemd_rs.Daemon.Notify.{Os, Outcome, Datagram, notify, notify_with_fds, notify_key}
use libsystemd_rs.Daemon.Notify.Lines.{IsOneLine, assignments, assigns, assignments-message}
use libsystemd_rs.Daemon.Notify.Sent.{
  IsReady, Names, notify_with_fds-true_iff, notify_with_fds-false_iff, notify_with_fds-sends,
}
use libsystemd_rs.Daemon.State.{NotifyState, status, ready, message}
use libsystemd_rs.Env.{Env, var}
use libsystemd_rs.Examples.Watchdog.{Event, sent_datagram, End, returned, parked, panicked}
use libsystemd_rs.Os.{OsError}

-- The match on `env::args().nth(1)`
unfoldable pub state_of : List Str → NotifyState
state_of (program ∷ s ∷ args) = status s
state_of _ = ready

-- The assignment that a manager is to get: the argument as the status, if there is one, or else the
-- readiness
abbrev pub Tells : List Str → List (Str × Str) → Type 0
Tells args told =
    ((program : Str) × (s : Str) × (rest : List Str) × (args ≡ program ∷ s ∷ rest)
      × (told ≡ (codes "STATUS", s) ∷ []))
    ⊎ ((length args ≤ 1) × (told ≡ (codes "READY", codes "1") ∷ []))

-- From `expect("notify failed")` on
unfoldable pub after_notify : {Addr : Type 0} → Outcome Addr → List (Event Addr) × End
after_notify o = elim o.result [
  | err e ↦ (map sent_datagram o.sent, panicked (codes "notify failed"))
  | ok sent ↦ (map sent_datagram o.sent, parked)
]

module _ {Addr : Type 0} (os : Os Addr) (symlink_metadata : Str → Result OsError Metadata) where
  unfoldable pub notify_main : List Str → Env → List (Event Addr) × End
  unfolding booted notify state_of after_notify
  notify_main args env =
      if not (booted symlink_metadata)
      then ([], returned)
      else after_notify (notify os true (state_of args ∷ []) env)

  after_notify-events : (o : Outcome Addr) → (after_notify o).0 ≡ map sent_datagram o.sent
  unfolding after_notify
  after_notify-events o = elim (Result-cases o.result) [
    | inl (e, bad) ↦ rw bad refl
    | inr (b, good) ↦ rw good refl
  ]

  after_notify-ne-returned : (o : Outcome Addr) → (after_notify o).1 ≡ returned → ⊥
  unfolding after_notify
  after_notify-ne-returned o h = ground (arith, Result-cases o.result)

  after_notify-parked :
      (o : Outcome Addr)
      → ((after_notify o).1 ≡ parked) ↔ ((o.result ≡ ok false) ⊎ (o.result ≡ ok true))
  unfolding after_notify
  after_notify-parked o = elim (Result-cases o.result) [
    | inl (e, bad) ↦ rw bad (ground arith)
    | inr (b, good) ↦ rw good (ground (arith, Bool-cases b))
  ]

  -- The program returns exactly if systemd does not run. It blocks for ever exactly if systemd runs and
  -- NOTIFY_SOCKET is unset or the notification is sent whole: the socket's address is accepted, a socket
  -- opens and `sendmsg` takes all bytes.
  pub notify_main_iff :
      (args : List Str) (env : Env)
      → (((notify_main args env).1 ≡ returned) ↔ (booted symlink_metadata ≡ false))
        × (((notify_main args env).1 ≡ parked) ↔ (
            (booted symlink_metadata ≡ true)
            × ((var notify_key env ≡ none)
                ⊎ ((env_sock : Str) × (var notify_key env ≡ some env_sock)
                    × IsReady os env_sock (state_of args ∷ []) []))))
  unfolding notify_main notify
  notify_main_iff args env = elim (Bool-cases (booted symlink_metadata)) [
    | inl on ↦
        let o = notify_with_fds os true (state_of args ∷ []) [] env in
        let unset = notify_with_fds-false_iff os true (state_of args ∷ []) [] env in
        let set = notify_with_fds-true_iff os true (state_of args ∷ []) [] env in
        rw on (
          (λ h. absurd (after_notify-ne-returned o h), λ h. cc),
          (
            λ h. elim ((after_notify-parked o).0 h) [
              | inl unsent ↦ (refl, inl (unset.0 unsent))
              | inr sent ↦ (refl, inr (set.0 sent))
            ],
            λ (_, h). elim h [
              | inl absent ↦ (after_notify-parked o).1 (inl (unset.1 absent))
              | inr is_ready ↦ (after_notify-parked o).1 (inr (set.1 is_ready))
            ],
          ),
        )
    | inr off ↦ rw off ((λ h. refl, λ h. refl), (λ h. cc, λ (h, _). cc))
  ]

  state-Tells : (args : List Str) → Tells args (map assigns (state_of args ∷ []))
  unfolding state_of assigns
  state-Tells [] = inr (omega arith, refl)
  state-Tells (program ∷ []) = inr (omega arith, refl)
  state-Tells (program ∷ s ∷ args) = inl (program, s, args, refl, refl)

  first_sent :
      (ds : List (Datagram Addr)) (d : Datagram Addr) (events : List (Event Addr))
      → map sent_datagram ds ≡ sent_datagram d ∷ events
      → (rest : List (Datagram Addr)) × (ds ≡ d ∷ rest) × (events ≡ map sent_datagram rest)
  first_sent [] d events h = cc
  first_sent (x ∷ ds) d events h = (ds, cc, cc)

  -- If the program does anything, it is to send one datagram without descriptors to the socket that
  -- NOTIFY_SOCKET names. A manager that reads its text by lines gets a single assignment: the first
  -- argument as `STATUS`, if there is one and it holds no line feed, and `READY=1` if there is none.
  pub notify_main-Tells :
      (args : List Str) (env : Env) (d : Datagram Addr) (events : List (Event Addr))
      → IsOneLine (state_of args)
      → (notify_main args env).0 ≡ sent_datagram d ∷ events
      → (events ≡ [])
        × ((env_sock : Str) × (var notify_key env ≡ some env_sock) × Names os env_sock d.to)
        × (d.fds ≡ none)
        × ((text : Str) × (d.iov ≡ bytes text) × Tells args (assignments text))
  unfolding notify_main notify
  notify_main-Tells args env d events one_line h = elim (Bool-cases (booted symlink_metadata)) [
    | inl on ↦
        let state = state_of args ∷ [] in
        let o = notify_with_fds os true state [] env in
        let sent : map sent_datagram o.sent ≡ sent_datagram d ∷ events =
          sym (after_notify-events o) ∙ (rw on at h) in
        let (rest, all, same) = first_sent o.sent d events sent in
        let (only, named, _, text, control) =
          notify_with_fds-sends os true state [] env d rest all in
        (
          same ∙ ap (map sent_datagram) only,
          named,
          control,
          (message state, text, rw (assignments-message state (one_line, tt)) (state-Tells args)),
        )
    | inr off ↦ let none_sent = rw off at h in cc
  ]
