-- ===== src/Daemon/Notify/Sent.antt =====
-- When a notification is sent, and what the call leaves.
use libsystemd_rs.Base.{
  ℕ, suc, Bool, true, false, List, [], ◌∷◌, none, some, ◌&&◌, if◌then◌else◌, length, Str, bytes,
  equal, Result, ok, err, equal_iff, ◌⊎◌, ap, ◌∙◌, Result-cases, Option-cases, All, ◌≡◌, ◌↔◌, refl,
  arith, inl, inr, Option, ◌==◌, starts_with, sym, Bool-cases,
}
use libsystemd_rs.Daemon.Fdname.{IsFdname, validate_fdname_iff}
use libsystemd_rs.Daemon.Notify.{
  Os, Datagram, datagram, notify_key, ancillary, socket_addr, prepare, deliver, check_sent,
  sent_after, notify_with_fds,
}
use libsystemd_rs.Daemon.State.{
  NotifyState, fdname, message, check_entry, check_entries, sanity_check_state_entries,
}
use libsystemd_rs.Decimal.Signed.{ℤ}
use libsystemd_rs.Env.{Env, var, remove_var, var-remove_var}
use libsystemd_rs.Error.{SdError, context}

-- An entry that may be sent: a name of descriptors obeys the rule for these.
abbrev pub IsSendable : NotifyState → Type 0
IsSendable (fdname name) = IsFdname name
IsSendable _ = Unit

check_entry_iff : (s : NotifyState) → (check_entry s ≡ ok tt) ↔ IsSendable s
unfolding check_entry
check_entry_iff (fdname name) = validate_fdname_iff name
check_entry_iff _ = ground arith

pub check_entries_iff :
    (index : ℕ) (state : List NotifyState)
    → (check_entries index state ≡ ok tt) ↔ All IsSendable state
unfolding check_entries context
check_entries_iff index [] = ground arith
check_entries_iff index (s ∷ state) =
    ground
      (arith, Result-cases (check_entry s), check_entry_iff s, check_entries_iff (suc index) state)

-- The control message holds the descriptors, and there is none without them.
abbrev pub Carries : List ℤ → Option (List ℤ) → Type 0
Carries [] control = control ≡ none
Carries (fd ∷ fds) control = control ≡ some (fd ∷ fds)

ancillary-Carries : (fds : List ℤ) → Carries fds (ancillary fds)
ancillary-Carries [] = refl
ancillary-Carries (fd ∷ fds) = refl

module _ {Addr : Type 0} (os : Os Addr) where
  -- What a value of NOTIFY_SOCKET names: behind an `@` the abstract socket of the rest, otherwise the
  -- socket at the path
  abbrev pub Names : Str → Addr → Type 0
  Names env_sock addr =
      ((name : Str) × (env_sock ≡ b'@' ∷ name) × (os.new_abstract (bytes name) ≡ ok addr))
      ⊎ ((starts_with b'@' env_sock ≡ false) × (os.new_path env_sock ≡ ok addr))

  socket_addr-Names :
      (env_sock : Str) (addr : Addr) → socket_addr os env_sock ≡ ok addr → Names env_sock addr
  unfolding socket_addr context
  socket_addr-Names [] addr h = inr (refl, ground (arith, Result-cases (os.new_path [])))
  socket_addr-Names (c ∷ s) addr h = elim (Bool-cases (c == b'@')) [
    | inl at ↦ inl (s, ground arith, ground (arith, Result-cases (os.new_abstract (bytes s))))
    | inr other ↦ inr (other, ground (arith, Result-cases (os.new_path (c ∷ s))))
  ]

  pub prepare_iff :
      (env_sock : Str) (state : List NotifyState) (fds : List ℤ) (d : Datagram Addr)
      → (prepare os env_sock state fds ≡ ok d) ↔ (
          All IsSendable state
          × ((addr : Addr) × (socket_addr os env_sock ≡ ok addr)
              × (os.unbound ≡ ok tt)
              × (d ≡ datagram addr state fds)))
  unfolding prepare context
  prepare_iff env_sock state fds d = ground (
    arith,
    Result-cases (sanity_check_state_entries state),
    check_entries_iff 0 state,
    Result-cases (socket_addr os env_sock),
    Result-cases os.unbound,
  )

  pub deliver_iff :
      (d : Datagram Addr) → (deliver os d ≡ ok true) ↔ (os.sendmsg d ≡ ok (length d.iov))
  unfolding deliver context check_sent
  deliver_iff d = ground (arith, Result-cases (os.sendmsg d))

  deliver-ne-false : (d : Datagram Addr) → deliver os d ≡ ok false → ⊥
  unfolding deliver context check_sent
  deliver-ne-false d = ground (arith, Result-cases (os.sendmsg d))

  -- What makes a notification succeed: every entry may be sent, the address is accepted, a socket
  -- opens and all bytes of the one datagram are sent.
  abbrev pub IsReady : Str → List NotifyState → List ℤ → Type 0
  IsReady env_sock state fds =
      (addr : Addr) × All IsSendable state
      × (socket_addr os env_sock ≡ ok addr)
      × (os.unbound ≡ ok tt)
      × (os.sendmsg (datagram addr state fds) ≡ ok (length (bytes (message state))))

  sent_after-true :
      (env : Env) (r : Result SdError (Datagram Addr))
      → ((sent_after os env r).result ≡ ok true)
        ↔ ((d : Datagram Addr) × (r ≡ ok d) × (os.sendmsg d ≡ ok (length d.iov)))
  unfolding sent_after
  sent_after-true env (err e) = (λ h. cc, λ (d, bad, _). cc)
  sent_after-true env (ok d) =
      (λ h. (d, refl, (deliver_iff d).0 h), λ (x, same, sends). same_sends x (cc) sends)
    where
      same_sends :
          (x : Datagram Addr) → d ≡ x → os.sendmsg x ≡ ok (length x.iov) → deliver os d ≡ ok true
      same_sends x same sends = (deliver_iff d).1 (rw same sends)

  sent_after-ne-false :
      (env : Env) (r : Result _ (Datagram Addr)) → (sent_after os env r).result ≡ ok false → ⊥
  unfolding sent_after
  sent_after-ne-false env (err e) h = cc
  sent_after-ne-false env (ok d) h = deliver-ne-false d h

  prepared-IsDelivered :
      (env_sock : Str) (state : List NotifyState) (fds : List ℤ) (d : Datagram Addr)
      → prepare os env_sock state fds ≡ ok d
      → os.sendmsg d ≡ ok (length d.iov)
      → IsReady env_sock state fds
  prepared-IsDelivered env_sock state fds d good sends =
      let (valid, (addr, resolved, opened, same)) = (prepare_iff env_sock state fds d).0 good in
      (addr, valid, resolved, opened, rw same at sends)

  IsDelivered-prepared :
      (env_sock : Str) (state : List NotifyState) (fds : List ℤ)
      → IsReady env_sock state fds
      → (d : Datagram Addr) × (prepare os env_sock state fds ≡ ok d)
        × (os.sendmsg d ≡ ok (length d.iov))
  IsDelivered-prepared env_sock state fds (addr, valid, resolved, opened, sends) =
      let d = datagram addr state fds in
      (d, (prepare_iff env_sock state fds d).1 (valid, (addr, resolved, opened, refl)), sends)

  pub notify-unset :
      (unset_env : Bool) (state : List NotifyState) (fds : List ℤ) (env : Env)
      → var notify_key env ≡ none
      → notify_with_fds os unset_env state fds env
        ≡ record { result = ok false; env = env; sent = [] }
  unfolding notify_with_fds
  notify-unset unset_env state fds env h = rw (notify_with_fds, h)

  pub notify-set :
      (unset_env : Bool) (state : List NotifyState) (fds : List ℤ) (env : Env) (env_sock : Str)
      → var notify_key env ≡ some env_sock
      → notify_with_fds os unset_env state fds env
        ≡ sent_after os
            (if unset_env then remove_var notify_key env else env)
            (prepare os env_sock state fds)
  unfolding notify_with_fds
  notify-set unset_env state fds env env_sock h = rw (notify_with_fds, h)

  IsReady-same_socket :
      (env : Env) (s t : Str) (state : List NotifyState) (fds : List ℤ)
      → var notify_key env ≡ some s
      → var notify_key env ≡ some t
      → IsReady s state fds
      → IsReady t state fds
  IsReady-same_socket env s t state fds one two h = let same : t ≡ s = cc in rw same h

  -- The result is `true` exactly if NOTIFY_SOCKET names an accepted address, each FDNAME entry obeys
  -- the rule, a socket opens and `sendmsg` sends all bytes.
  pub notify_with_fds-true_iff :
      (unset_env : Bool) (state : List NotifyState) (fds : List ℤ) (env : Env)
      → ((notify_with_fds os unset_env state fds env).result ≡ ok true)
        ↔ ((env_sock : Str) × (var notify_key env ≡ some env_sock) × IsReady env_sock state fds)
  notify_with_fds-true_iff unset_env state fds env = elim (Option-cases (var notify_key env)) [
    | inl unset ↦ rw (notify-unset unset_env state fds env unset) (λ h. cc, λ (s, set, _). cc)
    | inr (env_sock, set) ↦ rw (notify-set unset_env state fds env env_sock set) (
      λ h.
          let (d, good, sends) = (sent_after-true _ (prepare os env_sock state fds)).0 h in
          (env_sock, set, prepared-IsDelivered env_sock state fds d good sends),
      λ (s, same, is_ready). (sent_after-true _ (prepare os env_sock state fds)).1 (
          IsDelivered-prepared env_sock state fds
            (IsReady-same_socket env s env_sock state fds same set is_ready)),
    )
  ]

  -- The result is `false` exactly if NOTIFY_SOCKET is unset.
  pub notify_with_fds-false_iff :
      (unset_env : Bool) (state : List NotifyState) (fds : List ℤ) (env : Env)
      → ((notify_with_fds os unset_env state fds env).result ≡ ok false)
        ↔ (var notify_key env ≡ none)
  notify_with_fds-false_iff unset_env state fds env = elim (Option-cases (var notify_key env)) [
    | inl unset ↦ rw (notify-unset unset_env state fds env unset) (λ h. unset, λ h. refl)
    | inr (env_sock, set) ↦
        rw (notify-set unset_env state fds env env_sock set)
          (λ h. absurd (sent_after-ne-false _ (prepare os env_sock state fds) h), λ h. cc)
  ]

  notify_with_fds-sent :
      (unset_env : Bool) (state : List NotifyState) (fds : List ℤ) (env : Env)
      → ((notify_with_fds os unset_env state fds env).sent ≡ [])
        ⊎ ((env_sock : Str) × (addr : Addr) × (var notify_key env ≡ some env_sock)
            × (socket_addr os env_sock ≡ ok addr)
            × All IsSendable state
            × ((notify_with_fds os unset_env state fds env).sent ≡ datagram addr state fds ∷ []))
  unfolding sent_after
  notify_with_fds-sent unset_env state fds env = elim (Option-cases (var notify_key env)) [
    | inl unset ↦ inl (ap (λ o. o.sent) (notify-unset unset_env state fds env unset))
    | inr (env_sock, set) ↦ elim (Result-cases (prepare os env_sock state fds)) [
      | inl (e, bad) ↦ inl (
          ap (λ o. o.sent) (notify-set unset_env state fds env env_sock set)
          ∙ ap (λ r. (sent_after os (if unset_env then remove_var notify_key env else env) r).sent)
              bad)
      | inr (d, good) ↦
          let (valid, (addr, resolved, opened, same)) = (prepare_iff env_sock state fds d).0 good in
          inr (
            env_sock,
            addr,
            set,
            resolved,
            valid,
            ap (λ o. o.sent) (notify-set unset_env state fds env env_sock set)
                ∙ ap
                    (λ r.
                      (sent_after os (if unset_env then remove_var notify_key env else env) r).sent)
                    (good ∙ ap ok same),
          )
    ]
  ]

  -- If a datagram is sent, it is the only one. It goes to the socket that NOTIFY_SOCKET names, each of
  -- its FDNAME entries obeys the rule, its bytes are the message of the entries, and its control
  -- message holds the descriptors, or there is none if there are no descriptors.
  pub notify_with_fds-sends :
      (unset_env : Bool) (state : List NotifyState) (fds : List ℤ) (env : Env) (d : Datagram Addr)
      (ds : List (Datagram Addr))
      → (notify_with_fds os unset_env state fds env).sent ≡ d ∷ ds
      → (ds ≡ [])
        × ((env_sock : Str) × (var notify_key env ≡ some env_sock) × Names env_sock d.to)
        × All IsSendable state
        × (d.iov ≡ bytes (message state))
        × Carries fds d.fds
  notify_with_fds-sends unset_env state fds env d ds h =
      elim (notify_with_fds-sent unset_env state fds env) [
        | inl nothing ↦ absurd (cc (h, nothing))
        | inr (env_sock, addr, set, resolved, valid, sends) ↦
            let same : datagram addr state fds ≡ d = cc (h, sends) in
            let only : ds ≡ [] = cc (h, sends) in
            (
              only,
              (
                env_sock,
                set,
                rw (ap (λ x. x.to) (sym same)) (socket_addr-Names env_sock addr resolved),
              ),
              valid,
              ap (λ x. x.iov) (sym same),
              rw (ap (λ x. x.fds) (sym same)) (ancillary-Carries fds),
            )
      ]

  sent_after-env :
      (env : Env) (r : Result SdError (Datagram Addr)) → (sent_after os env r).env ≡ env
  unfolding sent_after
  sent_after-env env (err e) = refl
  sent_after-env env (ok d) = refl

  -- Whatever is returned, the call unsets NOTIFY_SOCKET if it is asked to, and leaves every other
  -- variable as it is.
  pub notify_with_fds-var :
      (unset_env : Bool) (state : List NotifyState) (fds : List ℤ) (env : Env) (key : Str)
      → var key (notify_with_fds os unset_env state fds env).env
        ≡ (if unset_env && equal notify_key key then none else var key env)
  notify_with_fds-var unset_env state fds env key = elim (Option-cases (var notify_key env)) [
    | inl unset ↦
        rw (notify-unset unset_env state fds env unset)
          (ground (arith, equal_iff notify_key key, unset))
    | inr (env_sock, set) ↦ rw (notify-set unset_env state fds env env_sock set) (
        rw
          (sent_after-env (if unset_env then remove_var notify_key env else env)
            (prepare os env_sock state fds))
          (ground (arith, var-remove_var notify_key key env)))
  ]
