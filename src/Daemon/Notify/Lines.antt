-- ===== src/Daemon/Notify/Lines.antt =====
-- The manager's side of a notification: a line for each assignment.
use libsystemd_rs.Base.{
  ℕ, Bool, true, false, not, List, [], ◌∷◌, ◌++◌, ◌==◌, map, append_assoc, append-nil,
  if◌then◌else◌, is_empty, Str, codes, split, split_first, Lacks, keep, All, All-map, All-append,
  ◌≡◌, refl, sym, ap, ◌∙◌, arith,
}
use libsystemd_rs.Daemon.State.{
  NotifyState, buserror, errno, fdname, fdstore, fdstore_remove, fdpoll_disable, mainpid, other,
  ready, reloading, status, stopping, watchdog, watchdog_usec, display, fold_lines, message,
}
use libsystemd_rs.Decimal
use libsystemd_rs.Decimal.Accept.{IsDigit}
use libsystemd_rs.Decimal.RoundTrip.{display-IsDigit}
use libsystemd_rs.Decimal.Signed.{ℤ, pos, negsuc, display_int}

-- A line up to its first `=`, and the text behind it.
unfoldable pub assignment : Str → Str × Str
assignment [] = ([], [])
assignment (c ∷ s) = let rest = assignment s in if c == b'=' then ([], s) else (c ∷ rest.0, rest.1)

not_empty : Str → Bool
not_empty s = not (is_empty s)

-- What a manager reads from the bytes: the assignments of the lines that are not empty.
unfoldable pub assignments : Str → List (Str × Str)
unfolding assignment not_empty
assignments s = map assignment (keep not_empty (split b'\n' s))

-- What each state assigns, by sd_notify(3); a custom state is an assignment itself.
unfoldable pub assigns : NotifyState → Str × Str
unfolding assignment
assigns (buserror s) = (codes "BUSERROR", s)
assigns (errno e) = (codes "ERRNO", Decimal.display e)
assigns (fdname s) = (codes "FDNAME", s)
assigns fdstore = (codes "FDSTORE", codes "1")
assigns fdstore_remove = (codes "FDSTOREREMOVE", codes "1")
assigns fdpoll_disable = (codes "FDPOLL", codes "0")
assigns (mainpid p) = (codes "MAINPID", display_int p)
assigns (other s) = assignment s
assigns ready = (codes "READY", codes "1")
assigns reloading = (codes "RELOADING", codes "1")
assigns (status s) = (codes "STATUS", s)
assigns stopping = (codes "STOPPING", codes "1")
assigns watchdog = (codes "WATCHDOG", codes "1")
assigns (watchdog_usec u) = (codes "WATCHDOG_USEC", Decimal.display u)

-- A state whose free text is one line, and not empty where it is the whole line.
abbrev pub IsOneLine : NotifyState → Type 0
IsOneLine (buserror s) = Lacks b'\n' s
IsOneLine (fdname s) = Lacks b'\n' s
IsOneLine (status s) = Lacks b'\n' s
IsOneLine (other s) = Lacks b'\n' s × (is_empty s ≡ false)
IsOneLine _ = Unit

assignment-display : (s : NotifyState) → assignment (display s) ≡ assigns s
unfolding assignment display assigns
assignment-display (other s) = refl
assignment-display (buserror s) = refl
assignment-display _ = refl

digit-Lacks : (s : Str) → All IsDigit s → Lacks b'\n' s
digit-Lacks s h = All-map s (λ c d. (λ same. ground arith)) h

number-Lacks : (n : ℕ) → Lacks b'\n' (Decimal.display n)
number-Lacks n = digit-Lacks _ (display-IsDigit n)

int-Lacks : (p : ℤ) → Lacks b'\n' (display_int p)
unfolding display_int
int-Lacks (pos n) = number-Lacks n
int-Lacks (negsuc n) = (ground arith, number-Lacks _)

display-Lacks : (s : NotifyState) → IsOneLine s → Lacks b'\n' (display s)
unfolding display
display-Lacks (buserror s) h = All-append _ (codes "BUSERROR=") s (ground arith) h
display-Lacks (errno e) h = All-append _ (codes "ERRNO=") _ (ground arith) (number-Lacks e)
display-Lacks (fdname s) h = All-append _ (codes "FDNAME=") s (ground arith) h
display-Lacks (mainpid p) h = All-append _ (codes "MAINPID=") _ (ground arith) (int-Lacks p)
display-Lacks (other s) h = h.0
display-Lacks (status s) h = All-append _ (codes "STATUS=") s (ground arith) h
display-Lacks (watchdog_usec u) h =
    All-append _ (codes "WATCHDOG_USEC=") _ (ground arith) (number-Lacks u)
display-Lacks _ h = ground arith

display-not_empty : (s : NotifyState) → IsOneLine s → not_empty (display s) ≡ true
unfolding display not_empty
display-not_empty (other s) h = rw h.1
display-not_empty _ h = refl

fold_lines-append :
    (res rest : Str) (state : List NotifyState)
    → fold_lines (res ++ rest) state ≡ res ++ fold_lines rest state
unfolding fold_lines
fold_lines-append res rest [] = refl
fold_lines-append res rest (s ∷ state) =
    ap (λ x. fold_lines x state) (append_assoc res rest _)
    ∙ fold_lines-append res (rest ++ (display s ++ b'\n' ∷ [])) state

message_step :
    (s : NotifyState) (state : List NotifyState)
    → message (s ∷ state) ≡ display s ++ b'\n' ∷ message state
unfolding message fold_lines
message_step s state =
    ap (λ x. fold_lines x state) (sym (append-nil (display s ++ b'\n' ∷ [])))
    ∙ fold_lines-append (display s ++ b'\n' ∷ []) [] state
    ∙ append_assoc (display s) (b'\n' ∷ []) (message state)

kept_step :
    (line : Str) (lines : List Str)
    → not_empty line ≡ true
    → keep not_empty (line ∷ lines) ≡ line ∷ keep not_empty lines
kept_step line lines k = ground (arith, k)

no_lines : assignments (message []) ≡ []
unfolding assignments message fold_lines split
no_lines = refl

line_step :
    (line rest : Str)
    → Lacks b'\n' line
    → not_empty line ≡ true
    → assignments (line ++ b'\n' ∷ rest) ≡ assignment line ∷ assignments rest
unfolding assignments
line_step line rest h k =
    ap (λ ls. map assignment (keep not_empty ls)) (split_first b'\n' line rest h)
    ∙ ap (map assignment) (kept_step line (split b'\n' rest) k)

-- A manager that reads a notification line by line gets the assignment of every state, in order, if
-- the free texts hold no line feed and a custom state is not empty.
pub assignments-message :
    (state : List NotifyState)
    → All IsOneLine state
    → assignments (message state) ≡ map assigns state
assignments-message [] h = no_lines
assignments-message (s ∷ state) (h, hs) =
    ap assignments (message_step s state)
    ∙ line_step (display s) (message state) (display-Lacks s h) (display-not_empty s h)
    ∙ ap (λ a. a ∷ assignments (message state)) (assignment-display s)
    ∙ ap (◌∷◌ (assigns s)) (assignments-message state hs)
