-- ===== src/Daemon/State.antt =====
-- `NotifyState`, its `Display` and `sanity_check_state_entries`.
use libsystemd_rs.Base.{ℕ, suc, List, [], ◌∷◌, ◌++◌, Str, codes, Result, ok, ◌>>◌}
use libsystemd_rs.Daemon.Fdname.{validate_fdname}
use libsystemd_rs.Decimal
use libsystemd_rs.Decimal.Signed.{ℤ, display_int}
use libsystemd_rs.Error.{SdError, context, sd_error_display}

pub data NotifyState : Type 0 where
  buserror : Str → NotifyState
  errno : ℕ → NotifyState
  fdname : Str → NotifyState
  fdstore fdstore_remove fdpoll_disable : NotifyState
  mainpid : ℤ → NotifyState
  other : Str → NotifyState
  ready reloading : NotifyState
  status : Str → NotifyState
  stopping watchdog : NotifyState
  watchdog_usec : ℕ → NotifyState

unfoldable pub display : NotifyState → Str
display (buserror s) = codes "BUSERROR=" ++ s
display (errno e) = codes "ERRNO=" ++ Decimal.display e
display (fdname s) = codes "FDNAME=" ++ s
display fdstore = codes "FDSTORE=1"
display fdstore_remove = codes "FDSTOREREMOVE=1"
display fdpoll_disable = codes "FDPOLL=0"
display (mainpid p) = codes "MAINPID=" ++ display_int p
display (other s) = s
display ready = codes "READY=1"
display reloading = codes "RELOADING=1"
display (status s) = codes "STATUS=" ++ s
display stopping = codes "STOPPING=1"
display watchdog = codes "WATCHDOG=1"
display (watchdog_usec u) = codes "WATCHDOG_USEC=" ++ Decimal.display u

-- `state.iter().fold(String::new(), |res, s| res + &format!("{}\n", s))`
unfoldable pub fold_lines : Str → List NotifyState → Str
unfolding display
fold_lines res [] = res
fold_lines res (s ∷ state) = fold_lines (res ++ (display s ++ b'\n' ∷ [])) state

unfoldable pub message : List NotifyState → Str
unfolding fold_lines
message state = fold_lines [] state

entry_msg : ℕ → Str
entry_msg index = codes "invalid notify state entry #" ++ Decimal.display index

unfoldable pub check_entry : NotifyState → Result SdError (Unit {0})
check_entry (fdname name) = validate_fdname name
check_entry _ = ok tt

-- The loop from a given index on
unfoldable pub check_entries : ℕ → List NotifyState → Result SdError (Unit {0})
unfolding entry_msg check_entry context
check_entries index [] = ok tt
check_entries index (entry ∷ state) = do
  context (entry_msg index) (check_entry entry)
  check_entries (suc index) state

abbrev pub sanity_check_state_entries : List NotifyState → Result SdError (Unit {0})
sanity_check_state_entries state = check_entries 0 state
