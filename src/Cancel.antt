-- ===== src/Cancel.antt =====
-- connection.go: `ociBreakDone` and `ociBreak`, beside the function that has started the goroutine:
-- `Ping`, `PrepareContext`, `Next`, `query` and `exec` make the channel `done`, start
-- `ociBreakDone`, call OCI, and close `done`. The two run interleaved with the context in any order.
pub mod Safety
pub mod Progress
pub mod Late
use go_oci.Prelude.{◌≡◌, Bool, true, false, not, ◌&&◌, ◌||◌, List, [], ◌∷◌, if◌then◌else◌}

-- Where the function is that has started the goroutine: in the call of OCI, behind it, or behind
-- `close(done)`, when it may go on to the next call or to the release of a handle.
pub data Caller : Type 0 where
  calling returned finished : Caller

-- Where the goroutine is: at the first `select`, at the second, about to call `OCIBreak`, or at its
-- end.
pub data Watcher : Type 0 where
  selecting selecting_again breaking stopped : Watcher

-- Whether the context is done, and where the caller was at each call of `OCIBreak`, the last one
-- first.
pub record System : Type 0 where
  pub caller : Caller
  pub watcher : Watcher
  pub context_done : Bool
  pub breaks : List Caller

-- `done` is closed.
abbrev pub is_closed : Caller → Bool
is_closed finished = true
is_closed _ = false

-- At the statement `go conn.ociBreakDone(ctx, done)`: the context may be done already.
abbrev pub start : Bool → System
start c = record { caller = calling; watcher = selecting; context_done = c; breaks = [] }

-- One step of the caller, the context or the goroutine. A `select` takes any of its channels that are
-- ready; its `default` is taken only if `done` is not.
pub data Step (s : System) : System → Type 0 where
  returns : s.caller ≡ calling → Step s (record s { caller = returned })
  closes : s.caller ≡ returned → Step s (record s { caller = finished })
  context_ends : Step s (record s { context_done = true })
  sees_done :
      s.watcher ≡ selecting → is_closed s.caller ≡ true → Step s (record s { watcher = stopped })
  sees_context :
      s.watcher ≡ selecting
      → s.context_done ≡ true
      → Step s (record s { watcher = selecting_again })
  sees_done_again :
      s.watcher ≡ selecting_again
      → is_closed s.caller ≡ true
      → Step s (record s { watcher = stopped })
  sees_nothing :
      s.watcher ≡ selecting_again
      → is_closed s.caller ≡ false
      → Step s (record s { watcher = breaking })
  breaks_call :
      s.watcher ≡ breaking → Step s (record s { watcher = stopped; breaks = s.caller ∷ s.breaks })

pub data Reach (s : System) : System → Type 0 where
  here : Reach s s
  next : {t u : System} → Reach s t → Step t u → Reach s u

-- Who is given the next turn; where both channels are ready, the goroutine's turn says whether the
-- first `select` takes `done`.
pub data Turn : Type 0 where
  caller_turn context_turn : Turn
  watcher_turn : Bool → Turn

-- The first `select`, which blocks while neither channel is ready, and the second.
unfoldable pub select_first : Bool → System → System
select_first choice s =
    if is_closed s.caller && (choice || not s.context_done)
    then record s { watcher = stopped }
    else if s.context_done
    then record s { watcher = selecting_again }
    else s

unfoldable pub select_again : System → System
select_again s =
    if is_closed s.caller then record s { watcher = stopped } else record s { watcher = breaking }

-- `ociBreak`, by where the caller is.
unfoldable pub oci_break : System → System
oci_break s = record s { watcher = stopped; breaks = s.caller ∷ s.breaks }

abbrev pub watch : Watcher → Bool → System → System
watch selecting choice s = select_first choice s
watch selecting_again choice s = select_again s
watch breaking choice s = oci_break s
watch stopped choice s = s

abbrev pub go_on : Caller → System → System
go_on calling s = record s { caller = returned }
go_on returned s = record s { caller = finished }
go_on finished s = s

-- The system after a turn; one that cannot go on leaves it as it is.
unfoldable pub turn : Turn → System → System
unfolding select_first select_again oci_break
turn caller_turn s = go_on s.caller s
turn context_turn s = record s { context_done = true }
turn (watcher_turn choice) s = watch s.watcher choice s

unfoldable pub run : List Turn → System → System
unfolding turn
run [] s = s
run (t ∷ ts) s = run ts (turn t s)
