-- ===== src/Tests/Cancels.antt =====
-- Inputs for the goroutine that breaks a call.
use go_oci.Prelude.{◌≡◌, ◌≢◌, ◌⊎◌, refl, true, false, [], ◌∷◌, ◌++◌, List, arith}
use go_oci.Cancel.{
  Caller, calling, finished, stopped, breaking, is_closed, start, here, Turn, caller_turn,
  context_turn, watcher_turn, run,
}
use go_oci.Cancel.Safety.{Reach-breaks, run-Reach}
use go_oci.Cancel.Progress.{run-stopped, run-breaks, owed}
use go_oci.Cancel.Late.{run-late}

-- The context ends during the call, and the goroutine passes both of its `select`.
abbrev passed : List Turn
passed = context_turn ∷ watcher_turn true ∷ watcher_turn true ∷ []

-- The caller closes `done` before the goroutine goes on.
abbrev late : List Turn
late = passed ++ caller_turn ∷ caller_turn ∷ []

late-breaking : (run late (start false)).watcher ≡ breaking
unfolding run
late-breaking = refl

Reach-breaks_example :
    (((run passed (start false)).breaks ≡ [])
      × (((run passed (start false)).watcher ≢ stopped)
          ⊎ (is_closed (run passed (start false)).caller ≡ true)))
    ⊎ ((at : Caller) × ((run passed (start false)).breaks ≡ at ∷ [])
        × ((run passed (start false)).context_done ≡ true))
Reach-breaks_example =
    Reach-breaks false (run passed (start false))
      (run-Reach passed (start false) (start false) here)

run-stopped_example :
    (run
      (watcher_turn true ∷ context_turn ∷ watcher_turn false ∷ caller_turn ∷ watcher_turn true ∷ [])
      (start true)).watcher
    ≡ stopped
run-stopped_example =
    run-stopped
      (watcher_turn true ∷ context_turn ∷ watcher_turn false ∷ caller_turn ∷ watcher_turn true ∷ [])
      (start true) refl (omega arith)

run-breaks_example :
    ((run (watcher_turn true ∷ watcher_turn false ∷ watcher_turn true ∷ []) (start true)).watcher
      ≡ stopped)
    × ((run (watcher_turn true ∷ watcher_turn false ∷ watcher_turn true ∷ []) (start true)).breaks
        ≡ owed (start true).watcher calling ++ (start true).breaks)
run-breaks_example =
    run-breaks (start true) (watcher_turn true ∷ watcher_turn false ∷ watcher_turn true ∷ []) refl
      refl (tt, (tt, (tt, tt))) (omega arith)

run-late_example : (run (watcher_turn true ∷ []) (run late (start false))).breaks ≡ finished ∷ []
unfolding run
run-late_example = run-late (watcher_turn true ∷ []) (run late (start false)) refl
