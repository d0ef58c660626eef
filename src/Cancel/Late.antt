-- ===== src/Cancel/Late.antt =====
-- Breaks that come late: after `done` is closed, when the caller may be in its next call.
use go_oci.Prelude.{◌≡◌, ◌∙◌, Bool, true, false, ◌&&◌, List, [], ◌∷◌, if◌then◌else◌, arith}
use go_oci.Cancel.{finished, Watcher, breaking, System, Turn, watcher_turn, turn, run}

abbrev pub is_breaking : Watcher → Bool
is_breaking breaking = true
is_breaking _ = false

abbrev pub has_watcher_turn : List Turn → Bool
has_watcher_turn [] = false
has_watcher_turn (watcher_turn c ∷ ts) = true
has_watcher_turn (_ ∷ ts) = has_watcher_turn ts

turn-late :
    (t : Turn) (ts : List Turn) (s : System)
    → s.caller ≡ finished
    → ((turn t s).caller ≡ finished)
      × ((if is_breaking (turn t s).watcher && has_watcher_turn ts
            then finished ∷ (turn t s).breaks
            else (turn t s).breaks)
          ≡ (if is_breaking s.watcher && has_watcher_turn (t ∷ ts)
              then finished ∷ s.breaks
              else s.breaks))
unfolding turn
turn-late t ts s h = ground arith

-- Once `done` is closed, whatever the turns that follow: `OCIBreak` is called once more if the goroutine
-- had passed its second `select` before and gets a turn, and is not called otherwise. So closing `done`
-- does not hold back a goroutine that has passed the second `select`, and nothing else is late.
pub run-late :
    (ts : List Turn) (s : System)
    → s.caller ≡ finished
    → (run ts s).breaks
      ≡ (if is_breaking s.watcher && has_watcher_turn ts then finished ∷ s.breaks else s.breaks)
unfolding run
run-late [] s h = ground arith
run-late (t ∷ ts) s h = let (h', same) = turn-late t ts s h in run-late ts (turn t s) h' ∙ same
