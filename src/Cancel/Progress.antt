-- ===== src/Cancel/Progress.antt =====
-- That the goroutine ends, and what it does when the caller does not go on.
use go_oci.Prelude.{
  ℕ, suc, ◌+◌, ◌-◌, ◌≤◌, ◌≡◌, refl, sym, ap, ◌∙◌, Bool, true, false, ◌||◌, List, [], ◌∷◌, All, ◌++◌,
  arith,
}
use go_oci.Cancel.{
  Caller, calling, Watcher, selecting, selecting_again, breaking, stopped, System, is_closed, Turn,
  caller_turn, watcher_turn, turn, run,
}

-- How many turns the goroutine needs at most.
abbrev pub remaining : Watcher → ℕ
remaining selecting = 3
remaining selecting_again = 2
remaining breaking = 1
remaining stopped = 0

abbrev pub watcher_turns : List Turn → ℕ
watcher_turns [] = 0
watcher_turns (watcher_turn c ∷ ts) = suc (watcher_turns ts)
watcher_turns (_ ∷ ts) = watcher_turns ts

-- The context is done, or the channel is closed.
abbrev pub is_ready : System → Bool
is_ready s = s.context_done || is_closed s.caller

turn-ready : (t : Turn) (s : System) → is_ready s ≡ true → is_ready (turn t s) ≡ true
unfolding turn
turn-ready t s h = ground arith

turn-remaining :
    (t : Turn) (s : System)
    → is_ready s ≡ true
    → remaining (turn t s).watcher ≤ remaining s.watcher - watcher_turns (t ∷ [])
unfolding turn
turn-remaining t s h = ground arith

none_remaining : (w : Watcher) → remaining w ≤ 0 → w ≡ stopped
none_remaining w h = ground arith

turns-cons :
    (t : Turn) (ts : List Turn) → watcher_turns (t ∷ ts) ≡ watcher_turns (t ∷ []) + watcher_turns ts
turns-cons t ts = ground arith

-- From any state in which the context is done or `done` is closed, and for every sequence of turns: if
-- the goroutine has as many of them as it may need, three at the first `select`, it ends.
pub run-stopped :
    (ts : List Turn) (s : System)
    → is_ready s ≡ true
    → remaining s.watcher ≤ watcher_turns ts
    → (run ts s).watcher ≡ stopped
unfolding run
run-stopped [] s ready enough = none_remaining s.watcher enough
run-stopped (t ∷ ts) s ready enough =
    run-stopped ts (turn t s) (turn-ready t s ready)
      (omega (arith, turn-remaining t s ready, turns-cons t ts))

-- The calls of `OCIBreak` that are still to come while the context is done and the caller stays.
abbrev pub owed : Watcher → Caller → List Caller
owed stopped c = []
owed _ c = c ∷ []

abbrev pub NoCaller : Turn → Type 0
NoCaller caller_turn = ⊥
NoCaller _ = Unit

turn-owed :
    (t : Turn) (s : System)
    → NoCaller t
    → s.context_done ≡ true
    → is_closed s.caller ≡ false
    → ((turn t s).context_done ≡ true)
      × ((turn t s).caller ≡ s.caller)
      × (owed (turn t s).watcher (turn t s).caller ++ (turn t s).breaks
          ≡ owed s.watcher s.caller ++ s.breaks)
unfolding turn
turn-owed t s n d c = ground arith

run-owed :
    (ts : List Turn) (s : System)
    → All NoCaller ts
    → s.context_done ≡ true
    → is_closed s.caller ≡ false
    → owed (run ts s).watcher (run ts s).caller ++ (run ts s).breaks
      ≡ owed s.watcher s.caller ++ s.breaks
unfolding run
run-owed [] s _ d c = refl
run-owed (t ∷ ts) s (n, ns) d c =
    let (d', same, kept) = turn-owed t s n d c in
    run-owed ts (turn t s) ns d' (ap is_closed same ∙ c) ∙ kept

-- From any state in which the context is done and the call of OCI goes on, and for every sequence of
-- turns in which the caller has none and the goroutine has three: it ends, and calls `OCIBreak` once
-- during the call, unless it had ended before.
pub run-breaks :
    (s : System) (ts : List Turn)
    → s.context_done ≡ true
    → s.caller ≡ calling
    → All NoCaller ts
    → 3 ≤ watcher_turns ts
    → ((run ts s).watcher ≡ stopped) × ((run ts s).breaks ≡ owed s.watcher calling ++ s.breaks)
run-breaks s ts d c ns enough =
    let ends = run-stopped ts s (ready s d) (omega (arith, at_most_three s.watcher, enough)) in
    (
      ends,
      ap (λ w. owed w (run ts s).caller ++ (run ts s).breaks) (sym ends)
          ∙ run-owed ts s ns d (ap is_closed c)
          ∙ ap (λ at. owed s.watcher at ++ s.breaks) c,
    )
  where
    ready : (s : System) → s.context_done ≡ true → is_ready s ≡ true
    ready s d = ground arith

    at_most_three : (w : Watcher) → remaining w ≤ 3
    at_most_three w = ground arith
