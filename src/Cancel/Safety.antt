-- ===== src/Cancel/Safety.antt =====
-- When a call is broken.
use go_oci.Prelude.{
  ◌≡◌, ◌⊎◌, inl, inr, ◌≢◌, if-tested, not, ◌&&◌, ◌||◌, refl, sym, subst, Bool, true, false, List,
  [], ◌∷◌, arith,
}
use go_oci.Cancel.{
  Caller, calling, returned, finished, Watcher, selecting, selecting_again, breaking, stopped,
  System, is_closed, start, Step, returns, closes, context_ends, sees_done, sees_context,
  sees_done_again, sees_nothing, breaks_call, Reach, here, next, Turn, caller_turn, context_turn,
  watcher_turn, select_first, select_again, watch, go_on, turn, run,
}

-- What is known at each place of the goroutine.
abbrev Known : Watcher → System → Type 0
Known selecting s = s.breaks ≡ []
Known selecting_again s = (s.breaks ≡ []) × (s.context_done ≡ true)
Known breaking s = (s.breaks ≡ []) × (s.context_done ≡ true)
Known stopped s =
    ((s.breaks ≡ []) × (is_closed s.caller ≡ true))
    ⊎ ((c : Caller) × (s.breaks ≡ c ∷ []) × (s.context_done ≡ true))

pub IsKnown : System → Type 0
IsKnown s = Known s.watcher s

Step-IsKnown : {s t : System} → Step s t → IsKnown s → IsKnown t
unfolding IsKnown
Step-IsKnown (returns e) k = ground arith
Step-IsKnown (closes e) k = ground arith
Step-IsKnown context_ends k = ground arith
Step-IsKnown (sees_done w c) k = ground arith
Step-IsKnown (sees_context w c) k = ground arith
Step-IsKnown (sees_done_again w c) k = ground arith
Step-IsKnown (sees_nothing w c) k = ground arith
Step-IsKnown (breaks_call w) k = ground arith

Reach-IsKnown : {s t : System} → Reach s t → IsKnown s → IsKnown t
Reach-IsKnown here k = k
Reach-IsKnown (next r st) k = Step-IsKnown st (Reach-IsKnown r k)

-- From the start of the goroutine on, in every order in which it, the caller and the context go on:
-- either `OCIBreak` has not been called, and the goroutine has not ended or `done` is closed, so that it
-- leaves no call to run on whose context is done; or it has been called once, and the context is done.
pub Reach-breaks :
    (c : Bool) (t : System)
    → Reach (start c) t
    → ((t.breaks ≡ []) × ((t.watcher ≢ stopped) ⊎ (is_closed t.caller ≡ true)))
      ⊎ ((at : Caller) × (t.breaks ≡ at ∷ []) × (t.context_done ≡ true))
unfolding IsKnown
Reach-breaks c t r = by_watcher t.watcher (Reach-IsKnown r refl)
  where
    by_watcher :
        (w : Watcher)
        → Known w t
        → ((t.breaks ≡ []) × ((w ≢ stopped) ⊎ (is_closed t.caller ≡ true)))
          ⊎ ((at : Caller) × (t.breaks ≡ at ∷ []) × (t.context_done ≡ true))
    by_watcher selecting k = inl (k, inl (λ e. cc))
    by_watcher selecting_again (k, d) = inl (k, inl (λ e. cc))
    by_watcher breaking (k, d) = inl (k, inl (λ e. cc))
    by_watcher stopped (inl (k, d)) = inl (k, inr d)
    by_watcher stopped (inr known) = inr known

both_left : (a b : Bool) → (a && b) ≡ true → a ≡ true
both_left true b h = refl
both_left false b h = h

turn-Step : (t : Turn) (s : System) → (turn t s ≡ s) ⊎ Step s (turn t s)
unfolding turn
turn-Step caller_turn s = by_caller s.caller refl
  where
    by_caller : (c : Caller) → s.caller ≡ c → (go_on c s ≡ s) ⊎ Step s (go_on c s)
    by_caller calling e = inr (returns e)
    by_caller returned e = inr (closes e)
    by_caller finished e = inl refl
turn-Step context_turn s = inr context_ends
turn-Step (watcher_turn choice) s = by_watcher s.watcher refl
  where
    first : s.watcher ≡ selecting → (select_first choice s ≡ s) ⊎ Step s (select_first choice s)
    first w =
        if-tested (λ u. (u ≡ s) ⊎ Step s u) (is_closed s.caller && (choice || not s.context_done))
          (λ c. inr (sees_done w (both_left (is_closed s.caller) _ c)))
          (λ _.
            if-tested (λ u. (u ≡ s) ⊎ Step s u) s.context_done (λ d. inr (sees_context w d))
              (λ _. inl refl))

    again : s.watcher ≡ selecting_again → (select_again s ≡ s) ⊎ Step s (select_again s)
    again w =
        if-tested (λ u. (u ≡ s) ⊎ Step s u) (is_closed s.caller) (λ c. inr (sees_done_again w c))
          (λ c. inr (sees_nothing w c))

    by_watcher : (w : Watcher) → s.watcher ≡ w → (watch w choice s ≡ s) ⊎ Step s (watch w choice s)
    by_watcher selecting e = first e
    by_watcher selecting_again e = again e
    by_watcher breaking e = inr (breaks_call e)
    by_watcher stopped e = inl refl

-- The states that sequences of turns lead to are reached by steps.
pub run-Reach : (ts : List Turn) (s u : System) → Reach s u → Reach s (run ts u)
unfolding run
run-Reach [] s u r = r
run-Reach (t ∷ ts) s u r = run-Reach ts s (turn t u) (after (turn-Step t u))
  where
    after : (turn t u ≡ u) ⊎ Step u (turn t u) → Reach s (turn t u)
    after (inl e) = subst (Reach s) (sym e) r
    after (inr st) = next r st
