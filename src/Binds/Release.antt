-- ===== src/Binds/Release.antt =====
-- What `bindValues` leaves held, and what `freeBinds` gives back.
use go_oci.Prelude.{
  ℕ, suc, ◌+◌, get_elem?, ◌≡◌, ◌⊎◌, inl, inr, refl, sym, ap, ◌∙◌, Option, none, some, List, [], ◌∷◌,
  ◌++◌, append-nil, append_assoc, All, All-append, if-both, Outcome, ok, fail, panic, arith,
}
use go_oci.Oci.{Sqlt}
use go_oci.Column.{Allocation, free_buffer}
use go_oci.Blocks.{Event, Block, Held, Entry, replay, blocks_of, free_entry, obtain_counters}
use go_oci.Blocks.Laws.{IsFreeable, replay_then, replay-free_entry}
use go_oci.Binds.{
  typed, entry_with, buffer_call, Step, unstarted, added, lost, bound, add, with_input, step,
  free_binds, Bound, prepend, after_step, entries_of, binds_of, loop, bind_values,
}
use go_oci.Binds.Values.{
  GoValue, Input, BindError, Bind, Script, Prepared, prepared, broken, prepare, input_of,
  is_success,
}

abbrev pub holding : List Block → Held
holding bs = record { blocks = bs; params = [] }

abbrev pub blocks_of_all : List Entry → List Block
blocks_of_all [] = []
blocks_of_all (e ∷ es) = blocks_of e ++ blocks_of_all es

abbrev pub IsFreeableEntry : Entry → Type 0
IsFreeableEntry e = IsFreeable e.buffer

blocks_of_all-append :
    (es fs : List Entry) → blocks_of_all (es ++ fs) ≡ blocks_of_all es ++ blocks_of_all fs
blocks_of_all-append [] fs = refl
blocks_of_all-append (e ∷ es) fs =
    ap (λ bs. blocks_of e ++ bs) (blocks_of_all-append es fs)
    ∙ sym (append_assoc (blocks_of e) (blocks_of_all es) (blocks_of_all fs))

pub replay-free_binds :
    (es : List Entry) (rest : List Block)
    → All IsFreeableEntry es
    → replay (free_binds es) (holding (blocks_of_all es ++ rest)) ≡ some (holding rest)
unfolding free_binds replay
replay-free_binds [] rest h = refl
replay-free_binds (e ∷ es) rest (he, hs) =
    ap (λ bs. replay (free_entry e ++ free_binds es) (holding bs))
      (append_assoc (blocks_of e) (blocks_of_all es) rest)
    ∙ replay_then (free_entry e) (free_binds es) _ (holding (blocks_of_all es ++ rest))
        (replay-free_entry e (blocks_of_all es ++ rest) [] he)
    ∙ replay-free_binds es rest hs

-- The type switch puts into a bind only a buffer that `freeBuffer` gives back by the right function.
IsGood : Prepared → Type 0
IsGood (prepared b) = IsFreeable (typed b.data_type b.pbuf)
IsGood (broken e a) = Unit

prepare-IsGood : (i : Input) (s : Script) (v : GoValue) → IsGood (prepare i s v)
unfolding prepare IsGood free_buffer
prepare-IsGood i s v = ground arith

-- The body of the loop adds to what is held what the entry owns, and what it owns can be freed.
IsStep : List Block → Step → Type 0
IsStep bs (unstarted e) = Unit
IsStep bs (added e calls entry) =
    (replay calls (holding bs) ≡ some (holding (bs ++ blocks_of entry))) × IsFreeableEntry entry
IsStep bs (lost e calls entry) = replay calls (holding bs) ≡ some (holding (bs ++ blocks_of entry))
IsStep bs (bound calls entry b) =
    (replay calls (holding bs) ≡ some (holding (bs ++ blocks_of entry))) × IsFreeableEntry entry

replay-obtained :
    (bs : List Block) (i : ℕ) (t : Sqlt) (a : Option Allocation)
    → replay (obtain_counters i ++ buffer_call i a) (holding bs)
      ≡ some (holding (bs ++ blocks_of (entry_with i t a)))
unfolding replay obtain_counters
replay-obtained bs i t none = ap (λ bs. some (holding bs)) (append_assoc bs _ _)
replay-obtained bs i t (some a) =
    ap (λ bs. some (holding bs)) (append_assoc (bs ++ _ ∷ []) _ _ ∙ append_assoc bs _ _)

add-IsStep :
    (bs : List Block) (i : ℕ) (s : Script) (p : Prepared) → IsGood p → IsStep bs (add i s p)
unfolding IsStep IsGood
add-IsStep bs i s (broken e a) h = replay-obtained bs i Sqlt.afc a
add-IsStep bs i s (prepared b) h =
    if-both (IsStep bs) (is_success s.bind) (replay-obtained bs i b.data_type b.pbuf, h)
      (replay-obtained bs i b.data_type b.pbuf, h)

with_input-IsStep :
    (bs : List Block) (i : ℕ) (s : Script) (v : Option Input) → IsStep bs (with_input i s v)
unfolding IsStep
with_input-IsStep bs i s none = (counters_only, tt)
  where
    counters_only :
        replay (obtain_counters i) (holding bs)
        ≡ some (holding (bs ++ blocks_of (entry_with i Sqlt.afc none)))
    counters_only =
        ap (λ es. replay es (holding bs)) (sym (append-nil (obtain_counters i)))
        ∙ replay-obtained bs i Sqlt.afc none
with_input-IsStep bs i s (some v) =
    add-IsStep bs i s (prepare v s v.value) (prepare-IsGood v s v.value)

step-IsStep : (bs : List Block) (i : ℕ) (s : Script) → IsStep bs (step i s)
unfolding step IsStep
step-IsStep bs i s =
    if-both (IsStep bs) s.context_done tt (with_input-IsStep bs i s (input_of s.argument))

-- The loop has stopped with the error, for one of the values from an index on, before it added the
-- value's bind to `binds`.
abbrev pub IsLost : ℕ → List Script → BindError → Entry → Type 0
IsLost i ss e entry =
    (k : ℕ) × (s : Script) × (cs : List Event) × (get_elem? ss k ≡ some s)
    × (step (i + k) s ≡ lost e cs entry)

-- What the calls for the values from an index on leave, of what is held before. With binds: what the
-- binds own, all of which `freeBinds` gives back. With an error: nothing, or what a lost bind owns.
abbrev pub Leaves :
    ℕ → List Script → Held → List Event → Outcome BindError (List Entry × List Bind) → Type 0
Leaves i ss h calls (ok (es, bs)) =
    (replay calls h ≡ some (holding (blocks_of_all es))) × All IsFreeableEntry es
Leaves i ss h calls (fail e) =
    (replay calls h ≡ some (holding []))
    ⊎ ((entry : Entry) × IsLost i ss e entry × (replay calls h ≡ some (holding (blocks_of entry))))
Leaves i ss h calls panic = ⊥

IsLost-shift :
    (i : ℕ) (s : Script) (ss : List Script) (e : BindError) (n : Entry)
    → IsLost (suc i) ss e n
    → IsLost i (s ∷ ss) e n
IsLost-shift i s ss e n (k, t, cs, at, is) = (suc k, t, cs, at, ap (λ j. step j t) (same i k) ∙ is)
  where
    same : (i k : ℕ) → i + suc k ≡ suc i + k
    same i k = omega arith

blocks_of_all-snoc :
    (es : List Entry) (e : Entry) → blocks_of_all (es ++ e ∷ []) ≡ blocks_of_all es ++ blocks_of e
blocks_of_all-snoc es e =
    blocks_of_all-append es (e ∷ []) ∙ ap (λ bs. blocks_of_all es ++ bs) (append-nil (blocks_of e))

pub free_binds-All :
    (es : List Entry)
    → All IsFreeableEntry es
    → replay (free_binds es) (holding (blocks_of_all es)) ≡ some (holding [])
free_binds-All es h =
    ap (λ bs. replay (free_binds es) (holding bs)) (sym (append-nil (blocks_of_all es)))
    ∙ replay-free_binds es [] h

prepend-Leaves :
    (i : ℕ) (s : Script) (ss : List Script) (h h' : Held) (cs : List Event) (b : Bound)
    → replay cs h ≡ some h'
    → Leaves (suc i) ss h' b.calls b.result
    → Leaves i (s ∷ ss) h (prepend cs b).calls b.result
prepend-Leaves i s ss h h' cs b e l = by_result b.calls b.result l
  where
    by_result :
        (fs : List Event) (r : Outcome BindError (List Entry × List Bind))
        → Leaves (suc i) ss h' fs r
        → Leaves i (s ∷ ss) h (cs ++ fs) r
    by_result fs (ok (es, bs)) (l, f) = (replay_then cs fs h h' e ∙ l, f)
    by_result fs (fail x) (inl l) = inl (replay_then cs fs h h' e ∙ l)
    by_result fs (fail x) (inr (n, k, l)) =
        inr (n, IsLost-shift i s ss x n k, replay_then cs fs h h' e ∙ l)
    by_result fs panic l = l

here : (i : ℕ) → i + 0 ≡ i
here i = omega arith

after_step-Leaves :
    (i : ℕ) (s : Script) (ss : List Script) (st : Step) (es : List Entry) (rest : Bound)
    → step i s ≡ st
    → All IsFreeableEntry es
    → IsStep (blocks_of_all es) st
    → (All IsFreeableEntry (es ++ entries_of st)
        → Leaves (suc i) ss (holding (blocks_of_all (es ++ entries_of st))) rest.calls rest.result)
    → Leaves i
        (s ∷ ss)
        (holding (blocks_of_all es))
        (after_step st es rest).calls
        (after_step st es rest).result
unfolding IsStep
after_step-Leaves i s ss (unstarted e) es rest is h k l = inl (free_binds-All es h)
after_step-Leaves i s ss (added e cs n) es rest is h (k, f) l = inl (
    replay_then cs (free_binds (es ++ n ∷ [])) _ _
      (k ∙ ap (λ bs. some (holding bs)) (sym (blocks_of_all-snoc es n)))
    ∙ free_binds-All (es ++ n ∷ []) (All-append IsFreeableEntry es (n ∷ []) h (f, tt)))
after_step-Leaves i s ss (lost e cs n) es rest is h k l = inr (
  n,
  (0, s, cs, refl, ap (λ j. step j s) (here i) ∙ is),
  replay_then cs (free_binds es) _ _ k ∙ replay-free_binds es (blocks_of n) h,
)
after_step-Leaves i s ss (bound cs n b) es rest is h (k, f) l =
    prepend-Leaves i s ss _ _ cs rest
      (k ∙ ap (λ bs. some (holding bs)) (sym (blocks_of_all-snoc es n)))
      (l (All-append IsFreeableEntry es (n ∷ []) h (f, tt)))

loop-Leaves :
    (i : ℕ) (es : List Entry) (bs : List Bind) (ss : List Script)
    → All IsFreeableEntry es
    → Leaves i ss (holding (blocks_of_all es)) (loop i es bs ss).calls (loop i es bs ss).result
unfolding loop replay
loop-Leaves i es bs [] h = (refl, h)
loop-Leaves i es bs (s ∷ ss) h =
    after_step-Leaves i s ss (step i s) es _ refl h (step-IsStep (blocks_of_all es) i s)
      (λ h'. loop-Leaves (suc i) (es ++ entries_of (step i s)) (bs ++ binds_of (step i s)) ss h')

-- Whatever the values and whatever the calls return: when `bindValues` succeeds, what is held is what
-- the binds own, and `freeBinds` gives all of that back by the functions that undo the allocations;
-- when it fails, all binds that it has added are given back, so that nothing is held, or what the
-- bind of one of the values owns, for which the type switch has failed with the error that is
-- returned, before the bind was added.
pub bind_values-Leaves :
    (ss : List Script) → Leaves 0 ss (holding []) (bind_values ss).calls (bind_values ss).result
unfolding bind_values
bind_values-Leaves ss = loop-Leaves 0 [] [] ss tt
