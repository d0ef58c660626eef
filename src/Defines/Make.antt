-- ===== src/Defines/Make.antt =====
-- What `makeDefines` leaves held.
use go_oci.Prelude.{
  ℕ, suc, ◌≡◌, ◌≢◌, refl, sym, ap, ◌∙◌, some, List, [], ◌∷◌, ◌++◌, append-nil, append_assoc, All,
  Outcome, ok, fail, panic,
}
use go_oci.Oci.{Sword, Sqlt}
use go_oci.Column.{Define}
use go_oci.Blocks.{Event, Block, Held, replay, Entry, blocks_of}
use go_oci.Blocks.Laws.{IsFreeable, replay_then, index_same}
use go_oci.Defines.{
  Tree, Forest, node, leaf, branch, snoc, free_defines, blocks_of_tree, blocks_of_forest, Script,
  DefineError, Step, stopped, defined, step, Made, params_after, deferred, prepend, give_up,
  after_step, entry_of, calls_of, defines_of, loop, make_defines,
}
use go_oci.Defines.Free.{AreFreeable, AreFreeableIn, replay-free_defines}
use go_oci.Defines.Body.{holding, IsStep, step-IsStep}

replay-deferred :
    (ps : List ℕ) (bs : List Block) → replay (deferred ps) (holding bs ps) ≡ some (holding bs [])
unfolding replay
replay-deferred [] bs = refl
replay-deferred (p ∷ ps) bs = rw (index_same p) (replay-deferred ps bs)

blocks_of_forest-snoc :
    (ts : Forest) (t : Tree)
    → blocks_of_forest (snoc ts t) ≡ blocks_of_forest ts ++ blocks_of_tree t
unfolding blocks_of_tree
blocks_of_forest-snoc leaf t = append-nil (blocks_of_tree t)
blocks_of_forest-snoc (branch s ts) t =
    ap (λ bs. blocks_of_tree s ++ bs) (blocks_of_forest-snoc ts t)
    ∙ sym (append_assoc (blocks_of_tree s) (blocks_of_forest ts) (blocks_of_tree t))

AreFreeable-snoc :
    (ts : Forest) (t : Tree) → AreFreeable ts → AreFreeableIn t → AreFreeable (snoc ts t)
unfolding AreFreeableIn
AreFreeable-snoc leaf t h ht = (ht, tt)
AreFreeable-snoc (branch s ts) t (hs, h) ht = (hs, AreFreeable-snoc ts t h ht)

-- An entry behind the others.
abbrev grown : Forest → Entry → Forest
grown ts e = snoc ts (node e leaf)

blocks_of_forest-grown :
    (ts : Forest) (e : Entry) → blocks_of_forest (grown ts e) ≡ blocks_of_forest ts ++ blocks_of e
unfolding blocks_of_tree
blocks_of_forest-grown ts e = blocks_of_forest-snoc ts (node e leaf)

AreFreeable-grown :
    (ts : Forest) (e : Entry) → AreFreeable ts → IsFreeable e.buffer → AreFreeable (grown ts e)
unfolding AreFreeableIn
AreFreeable-grown ts e h he = AreFreeable-snoc ts (node e leaf) h (he, tt)

-- What the calls of `makeDefines` leave, of what is held before: with defines, what they own, all of
-- which `freeDefines` gives back by the right functions; with an error, nothing.
abbrev pub Leaves : Held → List Event → Outcome DefineError (Forest × List Define) → Type 0
Leaves h calls (ok (ts, ds)) =
    (replay calls h ≡ some (holding (blocks_of_forest ts) [])) × AreFreeable ts
Leaves h calls (fail e) = replay calls h ≡ some (holding [] [])
Leaves h calls panic = ⊥

give_up-Leaves :
    (e : DefineError) (calls : List Event) (ts : Forest) (entry : Entry) (ps : List ℕ)
    → AreFreeable ts
    → IsStep (blocks_of_forest ts) ps (stopped e calls entry)
    → Leaves (holding (blocks_of_forest ts) ps) (give_up e calls (grown ts entry) ps).calls (fail e)
unfolding IsStep
give_up-Leaves e calls ts entry ps h (he, hb) =
    let ps' = params_after calls ps in
    let owned = blocks_of_forest (grown ts entry) in
    let all : replay calls (holding (blocks_of_forest ts) ps) ≡ some (holding owned ps') =
      he ∙ ap (λ bs. some (holding bs ps')) (sym (blocks_of_forest-grown ts entry)) in
    let freed : replay (free_defines (grown ts entry)) (holding owned ps') ≡ some (holding [] ps') =
      ap (λ bs. replay (free_defines (grown ts entry)) (holding bs ps')) (sym (append-nil owned))
      ∙ replay-free_defines (grown ts entry) [] ps' (AreFreeable-grown ts entry h hb) in
    replay_then (calls ++ free_defines (grown ts entry)) (deferred ps') _ (holding [] ps')
      (replay_then calls (free_defines (grown ts entry)) _ _ all ∙ freed)
    ∙ replay-deferred ps' []

prepend-Leaves :
    (h h' : Held) (calls : List Event) (m : Made)
    → replay calls h ≡ some h'
    → Leaves h' m.calls m.result
    → Leaves h (prepend calls m).calls m.result
prepend-Leaves h h' calls m e l = by_result m.calls m.result l
  where
    by_result :
        (es : List Event) (r : Outcome DefineError (Forest × List Define))
        → Leaves h' es r
        → Leaves h (calls ++ es) r
    by_result es (ok (ts, ds)) (l, f) = (replay_then calls es h h' e ∙ l, f)
    by_result es (fail x) l = replay_then calls es h h' e ∙ l
    by_result es panic l = l

after_step-Leaves :
    (st : Step) (ts : Forest) (ps : List ℕ) (rest : Made)
    → AreFreeable ts
    → IsStep (blocks_of_forest ts) ps st
    → Leaves
        (holding (blocks_of_forest (grown ts (entry_of st))) (params_after (calls_of st) ps))
        rest.calls
        rest.result
    → Leaves
        (holding (blocks_of_forest ts) ps)
        (after_step st ts ps rest).calls
        (after_step st ts ps rest).result
unfolding IsStep
after_step-Leaves (stopped e calls entry) ts ps rest h k l = give_up-Leaves e calls ts entry ps h k
after_step-Leaves (defined d calls entry) ts ps rest h (k, b) l =
    prepend-Leaves _ _ calls rest
      (k
        ∙ ap (λ bs. some (holding bs (params_after calls ps)))
            (sym (blocks_of_forest-grown ts entry)))
      l

-- A column that is not a cursor.
abbrev pub IsPlain : Script → Type 0
IsPlain s = s.info.data_type ≢ Sqlt.rset

loop-Leaves :
    (i : ℕ) (ts : Forest) (ds : List Define) (ps : List ℕ) (ss : List Script)
    → AreFreeable ts
    → All IsPlain ss
    → Leaves
        (holding (blocks_of_forest ts) ps)
        (loop i ts ds ps ss).calls
        (loop i ts ds ps ss).result
unfolding loop IsStep
loop-Leaves i ts ds ps [] h _ = (replay-deferred ps (blocks_of_forest ts), h)
loop-Leaves i ts ds ps (s ∷ ss) h (plain, plains) =
    let k = step-IsStep (blocks_of_forest ts) ps i s plain in
    after_step-Leaves (step i s) ts ps _ h k (
      loop-Leaves (suc i) (grown ts (entry_of (step i s))) (ds ++ defines_of (step i s))
        (params_after (calls_of (step i s)) ps) ss
        (AreFreeable-grown ts (entry_of (step i s)) h (freeable _ ps (step i s) k)) plains)
  where
    freeable :
        (bs : List Block) (ps : List ℕ) (st : Step)
        → IsStep bs ps st
        → IsFreeable (entry_of st).buffer
    freeable bs ps st (k, b) = b

-- For columns none of which holds a cursor, whatever the calls return: when `makeDefines` fails, at
-- whichever call of whichever column, all that it has allocated is given back, by the functions that
-- undo the allocations, and each parameter's descriptor is freed once; when it succeeds, what is
-- held is what the defines own, and `freeDefines` gives all of that back.
pub make_defines-Leaves :
    (count_get : Sword) (ss : List Script)
    → All IsPlain ss
    → Leaves (holding [] []) (make_defines count_get ss).calls (make_defines count_get ss).result
unfolding make_defines replay AreFreeableIn blocks_of_forest
make_defines-Leaves Sword.success ss plains = loop-Leaves 0 leaf [] [] ss tt plains
make_defines-Leaves _ ss plains = refl
