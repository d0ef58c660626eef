-- ===== src/Statement/Holding.antt =====
-- statement.go, rows.go: what `Query` and `Exec` leave held by the binds and by the rows.
use go_oci.Prelude.{
  ◌⊎◌, ◌≡◌, refl, sym, ap, ◌∙◌, inl, Bool, true, false, not, ◌&&◌, ltb, ◌==◌, some, List, [], ◌++◌,
  append-nil, All, if◌then◌else◌, if-both, Outcome, ok, fail, panic,
}
use go_oci.Column.{Define}
use go_oci.Blocks.{Event, replay, Entry, blocks_of}
use go_oci.Blocks.Laws.{replay_then}
use go_oci.Defines.{Forest, Rows, DefineError, free_defines, close_rows, blocks_of_forest}
use go_oci.Defines.Free.{AreFreeable, replay-free_defines}
use go_oci.Defines.Body.{holding}
use go_oci.Defines.Make
use go_oci.Defines.Make.{IsPlain, make_defines-Leaves}
use go_oci.Statement.{
  Settings, QueryReplies, Ran, RunError, define_error, bind_error, output_error, call_error,
  context_done, stopped, after_defines, run_query, query_bound, query, with_binds,
}
use go_oci.Statement.Prepare.{Stmt, is_success}
use go_oci.Binds.{bind_values, free_binds}
use go_oci.Binds.Values.{BindError, Bind, Script}
use go_oci.Binds.Release
use go_oci.Binds.Release.{IsLost, bind_values-Leaves}

-- What a query's defines leave held: with rows, what `Rows.Close` gives back; with an error, nothing.
pub LeavesRows : List Event → Outcome RunError Rows → Type 0
LeavesRows es (ok rows) = replay (es ++ (close_rows rows).1) (holding [] []) ≡ some (holding [] [])
LeavesRows es (fail e) = replay es (holding [] []) ≡ some (holding [] [])
LeavesRows es panic = ⊥

freed_rows :
    (es : List Event) (ts : Forest)
    → replay es (holding [] []) ≡ some (holding (blocks_of_forest ts) [])
    → AreFreeable ts
    → replay (es ++ free_defines ts) (holding [] []) ≡ some (holding [] [])
freed_rows es ts e h =
    replay_then es (free_defines ts) _ _ e
    ∙ ap (λ bs. replay (free_defines ts) (holding bs [])) (sym (append-nil (blocks_of_forest ts)))
    ∙ replay-free_defines ts [] [] h

after_defines-LeavesRows :
    (done : Bool) (es : List Event) (d : Outcome DefineError (Forest × List Define))
    → Make.Leaves (holding [] []) es d
    → LeavesRows (after_defines done es d).0 (after_defines done es d).1
unfolding LeavesRows close_rows
after_defines-LeavesRows true es (ok (ts, ds)) (e, h) = freed_rows es ts e h
after_defines-LeavesRows false es (ok (ts, ds)) (e, h) =
    ap (λ l. replay (l ++ free_defines ts) (holding [] [])) (append-nil es) ∙ freed_rows es ts e h
after_defines-LeavesRows done es (fail x) e = e
after_defines-LeavesRows done es panic e = e

stopped-LeavesRows :
    (s : Stmt) (e : RunError)
    → LeavesRows (stopped {A = Rows} s e).define_calls (stopped {A = Rows} s e).result
unfolding LeavesRows replay
stopped-LeavesRows s e = refl

LeavesIn : Ran Rows → Type 0
LeavesIn m = LeavesRows m.define_calls m.result

executed_or_not :
    (b : Bool) (e : RunError) (es : List Event) (rows : Outcome RunError Rows)
    → LeavesRows es rows
    → LeavesRows (if b then es else []) (if b then rows else fail e)
unfolding LeavesRows replay
executed_or_not true e es rows h = h
executed_or_not false e es rows h = refl

run_query-LeavesIn :
    (c : Settings) (s : Stmt) (r : QueryReplies)
    → All IsPlain r.columns
    → LeavesIn (run_query c s r)
unfolding LeavesIn
run_query-LeavesIn c s r plains =
    executed_or_not (is_success r.execute) (call_error r.execute) _ _
      (after_defines-LeavesRows r.done_after _ _ (make_defines-Leaves r.count_get r.columns plains))

query_bound-LeavesIn :
    (c : Settings) (s : Stmt) (r : QueryReplies)
    → All IsPlain r.columns
    → LeavesIn (query_bound c s r)
unfolding query_bound LeavesIn
query_bound-LeavesIn c s r plains =
    let P : Ran Rows → Type 0 = LeavesIn in
    if-both P (not (is_success r.type_get)) (stopped-LeavesRows s (call_error r.type_get)) (
      if-both P (not (c.prefetch_rows == 1) && not (is_success r.set_rows))
        (stopped-LeavesRows s (call_error r.set_rows))
        (if-both P (ltb 0 c.prefetch_memory && not (is_success r.set_memory))
          (stopped-LeavesRows s (call_error r.set_memory))
          (if-both P r.done_before (stopped-LeavesRows s context_done)
            (run_query-LeavesIn c s r plains))))

with_binds-LeavesRows :
    (ss : List Script) (s : Stmt) (es : List Event) (b : Outcome BindError (List Entry × List Bind))
    (m : Ran Rows)
    → Release.Leaves 0 ss (Release.holding []) es b
    → LeavesIn m
    → LeavesRows (with_binds s es b m).define_calls (with_binds s es b m).result
unfolding LeavesIn LeavesRows replay
with_binds-LeavesRows ss s es (ok (entries, bs)) m _ h = h
with_binds-LeavesRows ss s es (fail e) m _ h = refl
with_binds-LeavesRows ss s es panic m h _ = elim h [ ]

-- What the binds of a run leave held: nothing, or after an error of `bindValues` what a lost bind owns.
abbrev pub LeavesBinds : {A : Type 0} → List Script → List Event → Outcome RunError A → Type 0
LeavesBinds ss es (fail (bind_error e)) =
    (replay es (Release.holding []) ≡ some (Release.holding []))
    ⊎ ((entry : Entry) × IsLost 0 ss e entry
        × (replay es (Release.holding []) ≡ some (Release.holding (blocks_of entry))))
LeavesBinds ss es _ = replay es (Release.holding []) ≡ some (Release.holding [])

nothing-LeavesBinds :
    {A : Type 0} (ss : List Script) (es : List Event) (r : Outcome RunError A)
    → replay es (Release.holding []) ≡ some (Release.holding [])
    → LeavesBinds ss es r
nothing-LeavesBinds ss es (ok x) h = h
nothing-LeavesBinds ss es panic h = h
nothing-LeavesBinds ss es (fail (bind_error e)) h = inl h
nothing-LeavesBinds ss es (fail (define_error e)) h = h
nothing-LeavesBinds ss es (fail (output_error e)) h = h
nothing-LeavesBinds ss es (fail context_done) h = h
nothing-LeavesBinds ss es (fail (call_error e)) h = h

pub with_binds-LeavesBinds :
    {A : Type 0} (ss : List Script) (s : Stmt) (es : List Event)
    (b : Outcome BindError (List Entry × List Bind)) (m : Ran A)
    → Release.Leaves 0 ss (Release.holding []) es b
    → LeavesBinds ss (with_binds s es b m).bind_calls (with_binds s es b m).result
with_binds-LeavesBinds ss s es (ok (entries, bs)) m (e, h) =
    nothing-LeavesBinds ss (es ++ free_binds entries) m.result
      (replay_then es (free_binds entries) _ _ e ∙ Release.free_binds-All entries h)
with_binds-LeavesBinds ss s es (fail x) m h = h
with_binds-LeavesBinds ss s es panic m h = elim h [ ]

-- For settings, a statement and replies whose columns hold no cursor, whatever the calls return. Of
-- what `Query` allocates for the columns, nothing is held when it fails, at whichever call; when it
-- returns rows, what is held is given back by `Rows.Close`, by the functions that undo the
-- allocations. Of what it allocates for the values, nothing is held when it returns, except that after
-- an error of `bindValues` what the bind of one of the values owns may be held, for which the type
-- switch has failed with that error before the bind was added.
pub query-Leaves :
    (c : Settings) (s : Stmt) (r : QueryReplies)
    → All IsPlain r.columns
    → LeavesRows (query c s r).define_calls (query c s r).result
      × LeavesBinds r.values (query c s r).bind_calls (query c s r).result
unfolding query
query-Leaves c s r plains =
    let b = bind_values r.values in
    (
      with_binds-LeavesRows r.values s b.calls b.result (query_bound c s r)
          (bind_values-Leaves r.values) (query_bound-LeavesIn c s r plains),
      with_binds-LeavesBinds r.values s b.calls b.result (query_bound c s r)
          (bind_values-Leaves r.values),
    )
