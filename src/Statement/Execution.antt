-- ===== src/Statement/Execution.antt =====
-- statement.go: what `Exec` executes, and what it leaves held by the binds.
use go_oci.Prelude.{◌≡◌, ◌⊎◌, inl, inr, refl, not, List, [], ◌∷◌, if-both, Outcome, ok, fail, panic}
use go_oci.Blocks.{Event, Entry}
use go_oci.Binds.{bind_values}
use go_oci.Binds.Values.{BindError, Bind}
use go_oci.Binds.Release.{bind_values-Leaves}
use go_oci.Statement.Prepare.{Stmt, Call, execute}
use go_oci.Statement.{
  Settings, ExecReplies, Ran, Result, RunError, run_exec, exec_bound, exec, with_binds,
}
use go_oci.Statement.Holding.{LeavesBinds, with_binds-LeavesBinds}

-- With a result the statement was executed once, and its changes are committed with it outside of a
-- transaction only; without one it was not executed more than once.
abbrev pub Executes : Settings → List Call → Outcome RunError Result → Type 0
Executes c calls (ok x) = calls ≡ execute 1 (not c.in_transaction) ∷ []
Executes c calls _ = (calls ≡ []) ⊎ (calls ≡ execute 1 (not c.in_transaction) ∷ [])

ExecutesIn : Settings → Ran Result → Type 0
ExecutesIn c m = Executes c m.calls m.result

once-Executes :
    (c : Settings) (r : Outcome RunError Result)
    → Executes c (execute 1 (not c.in_transaction) ∷ []) r
once-Executes c (ok x) = refl
once-Executes c (fail e) = inr refl
once-Executes c panic = inr refl

exec_bound-ExecutesIn :
    (c : Settings) (s : Stmt) (r : ExecReplies) → ExecutesIn c (exec_bound c s r)
unfolding exec_bound ExecutesIn
exec_bound-ExecutesIn c s r =
    if-both (ExecutesIn c) r.done_before (inl refl) (once-Executes c (run_exec c s r).result)

with_binds-Executes :
    (c : Settings) (s : Stmt) (es : List Event) (b : Outcome BindError (List Entry × List Bind))
    (m : Ran Result)
    → ExecutesIn c m
    → Executes c (with_binds s es b m).calls (with_binds s es b m).result
unfolding ExecutesIn
with_binds-Executes c s es (ok (entries, bs)) m h = h
with_binds-Executes c s es (fail e) m h = inl refl
with_binds-Executes c s es panic m h = inl refl

-- Whatever the calls return, `Exec` executes the statement at most once, and exactly once when it
-- returns a result; the execution commits on success exactly outside of a transaction. Nothing of what
-- it allocates for the values is held when it returns, except that after an error of `bindValues` what
-- the bind of one of the values owns may be held, for which the type switch has failed with that
-- error before the bind was added.
pub exec-Executes :
    (c : Settings) (s : Stmt) (r : ExecReplies)
    → Executes c (exec c s r).calls (exec c s r).result
      × LeavesBinds r.values (exec c s r).bind_calls (exec c s r).result
unfolding exec
exec-Executes c s r =
    let b = bind_values r.values in
    (
      with_binds-Executes c s b.calls b.result (exec_bound c s r) (exec_bound-ExecutesIn c s r),
      with_binds-LeavesBinds r.values s b.calls b.result (exec_bound c s r)
          (bind_values-Leaves r.values),
    )
