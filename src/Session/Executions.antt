-- ===== src/Session/Executions.antt =====
-- What `Exec` and `Query` execute, by whether the connection is in a transaction.
use go_oci.Prelude.{
  ◌≡◌, ◌⊎◌, inl, inr, refl, not, Bool, ◌&&◌, List, [], ◌∷◌, if-both, Outcome, ok, fail, panic, ltb,
  ◌==◌, ap,
}
use go_oci.Blocks.{Event, Entry}
use go_oci.Binds.{bind_values}
use go_oci.Binds.Values.{BindError, Bind}
use go_oci.Defines.{Rows}
use go_oci.Conn
use go_oci.Statement.Prepare.{Stmt, Call, is_success}
use go_oci.Statement.{
  Settings, ExecReplies, QueryReplies, Ran, Result, RunError, query_bound, query, exec, with_binds,
}
use go_oci.Statement.Execution.{Executes, exec-Executes}
use go_oci.Session.{executions}

-- Nothing is executed, or one statement, which commits by itself exactly outside of a transaction.
abbrev pub Once : Bool → List Call → Type 0
Once b calls = (executions calls ≡ []) ⊎ (executions calls ≡ Conn.stmt_execute (not b) ∷ [])

Executes-Once :
    (c : Settings) (calls : List Call) (r : Outcome RunError Result)
    → Executes c calls r
    → Once c.in_transaction calls
Executes-Once c calls (ok x) e = inr (ap executions e)
Executes-Once c calls (fail x) (inl e) = inl (ap executions e)
Executes-Once c calls (fail x) (inr e) = inr (ap executions e)
Executes-Once c calls panic (inl e) = inl (ap executions e)
Executes-Once c calls panic (inr e) = inr (ap executions e)

pub exec-Once :
    (c : Settings) (s : Stmt) (r : ExecReplies) → Once c.in_transaction (exec c s r).calls
exec-Once c s r = Executes-Once c (exec c s r).calls (exec c s r).result (exec-Executes c s r).0

OnceIn : Bool → Ran Rows → Type 0
OnceIn b m = Once b m.calls

query_bound-OnceIn :
    (c : Settings) (s : Stmt) (r : QueryReplies) → OnceIn c.in_transaction (query_bound c s r)
unfolding query_bound OnceIn
query_bound-OnceIn c s r =
    let P : Ran Rows → Type 0 = OnceIn c.in_transaction in
    if-both P (not (is_success r.type_get)) (inl refl) (
      if-both P (not (c.prefetch_rows == 1) && not (is_success r.set_rows)) (inl refl) (
        if-both P (ltb 0 c.prefetch_memory && not (is_success r.set_memory)) (inl refl)
          (if-both P r.done_before (inl refl) (inr refl))))

with_binds-OnceIn :
    (b : Bool) (s : Stmt) (es : List Event) (bs : Outcome BindError (List Entry × List Bind))
    (m : Ran Rows)
    → OnceIn b m
    → OnceIn b (with_binds s es bs m)
unfolding OnceIn
with_binds-OnceIn b s es (ok x) m h = h
with_binds-OnceIn b s es (fail e) m h = inl refl
with_binds-OnceIn b s es panic m h = inl refl

pub query-Once :
    (c : Settings) (s : Stmt) (r : QueryReplies) → Once c.in_transaction (query c s r).calls
unfolding query OnceIn
query-Once c s r =
    let b = bind_values r.values in
    with_binds-OnceIn c.in_transaction s b.calls b.result (query_bound c s r)
      (query_bound-OnceIn c s r)
