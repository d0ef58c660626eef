-- ===== src/Session/Refinement.antt =====
-- A session implements the operations of a connection: `Exec` and `Query` do to the connection what
-- the execution of a statement does.
use go_oci.Prelude.{◌≡◌, inl, inr, refl, ap, ◌∙◌, Bool, true, false, ℕ, List, [], ◌∷◌, ◌++◌}
use go_oci.Oci.{Sword}
use go_oci.Conn.{
  Conn, Call, Diagnostic, Op, begin_op, execute_op, commit_op, rollback_op, execute, perform, run,
}
use go_oci.Statement.Prepare
use go_oci.Statement.{exec, query}
use go_oci.Prelude.Int
use go_oci.Session.{
  Act, begin_act, exec_act, query_act, commit_act, rollback_act, executions, settings, act, session,
}
use go_oci.Session.Executions.{Once, exec-Once, query-Once}

-- The operation that an act implements. A statement is executed, or ends before it is.
abbrev pub Implements : Act → Op → Type 0
Implements (begin_act done r d) o = o ≡ begin_op done r d
Implements (exec_act s r) o = (done : Bool) × (d : Diagnostic) × (o ≡ execute_op done r.execute d)
Implements (query_act s r) o = (done : Bool) × (d : Diagnostic) × (o ≡ execute_op done r.execute d)
Implements (commit_act r d) o = o ≡ commit_op r d
Implements (rollback_act r d) o = o ≡ rollback_op r d

abbrev pub AllImplement : List Act → List Op → Type 0
AllImplement [] [] = Unit
AllImplement (a ∷ acts) (o ∷ os) = Implements a o × AllImplement acts os
AllImplement _ _ = ⊥

abbrev quiet : Diagnostic
quiet = record { result = Sword.no_data; code = Int.pos 0; text = [] }

abbrev by_op : Op → Conn → Conn × List Call
by_op o c = ((perform o c).conn, (perform o c).calls)

-- One operation or none, by what was executed.
Once-perform :
    (r : Sword) (calls : List Prepare.Call) (c : Conn)
    → Once c.in_transaction calls
    → (done : Bool) × ((c, executions calls) ≡ by_op (execute_op done r quiet) c)
unfolding perform execute
Once-perform r calls c (inl e) = (true, ap (λ es. (c, es)) e)
Once-perform r calls c (inr e) = (false, ap (λ es. (c, es)) e)

module _ (prefetch_rows prefetch_memory : ℕ) where
  act-perform :
      (a : Act) (c : Conn)
      → (o : Op) × Implements a o × (act prefetch_rows prefetch_memory a c ≡ by_op o c)
  unfolding act perform
  act-perform (begin_act done r d) c = (begin_op done r d, refl, refl)
  act-perform (commit_act r d) c = (commit_op r d, refl, refl)
  act-perform (rollback_act r d) c = (rollback_op r d, refl, refl)
  act-perform (exec_act s r) c =
      let (done, e) =
        Once-perform r.execute (exec (settings prefetch_rows prefetch_memory c) s r).calls c
          (exec-Once (settings prefetch_rows prefetch_memory c) s r) in
      (execute_op done r.execute quiet, (done, quiet, refl), e)
  act-perform (query_act s r) c =
      let (done, e) =
        Once-perform r.execute (query (settings prefetch_rows prefetch_memory c) s r).calls c
          (query-Once (settings prefetch_rows prefetch_memory c) s r) in
      (execute_op done r.execute quiet, (done, quiet, refl), e)

  then_more :
      (a : Act) (o : Op) (acts : List Act) (os : List Op) (c : Conn)
      → act prefetch_rows prefetch_memory a c ≡ by_op o c
      → session prefetch_rows prefetch_memory acts (perform o c).conn ≡ run os (perform o c).conn
      → session prefetch_rows prefetch_memory (a ∷ acts) c ≡ run (o ∷ os) c
  unfolding session run
  then_more a o acts os c one more =
      ap
        (λ (p : Conn × List Call).
          let (c₂, calls) = session prefetch_rows prefetch_memory acts p.0 in (c₂, p.1 ++ calls))
        one
      ∙ ap (λ (q : Conn × List Call). (q.0, (perform o c).calls ++ q.1)) more

  -- Every session is a run of operations that its acts implement, one for each, with the same calls of
  -- OCI and the same connection at the end.
  pub session-run :
      (acts : List Act) (c : Conn)
      → (os : List Op) × AllImplement acts os
        × (session prefetch_rows prefetch_memory acts c ≡ run os c)
  unfolding session run
  session-run [] c = ([], tt, refl)
  session-run (a ∷ acts) c =
      let (o, here, one) = act-perform a c in
      let (os, later, more) = session-run acts (perform o c).conn in
      (o ∷ os, (here, later), then_more a o acts os c one more)
