-- ===== src/Statement/Cache.antt =====
-- What a run of `Query` or `Exec` does to the statement.
use go_oci.Prelude.{
  ltb, ◌==◌, ◌≡◌, refl, sym, ap, ◌∙◌, Bool, true, false, not, ◌&&◌, ◌||◌, List, [], ◌∷◌, equal,
  Outcome, ok, fail, panic, if◌then◌else◌, if-both,
}
use go_oci.Oci.{Sword}
use go_oci.Blocks.{Event, Entry}
use go_oci.Binds.Values.{BindError, Bind}
use go_oci.Statement.{
  Settings, QueryReplies, ExecReplies, Ran, executed, RunError, call_error, context_done, stopped,
  query_bound, exec_bound, run_query, run_exec, with_binds,
}
use go_oci.Statement.Prepare.{Stmt, Call, is_success_or_info, is_success}
use go_oci.Defines.{Rows}

abbrev pub made_call : List Call → Bool
made_call [] = false
made_call (c ∷ cs) = true

-- What a run does to the statement.
unfoldable pub IsMarked : {A : Type 0} → Sword → Stmt → Ran A → Type 0
IsMarked r s m =
    (m.stmt.closed ≡ s.closed)
    × (m.stmt.cache_key ≡ s.cache_key)
    × (m.stmt.cache_delete ≡ (
        s.cache_delete
        || (not (equal s.cache_key []) && (made_call m.calls && not (is_success_or_info r)))))

or_false : (d x y : Bool) → d ≡ (d || (x && (false && y)))
or_false true x y = refl
or_false false true y = refl
or_false false false y = refl

unmarked-IsMarked :
    {A : Type 0} (r : Sword) (s : Stmt) (m : Ran A)
    → m.stmt ≡ s
    → made_call m.calls ≡ false
    → IsMarked r s m
unfolding IsMarked
unmarked-IsMarked r s m e h = (
  ap (λ t. t.closed) e,
  ap (λ t. t.cache_key) e,
  ap (λ t. t.cache_delete) e
      ∙ or_false s.cache_delete (not (equal s.cache_key [])) (not (is_success_or_info r))
      ∙ ap
          (λ b. s.cache_delete || (not (equal s.cache_key []) && (b && not (is_success_or_info r))))
          (sym h),
)

pub or_none : (d k : Bool) → d ≡ (d || (k && false))
or_none true k = refl
or_none false true = refl
or_none false false = refl

or_true : (d : Bool) → true ≡ (d || true)
or_true true = refl
or_true false = refl

marked_fields :
    (s : Stmt) (x y : Bool)
    → ((if x && y then record s { cache_delete = true } else s).closed ≡ s.closed)
      × ((if x && y then record s { cache_delete = true } else s).cache_key ≡ s.cache_key)
      × ((if x && y then record s { cache_delete = true } else s).cache_delete
          ≡ (s.cache_delete || (x && y)))
marked_fields s true true = (refl, refl, or_true s.cache_delete)
marked_fields s true false = (refl, refl, or_none s.cache_delete true)
marked_fields s false y = (refl, refl, or_none s.cache_delete false)

executed-fields :
    (r : Sword) (s : Stmt)
    → ((executed r s).closed ≡ s.closed)
      × ((executed r s).cache_key ≡ s.cache_key)
      × ((executed r s).cache_delete
          ≡ (s.cache_delete || (not (equal s.cache_key []) && not (is_success_or_info r))))
unfolding executed
executed-fields r s = marked_fields s (not (equal s.cache_key [])) (not (is_success_or_info r))

executed-IsMarked :
    {A : Type 0} (r : Sword) (s : Stmt) (m : Ran A)
    → m.stmt ≡ executed r s
    → made_call m.calls ≡ true
    → IsMarked r s m
unfolding IsMarked
executed-IsMarked r s m e h =
    let (closed, key, delete) = executed-fields r s in
    (
      ap (λ t. t.closed) e ∙ closed,
      ap (λ t. t.cache_key) e ∙ key,
      ap (λ t. t.cache_delete) e
          ∙ delete
          ∙ ap
              (λ b.
                s.cache_delete || (not (equal s.cache_key []) && (b && not (is_success_or_info r))))
              (sym h),
    )

stopped-IsMarked :
    (A : Type 0) (r : Sword) (s : Stmt) (e : RunError) → IsMarked r s (stopped {A = A} s e)
stopped-IsMarked A r s e = unmarked-IsMarked r s (stopped s e) refl refl

pub query_bound-IsMarked :
    (c : Settings) (s : Stmt) (r : QueryReplies) → IsMarked r.execute s (query_bound c s r)
unfolding query_bound
query_bound-IsMarked c s r =
    let P : Ran Rows → Type 0 = IsMarked r.execute s in
    if-both P (not (is_success r.type_get)) (stopped-IsMarked _ r.execute s (call_error r.type_get))
      (if-both P (not (c.prefetch_rows == 1) && not (is_success r.set_rows))
        (stopped-IsMarked _ r.execute s (call_error r.set_rows))
        (if-both P (ltb 0 c.prefetch_memory && not (is_success r.set_memory))
          (stopped-IsMarked _ r.execute s (call_error r.set_memory))
          (if-both P r.done_before (stopped-IsMarked _ r.execute s context_done)
            (executed-IsMarked r.execute s (run_query c s r) refl refl))))

pub exec_bound-IsMarked :
    (c : Settings) (s : Stmt) (r : ExecReplies) → IsMarked r.execute s (exec_bound c s r)
unfolding exec_bound
exec_bound-IsMarked c s r =
    if-both (IsMarked r.execute s) r.done_before (stopped-IsMarked _ r.execute s context_done)
      (executed-IsMarked r.execute s (run_exec c s r) refl refl)

pub with_binds-IsMarked :
    {A : Type 0} (r : Sword) (s : Stmt) (es : List Event)
    (b : Outcome BindError (List Entry × List Bind)) (m : Ran A)
    → IsMarked r s m
    → IsMarked r s (with_binds s es b m)
unfolding IsMarked
with_binds-IsMarked r s es (ok (entries, bs)) m h = h
with_binds-IsMarked r s es (fail e) m h =
    unmarked-IsMarked r s (with_binds s es (fail e) m) refl refl
with_binds-IsMarked r s es panic m h = unmarked-IsMarked r s (with_binds s es panic m) refl refl
