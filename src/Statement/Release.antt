-- ===== src/Statement/Release.antt =====
-- How a statement is released that was prepared and has run.
use go_oci.Prelude.{
  ℕ, subst, ok, fail, ◌==◌, ◌≡◌, refl, sym, ap, ◌∙◌, Bool, true, false, not, ◌&&◌, ◌||◌, List, [],
  ◌∷◌, Bytes, equal, ok, fail, if◌then◌else◌,
}
use go_oci.Oci.{Sword}
use go_oci.Statement.{Settings, QueryReplies, ExecReplies, close_stmt, query, exec}
use go_oci.Statement.Cache.{
  made_call, IsMarked, or_none, query_bound-IsMarked, exec_bound-IsMarked, with_binds-IsMarked,
}
use go_oci.Statement.Prepare.{
  PrepareError, is_success, is_success_or_info, prepare_context, fresh, Stmt, release,
  is_success_or_info, is_success,
}
use go_oci.Binds.{bind_values}

-- What is done with a statement before it is closed.
pub data Op : Type 0 where
  query_op : Settings → QueryReplies → Op
  exec_op : Settings → ExecReplies → Op

-- The statement after an operation.
abbrev pub perform : Op → Stmt → Stmt
perform (query_op c r) s = (query c s r).stmt
perform (exec_op c r) s = (exec c s r).stmt

-- The operation has executed the statement, and the execution has failed.
abbrev pub has_failed : Op → Stmt → Bool
has_failed (query_op c r) s = made_call (query c s r).calls && not (is_success_or_info r.execute)
has_failed (exec_op c r) s = made_call (exec c s r).calls && not (is_success_or_info r.execute)

-- The statement after operations, and whether one of them has failed to execute it.
abbrev pub perform_all : List Op → Stmt → Stmt
perform_all [] s = s
perform_all (o ∷ os) s = perform_all os (perform o s)

abbrev pub any_failed : List Op → Stmt → Bool
any_failed [] s = false
any_failed (o ∷ os) s = has_failed o s || any_failed os (perform o s)

perform-IsMarked :
    (o : Op) (s : Stmt)
    → ((perform o s).closed ≡ s.closed)
      × ((perform o s).cache_key ≡ s.cache_key)
      × ((perform o s).cache_delete
          ≡ (s.cache_delete || (not (equal s.cache_key []) && has_failed o s)))
unfolding query exec IsMarked
perform-IsMarked (query_op c r) s =
    with_binds-IsMarked r.execute s (bind_values r.values).calls (bind_values r.values).result _
      (query_bound-IsMarked c s r)
perform-IsMarked (exec_op c r) s =
    with_binds-IsMarked r.execute s (bind_values r.values).calls (bind_values r.values).result _
      (exec_bound-IsMarked c s r)

or_assoc : (d k f g : Bool) → ((d || (k && f)) || (k && g)) ≡ (d || (k && (f || g)))
or_assoc true k f g = refl
or_assoc false true f g = refl
or_assoc false false f g = refl

perform_all-IsMarked :
    (os : List Op) (s : Stmt)
    → ((perform_all os s).closed ≡ s.closed)
      × ((perform_all os s).cache_key ≡ s.cache_key)
      × ((perform_all os s).cache_delete
          ≡ (s.cache_delete || (not (equal s.cache_key []) && any_failed os s)))
perform_all-IsMarked [] s = (refl, refl, or_none s.cache_delete (not (equal s.cache_key [])))
perform_all-IsMarked (o ∷ os) s =
    let (c, k, d) = perform-IsMarked o s in
    let (c', k', d') = perform_all-IsMarked os (perform o s) in
    (
      c' ∙ c,
      k' ∙ k,
      d'
          ∙ ap (λ b. b || (not (equal (perform o s).cache_key []) && any_failed os (perform o s))) d
          ∙ ap
              (λ key.
                (s.cache_delete || (not (equal s.cache_key []) && has_failed o s))
                || (not (equal key []) && any_failed os (perform o s)))
              k
          ∙ or_assoc s.cache_delete (not (equal s.cache_key [])) (has_failed o s)
              (any_failed os (perform o s)),
    )

closes :
    (s : Stmt) (key : Bytes) (d : Bool) (r r' : Sword)
    → s.closed ≡ false
    → s.cache_key ≡ key
    → s.cache_delete ≡ d
    → ((close_stmt r s).1 ≡ release key d ∷ []) × ((close_stmt r' (close_stmt r s).0).1 ≡ [])
unfolding close_stmt
closes s key d r r' c k e = (rw (c, k, e) (refl), rw c (refl))

-- The key of a statement that is prepared with a cache of some size.
abbrev pub key_of : ℕ → Bytes → Bytes
key_of n text = if n == 0 then [] else text

fresh_if :
    (b : Bool) (e : PrepareError) (key : Bytes) (s : Stmt)
    → (if b then ok (fresh key) else fail e) ≡ ok s
    → fresh key ≡ s
fresh_if true e key s h = cc
fresh_if false e key s h = cc

prepared_fresh :
    (q : Bool) (n : ℕ) (done : Bool) (p : Sword) (sql : Bytes) (text : Bytes) (s : Stmt)
    → prepare_context q n done p sql ≡ (text, ok s)
    → fresh (key_of n text) ≡ s
unfolding prepare_context
prepared_fresh q n done p sql text s h =
    sym (ap (λ x. fresh (key_of n x.0)) h) ∙ by_tests done (n == 0) _ (ap (λ x. x.1) h)
  where
    by_tests :
        (d z : Bool) (t : Bytes)
        → (if d
            then fail PrepareError.context_error
            else if z
            then (if is_success p then ok (fresh []) else fail (PrepareError.oci_error p))
            else if is_success_or_info p
            then ok (fresh t)
            else fail (PrepareError.oci_error p))
          ≡ ok s
        → fresh (if z then [] else t) ≡ s
    by_tests true z t e = cc
    by_tests false true t e = fresh_if (is_success p) _ [] s e
    by_tests false false t e = fresh_if (is_success_or_info p) _ t s e

-- A statement that `PrepareContext` has returned, with any runs of `Query` and `Exec`, and then `Close`,
-- whatever its result: the statement is released once, with the text that it was prepared with as the
-- key where the connection has a cache, and with no key where it has none; it is deleted from the
-- cache exactly when the key is not empty and one of the executions has failed. Closing again makes no
-- call.
pub close_stmt-prepare_context :
    (q : Bool) (n : ℕ) (done : Bool) (p : Sword) (sql : Bytes) (text : Bytes) (s : Stmt)
    (os : List Op) (r r' : Sword)
    → prepare_context q n done p sql ≡ (text, ok s)
    → ((close_stmt r (perform_all os s)).1
        ≡ release (key_of n text) (not (equal (key_of n text) []) && any_failed os s) ∷ [])
      × ((close_stmt r' (close_stmt r (perform_all os s)).0).1 ≡ [])
close_stmt-prepare_context q n done p sql text s os r r' h =
    let e = prepared_fresh q n done p sql text s h in
    subst
      (λ x.
        ((close_stmt r (perform_all os x)).1
          ≡ release (key_of n text) (not (equal (key_of n text) []) && any_failed os x) ∷ [])
        × ((close_stmt r' (close_stmt r (perform_all os x)).0).1 ≡ []))
      e (from_fresh os (key_of n text))
  where
    from_fresh :
        (os : List Op) (key : Bytes)
        → ((close_stmt r (perform_all os (fresh key))).1
            ≡ release key (not (equal key []) && any_failed os (fresh key)) ∷ [])
          × ((close_stmt r' (close_stmt r (perform_all os (fresh key))).0).1 ≡ [])
    from_fresh os key =
        let (c, k, d) = perform_all-IsMarked os (fresh key) in
        closes (perform_all os (fresh key)) key _ r r' c k d
