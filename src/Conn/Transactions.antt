-- ===== src/Conn/Transactions.antt =====
-- Which statements commit by themselves.
use go_oci.Prelude.{
  ◌≡◌, ◌⊎◌, inl, inr, refl, ap, subst, sym, Bool, true, false, not, List, [], ◌∷◌, ok, All,
  All-append,
}
use go_oci.Oci.{Sword}
use go_oci.Source.{TransactionMode, readwrite}
use go_oci.Conn.Errors.{get_error-nil}
use go_oci.Conn.{
  after_start, Conn, Call, stmt_execute, Op, begin_op, execute_op, commit_op, rollback_op,
  begin_mode, begin_tx, commit, rollback, execute, perform, run, Diagnostic, answered,
}

-- An operation that does not end a transaction.
abbrev pub NoEnd : Op → Type 0
NoEnd (commit_op r d) = ⊥
NoEnd (rollback_op r d) = ⊥
NoEnd _ = Unit

-- An operation that does not begin a transaction.
abbrev pub NoBegin : Op → Type 0
NoBegin (begin_op done r d) = ⊥
NoBegin _ = Unit

-- A call that executes no statement, or executes it with this choice of committing on success.
abbrev pub Commits : Bool → Call → Type 0
Commits b (stmt_execute c) = c ≡ b
Commits b _ = Unit

begin_mode-NoEnd :
    (m : TransactionMode) (r : Sword) (d : Diagnostic) (c : Conn)
    → c.in_transaction ≡ true
    → ((begin_mode m r d c).conn.in_transaction ≡ true)
      × All (Commits false) (begin_mode m r d c).calls
begin_mode-NoEnd readwrite r d c h = (refl, tt)
begin_mode-NoEnd _ Sword.success d c h = (refl, (tt, tt))
begin_mode-NoEnd _ _ d c h = (h, (tt, tt))

begin_mode-in_transaction :
    (m : TransactionMode) (r : Sword) (d : Diagnostic) (c : Conn)
    → (begin_mode m r d c).ended ≡ answered (ok tt)
    → (begin_mode m r d c).conn.in_transaction ≡ true
begin_mode-in_transaction readwrite r d c h = refl
begin_mode-in_transaction m r d c h =
    subst (λ r. (after_start r c).in_transaction ≡ true) (sym ((get_error-nil r d).0 cc)) refl

perform-NoEnd :
    (o : Op) (c : Conn)
    → NoEnd o
    → c.in_transaction ≡ true
    → ((perform o c).conn.in_transaction ≡ true) × All (Commits false) (perform o c).calls
unfolding perform begin_tx execute
perform-NoEnd (begin_op true r d) c n h = (h, tt)
perform-NoEnd (begin_op false r d) c n h = begin_mode-NoEnd c.transaction_mode r d c h
perform-NoEnd (execute_op true r d) c n h = (h, tt)
perform-NoEnd (execute_op false r d) c n h = (h, (ap not h, tt))
perform-NoEnd (commit_op r d) c n h = absurd n
perform-NoEnd (rollback_op r d) c n h = absurd n

perform-NoBegin :
    (o : Op) (c : Conn)
    → NoBegin o
    → c.in_transaction ≡ false
    → ((perform o c).conn.in_transaction ≡ false) × All (Commits true) (perform o c).calls
unfolding perform commit rollback execute
perform-NoBegin (begin_op done r d) c n h = absurd n
perform-NoBegin (execute_op true r d) c n h = (h, tt)
perform-NoBegin (execute_op false r d) c n h = (h, (ap not h, tt))
perform-NoBegin (commit_op r d) c n h = (refl, (tt, tt))
perform-NoBegin (rollback_op r d) c n h = (refl, (tt, tt))

pub run-NoEnd :
    (os : List Op) (c : Conn)
    → All NoEnd os
    → c.in_transaction ≡ true
    → ((run os c).0.in_transaction ≡ true) × All (Commits false) (run os c).1
unfolding run
run-NoEnd [] c _ h = (h, tt)
run-NoEnd (o ∷ os) c (n, ns) h =
    let (h', here) = perform-NoEnd o c n h in
    let (h'', later) = run-NoEnd os (perform o c).conn ns h' in
    (h'', All-append (Commits false) (perform o c).calls _ here later)

pub run-NoBegin :
    (os : List Op) (c : Conn)
    → All NoBegin os
    → c.in_transaction ≡ false
    → ((run os c).0.in_transaction ≡ false) × All (Commits true) (run os c).1
unfolding run
run-NoBegin [] c _ h = (h, tt)
run-NoBegin (o ∷ os) c (n, ns) h =
    let (h', here) = perform-NoBegin o c n h in
    let (h'', later) = run-NoBegin os (perform o c).conn ns h' in
    (h'', All-append (Commits true) (perform o c).calls _ here later)

pub begin_tx-in_transaction :
    (r : Sword) (d : Diagnostic) (c : Conn)
    → (begin_tx false r d c).ended ≡ answered (ok tt)
    → (begin_tx false r d c).conn.in_transaction ≡ true
unfolding begin_tx
begin_tx-in_transaction r d c h = begin_mode-in_transaction c.transaction_mode r d c h

-- A transaction that `BeginTx` opened without an error: its statements, executed before a commit or
-- a rollback, do not commit on success. From the commit or rollback on, whatever its result, each
-- statement commits on success, until a transaction begins.
run-transaction :
    (r r' : Sword) (d d' : Diagnostic) (end : Op) (body tail : List Op) (c : Conn)
    → (begin_tx false r d c).ended ≡ answered (ok tt)
    → All NoEnd body
    → (end ≡ commit_op r' d') ⊎ (end ≡ rollback_op r' d')
    → All NoBegin tail
    → All (Commits false) (run body (begin_tx false r d c).conn).1
      × All (Commits true) (run tail (perform end (run body (begin_tx false r d c).conn).0).conn).1
unfolding perform commit rollback
run-transaction r r' d d' end body tail c begun in_body ends in_tail = (
  (run-NoEnd body _ in_body (begin_tx-in_transaction r d c begun)).1,
  (run-NoBegin tail _ in_tail (ended end (run body (begin_tx false r d c).conn).0 ends)).1,
)
  where
    ended :
        (o : Op) (c : Conn)
        → (o ≡ commit_op r' d') ⊎ (o ≡ rollback_op r' d')
        → (perform o c).conn.in_transaction ≡ false
    ended (commit_op r d) c e = refl
    ended (rollback_op r d) c e = refl
    ended (begin_op done r d) c (inl e) = absurd cc
    ended (begin_op done r d) c (inr e) = absurd cc
    ended (execute_op done r d) c (inl e) = absurd cc
    ended (execute_op done r d) c (inr e) = absurd cc
