-- ===== src/Session/Transactions.antt =====
-- What holds of a transaction, for the statements that `Exec` and `Query` execute in it.
use go_oci.Prelude.{◌≡◌, ◌⊎◌, inl, inr, refl, sym, subst, true, false, ℕ, List, [], ◌∷◌, ok, All}
use go_oci.Oci.{Sword}
use go_oci.Conn.{Conn, Call, Diagnostic, Op, begin_tx, commit, rollback, answered}
use go_oci.Conn.Transactions.{
  NoEnd, NoBegin, Commits, run-NoEnd, run-NoBegin, begin_tx-in_transaction,
}
use go_oci.Session.{Act, begin_act, exec_act, query_act, commit_act, rollback_act, act, session}
use go_oci.Session.Refinement.{Implements, AllImplement, session-run}

-- An act that does not end a transaction, and one that does not begin one.
abbrev pub KeepsOpen : Act → Type 0
KeepsOpen (commit_act r d) = ⊥
KeepsOpen (rollback_act r d) = ⊥
KeepsOpen _ = Unit

abbrev pub BeginsNone : Act → Type 0
BeginsNone (begin_act done r d) = ⊥
BeginsNone _ = Unit

Implements-NoEnd : (a : Act) (o : Op) → Implements a o → KeepsOpen a → NoEnd o
Implements-NoEnd (begin_act done r d) o e k = subst NoEnd (sym e) tt
Implements-NoEnd (exec_act s r) o (done, d, e) k = subst NoEnd (sym e) tt
Implements-NoEnd (query_act s r) o (done, d, e) k = subst NoEnd (sym e) tt
Implements-NoEnd (commit_act r d) o e k = absurd k
Implements-NoEnd (rollback_act r d) o e k = absurd k

Implements-NoBegin : (a : Act) (o : Op) → Implements a o → BeginsNone a → NoBegin o
Implements-NoBegin (begin_act done r d) o e k = absurd k
Implements-NoBegin (exec_act s r) o (done, d, e) k = subst NoBegin (sym e) tt
Implements-NoBegin (query_act s r) o (done, d, e) k = subst NoBegin (sym e) tt
Implements-NoBegin (commit_act r d) o e k = subst NoBegin (sym e) tt
Implements-NoBegin (rollback_act r d) o e k = subst NoBegin (sym e) tt

all_implement :
    (P : Act → Type 0) (Q : Op → Type 0)
    → ((a : Act) (o : Op) → Implements a o → P a → Q o)
    → (acts : List Act) (os : List Op) → AllImplement acts os
    → All P acts
    → All Q os
all_implement P Q f [] [] i ps = tt
all_implement P Q f (a ∷ acts) (o ∷ os) (i, is) (p, ps) =
    (f a o i p, all_implement P Q f acts os is ps)
all_implement P Q f [] (o ∷ os) i ps = absurd i
all_implement P Q f (a ∷ acts) [] i ps = absurd i

module _ (prefetch_rows prefetch_memory : ℕ) where
  session-KeepsOpen :
      (acts : List Act) (c : Conn)
      → All KeepsOpen acts
      → c.in_transaction ≡ true
      → All (Commits false) (session prefetch_rows prefetch_memory acts c).1
  session-KeepsOpen acts c ks h =
      let (os, is, same) = session-run prefetch_rows prefetch_memory acts c in
      subst (λ (p : Conn × List Call). All (Commits false) p.1) (sym same)
        (run-NoEnd os c (all_implement KeepsOpen NoEnd Implements-NoEnd acts os is ks) h).1

  session-BeginsNone :
      (acts : List Act) (c : Conn)
      → All BeginsNone acts
      → c.in_transaction ≡ false
      → All (Commits true) (session prefetch_rows prefetch_memory acts c).1
  session-BeginsNone acts c ks h =
      let (os, is, same) = session-run prefetch_rows prefetch_memory acts c in
      subst (λ (p : Conn × List Call). All (Commits true) p.1) (sym same)
        (run-NoBegin os c (all_implement BeginsNone NoBegin Implements-NoBegin acts os is ks) h).1

  ended :
      (r : Sword) (d : Diagnostic) (a : Act) (c : Conn)
      → (a ≡ commit_act r d) ⊎ (a ≡ rollback_act r d)
      → (act prefetch_rows prefetch_memory a c).0.in_transaction ≡ false
  unfolding act commit rollback
  ended r d a c (inl e) = rw e refl
  ended r d a c (inr e) = rw e refl

  begun :
      (r : Sword) (d : Diagnostic) (c : Conn)
      → (begin_tx false r d c).ended ≡ answered (ok tt)
      → (act prefetch_rows prefetch_memory (begin_act false r d) c).0.in_transaction ≡ true
  unfolding act
  begun r d c h = begin_tx-in_transaction r d c h

  -- After a `BeginTx` without an error, whatever statements `Exec` and `Query` run before a commit or
  -- a rollback, with whatever values and replies of OCI: none that is executed commits by itself. From
  -- the commit or rollback on, whatever its result, each that is executed does, until a transaction
  -- begins.
  pub session-transaction :
      (r r' : Sword) (d d' : Diagnostic) (end : Act) (body tail : List Act) (c : Conn)
      → (begin_tx false r d c).ended ≡ answered (ok tt)
      → All KeepsOpen body
      → (end ≡ commit_act r' d') ⊎ (end ≡ rollback_act r' d')
      → All BeginsNone tail
      → (let c₁ = (act prefetch_rows prefetch_memory (begin_act false r d) c).0 in
          let (c₂, inside) = session prefetch_rows prefetch_memory body c₁ in
          let c₃ = (act prefetch_rows prefetch_memory end c₂).0 in
          All (Commits false) inside
          × All (Commits true) (session prefetch_rows prefetch_memory tail c₃).1)
  session-transaction r r' d d' end body tail c opened keeps ends none =
      let c₁ = (act prefetch_rows prefetch_memory (begin_act false r d) c).0 in
      let c₂ = (session prefetch_rows prefetch_memory body c₁).0 in
      (
        session-KeepsOpen body c₁ keeps (begun r d c opened),
        session-BeginsNone tail _ none (ended r' d' end c₂ ends),
      )
