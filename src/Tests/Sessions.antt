-- ===== src/Tests/Sessions.antt =====
-- Inputs for sessions.
use go_oci.Prelude.{refl, false, true, List, [], ◌∷◌, inl, codes, ◌++◌, All}
use go_oci.Prelude.Int.{pos}
use go_oci.Oci.{Sword}
use go_oci.Source.{unset}
use go_oci.Conn.{Conn, Diagnostic, begin_tx, get_error}
use go_oci.Conn.Transactions.{Commits}
use go_oci.Statement.Prepare.{fresh}
use go_oci.Session.{Act, begin_act, exec_act, query_act, rollback_act, commit_act, act, session}
use go_oci.Session.Transactions.{session-transaction}
use go_oci.Tests.Statements.{failing, replies}

abbrev idle : Conn
idle = record { transaction_mode = unset; in_transaction = false }

abbrev killed : Diagnostic
killed = record { result = Sword.success; code = pos 28; text = codes "ORA-00028" ++ 0 ∷ [] }

abbrev body : List Act
body =
    query_act (fresh []) replies
    ∷ exec_act (fresh []) (record failing { execute = Sword.success })
    ∷ []

abbrev tail : List Act
tail = exec_act (fresh []) failing ∷ rollback_act Sword.success killed ∷ []

session-transaction_example :
    All
      (Commits false)
      (session 0 4096 body (act 0 4096 (begin_act false Sword.success killed) idle).0).1
    × All
        (Commits true)
        (session 0 4096 tail
          (act 0 4096
            (commit_act Sword.oci_error killed)
            (session 0 4096 body (act 0 4096 (begin_act false Sword.success killed) idle).0).0).0).1
unfolding begin_tx get_error
session-transaction_example =
    session-transaction 0 4096 Sword.success Sword.oci_error killed killed
      (commit_act Sword.oci_error killed) body tail idle refl (tt, (tt, tt)) (inl refl)
      (tt, (tt, tt))
