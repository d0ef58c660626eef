-- ===== src/Session.antt =====
-- A connection in use: the operations of a transaction (connection.go's `BeginTx`, oci8.go's `Commit`
-- and `Rollback`) with the whole of statement.go's `Exec` and `Query` between them, on the one field
-- `inTransaction` that they share.
pub mod Executions
pub mod Refinement
pub mod Transactions
use go_oci.Prelude.{ℕ, Bool, List, [], ◌∷◌, ◌++◌}
use go_oci.Oci.{Sword}
use go_oci.Conn.{Conn, Diagnostic, Performed, begin_tx, commit, rollback}
use go_oci.Conn
use go_oci.Statement.Prepare.{Call, Stmt, execute, release}
use go_oci.Statement.{Settings, ExecReplies, QueryReplies, exec, query}

-- What the application calls, with what OCI replies to it.
pub data Act : Type 0 where
  begin_act : Bool → Sword → Diagnostic → Act
  exec_act : Stmt → ExecReplies → Act
  query_act : Stmt → QueryReplies → Act
  commit_act rollback_act : Sword → Diagnostic → Act

-- The calls for a statement as calls of the connection.
abbrev pub executions : List Call → List Conn.Call
executions [] = []
executions (execute n b ∷ es) = Conn.stmt_execute b ∷ executions es
executions (release key b ∷ es) = executions es

abbrev pub done_by : Performed → Conn × List Conn.Call
done_by p = (p.conn, p.calls)

-- The two numbers of the data source name, which do not change.
module _ (prefetch_rows prefetch_memory : ℕ) where
  -- What `exec` and `query` read of the connection.
  abbrev pub settings : Conn → Settings
  settings c = record {
    in_transaction = c.in_transaction;
    prefetch_rows = prefetch_rows;
    prefetch_memory = prefetch_memory;
  }

  unfoldable pub act : Act → Conn → Conn × List Conn.Call
  act (begin_act done r d) c = done_by (begin_tx done r d c)
  act (exec_act s r) c = (c, executions (exec (settings c) s r).calls)
  act (query_act s r) c = (c, executions (query (settings c) s r).calls)
  act (commit_act r d) c = done_by (commit r d c)
  act (rollback_act r d) c = done_by (rollback r d c)

  -- The connection after a list of acts, and the calls of OCI that they make.
  unfoldable pub session : List Act → Conn → Conn × List Conn.Call
  unfolding act
  session [] c = (c, [])
  session (a ∷ acts) c =
      let (c₁, calls) = act a c in let (c₂, more) = session acts c₁ in (c₂, calls ++ more)
