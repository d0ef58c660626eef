-- ===== src/Statement.antt =====
-- statement.go: the life of a statement. `Close` and `ociStmtExecute` with the statement cache, and
-- `Query` and `Exec`, which bind values, execute, and define the columns or read the outputs;
-- connection.go: `PrepareContext`; oci8.go: `placeholders`. What each call of OCI returns is a
-- parameter.
pub mod Cache
pub mod Release
pub mod Execution
pub mod Holding
pub mod Placeholders
pub mod Prepare
use go_oci.Prelude.{
  ℕ, Bool, true, false, not, ◌&&◌, List, [], ◌∷◌, ◌++◌, Bytes, equal, ltb, ◌==◌, if◌then◌else◌,
  or_panic, Outcome, ok, fail, panic, map_fail, ◌>>=◌,
}
use go_oci.Oci.{Sword}
use go_oci.Column.{Define}
use go_oci.Memory.{c_go_string_n}
use go_oci.Blocks.{Event}
use go_oci.Defines.{Forest, Rows, DefineError, free_defines, make_defines}
use go_oci.Defines
use go_oci.Binds.{bind_values, free_binds}
use go_oci.Binds.Values.{Bind, BindError}
use go_oci.Binds.Values
use go_oci.Blocks.{Entry}
use go_oci.Output.{Dest, Cell, Written, OutputError, output_bound_parameters}
use go_oci.Statement.Prepare.{Call, Stmt, execute, is_success, is_success_or_info, release}

-- `ociStmtExecute`, for the statement.
unfoldable pub executed : Sword → Stmt → Stmt
executed r s =
    if not (equal s.cache_key []) && not (is_success_or_info r)
    then record s { cache_delete = true }
    else s

-- `Stmt.Close`: the statement after it, the calls, and the result that stands for the error.
unfoldable pub close_stmt : Sword → Stmt → Stmt × List Call × Sword
close_stmt r s =
    if s.closed
    then (s, [], Sword.success)
    else (record s { closed = true }, release s.cache_key s.cache_delete ∷ [], r)

-- Of the connection: whether it is in a transaction, and the two numbers of a data source name.
pub record Settings : Type 0 where
  pub in_transaction : Bool
  pub prefetch_rows : ℕ
  pub prefetch_memory : ℕ

pub data RunError : Type 0 where
  bind_error : BindError → RunError
  define_error : DefineError → RunError
  output_error : OutputError → RunError
  context_done : RunError
  call_error : Sword → RunError

-- What a run leaves: the statement, the calls for it, the calls for the binds and for the defines,
-- and what is returned.
pub record Ran (A : Type 0) : Type 0 where
  pub stmt : Stmt
  pub calls : List Call
  pub bind_calls : List Event
  pub define_calls : List Event
  pub result : Outcome RunError A

-- What the calls of `Query` return.
pub record QueryReplies : Type 0 where
  pub values : List Values.Script
  pub type_get : Sword
  pub is_select : Bool
  pub set_rows : Sword
  pub set_memory : Sword
  pub done_before : Bool
  pub execute : Sword
  pub count_get : Sword
  pub columns : List Defines.Script
  pub done_after : Bool

-- The end of `query`: the test of the context, and the rows.
abbrev pub rows_of : Bool → Forest × List Define → List Event × Outcome RunError Rows
rows_of true (ts, ds) = (free_defines ts, fail context_done)
rows_of false (ts, ds) = ([], ok (record { defines = ts; columns = ds; closed = false }))

-- The defines, and what follows them.
abbrev pub after_defines :
    Bool
    → List Event
    → Outcome DefineError (Forest × List Define)
    → List Event × Outcome RunError Rows
after_defines done es (ok f) = let (more, r) = rows_of done f in (es ++ more, r)
after_defines done es (fail e) = (es, fail (define_error e))
after_defines done es panic = (es, panic)

-- A run that ends before the statement is executed.
abbrev pub stopped : {A : Type 0} → Stmt → RunError → Ran A
stopped s e = record { stmt = s; calls = []; bind_calls = []; define_calls = []; result = fail e }

-- The execution in `query`, and what follows it.
abbrev pub run_query : Settings → Stmt → QueryReplies → Ran Rows
run_query c s r =
    let d = make_defines r.count_get r.columns in
    let (es, rows) = after_defines r.done_after d.calls d.result in
    let calls = execute (if r.is_select then 0 else 1) (not c.in_transaction) ∷ [] in
    record {
      stmt = executed r.execute s;
      calls = calls;
      bind_calls = [];
      define_calls = if is_success r.execute then es else [];
      result = if is_success r.execute then rows else fail (call_error r.execute);
    }

-- `query` but for the deferred `freeBinds`.
unfoldable pub query_bound : Settings → Stmt → QueryReplies → Ran Rows
unfolding executed
query_bound c s r =
    if not (is_success r.type_get)
    then stopped s (call_error r.type_get)
    else if not (c.prefetch_rows == 1) && not (is_success r.set_rows)
    then stopped s (call_error r.set_rows)
    else if ltb 0 c.prefetch_memory && not (is_success r.set_memory)
    then stopped s (call_error r.set_memory)
    else if r.done_before
    then stopped s context_done
    else run_query c s r

-- What comes after `bindValues`: an error is returned, or the binds are freed when the rest is done.
abbrev pub with_binds :
    {A : Type 0} → Stmt → List Event → Outcome BindError (List Entry × List Bind) → Ran A → Ran A
with_binds s es (ok (entries, bs)) m = record m { bind_calls = es ++ free_binds entries }
with_binds s es (fail e) m = record (stopped s (bind_error e)) { bind_calls = es }
with_binds s es panic m = record (stopped s context_done) { bind_calls = es; result = panic }

-- `Query` and `QueryContext`
unfoldable pub query : Settings → Stmt → QueryReplies → Ran Rows
unfolding query_bound
query c s r = let b = bind_values r.values in with_binds s b.calls b.result (query_bound c s r)

-- What the calls of `Exec` return: those for the number of rows and for the row's id, with the buffer
-- that `OCIRowidToChar` has filled and the length it gives, and for each `sql.Out` its destination and
-- its bind after the execution.
pub record ExecReplies : Type 0 where
  pub values : List Values.Script
  pub done_before : Bool
  pub execute : Sword
  pub count_get : Sword
  pub count : ℕ
  pub rowid_alloc : Sword
  pub rowid_get : Sword
  pub rowid_to_char : Sword
  pub rowid_block : Bytes
  pub rowid_length : ℕ
  pub outputs : List (Dest × Cell)

-- `rowsAffected`
abbrev pub rows_affected : ExecReplies → Outcome Sword ℕ
rows_affected r = if is_success r.count_get then ok r.count else fail r.count_get

-- `getRowid`, but for the release of the descriptor and of the buffer.
unfoldable pub get_rowid : ExecReplies → Outcome Sword Bytes
unfolding c_go_string_n
get_rowid r =
    if not (is_success r.rowid_alloc)
    then fail r.rowid_alloc
    else if not (is_success r.rowid_get)
    then fail r.rowid_get
    else if not (is_success r.rowid_to_char)
    then fail r.rowid_to_char
    else or_panic (c_go_string_n r.rowid_block r.rowid_length)

pub data ResultError : Type 0 where
  no_rowid : ResultError
  result_error : Sword → ResultError

-- A `Result`, and what was written to the outputs.
pub record Result : Type 0 where
  pub rows_affected : Outcome ResultError ℕ
  pub rowid : Outcome ResultError Bytes
  pub written : List Written

-- `if result.rowsAffectedErr != nil || result.rowsAffected < 1`
abbrev pub rowid_of : Outcome Sword ℕ → Outcome Sword Bytes → Outcome ResultError Bytes
rowid_of (ok n) id = if ltb n 1 then fail no_rowid else map_fail result_error id
rowid_of (fail e) id = fail no_rowid
rowid_of panic id = panic

-- The execution in `exec`, and what follows it.
abbrev pub run_exec : Settings → Stmt → ExecReplies → Ran Result
run_exec c s r =
    let calls = execute 1 (not c.in_transaction) ∷ [] in
    let written = map_fail output_error (output_bound_parameters r.outputs) >>= λ ws. ok (record {
      rows_affected = map_fail result_error (rows_affected r);
      rowid = rowid_of (rows_affected r) (get_rowid r);
      written = ws;
    }) in
    record {
      stmt = executed r.execute s;
      calls = calls;
      bind_calls = [];
      define_calls = [];
      result = if is_success_or_info r.execute then written else fail (call_error r.execute);
    }

-- `exec` but for the deferred `freeBinds`.
unfoldable pub exec_bound : Settings → Stmt → ExecReplies → Ran Result
unfolding executed get_rowid
exec_bound c s r = if r.done_before then stopped s context_done else run_exec c s r

-- `Exec` and `ExecContext`
unfoldable pub exec : Settings → Stmt → ExecReplies → Ran Result
unfolding exec_bound
exec c s r = let b = bind_values r.values in with_binds s b.calls b.result (exec_bound c s r)
