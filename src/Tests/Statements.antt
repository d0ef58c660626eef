-- ===== src/Tests/Statements.antt =====
-- Inputs for statements: the values that are bound, the columns and the outputs.
use go_oci.Prelude.{◌≡◌, refl, true, false, List, [], ◌∷◌, some, codes, ◌&&◌, not, equal, ok, arith}
use go_oci.Prelude.Int.{pos, negsuc}
use go_oci.Oci.{Sword, Sqlt}
use go_oci.Column.{ColumnInfo}
use go_oci.Defines
use go_oci.Defines.{make_defines, close_rows}
use go_oci.Defines.Body
use go_oci.Defines.Make
use go_oci.Defines.Make.{make_defines-Leaves}
use go_oci.Binds.Values
use go_oci.Binds.{bind_values}
use go_oci.Binds.Values.{GoValue, plain, prepare, prepared, Input, Bind}
use go_oci.Binds.Release
use go_oci.Binds.Release.{bind_values-Leaves}
use go_oci.Statement.{Settings, QueryReplies, ExecReplies, close_stmt, query, exec}
use go_oci.Statement.Prepare.{fresh, placeholders, release}
use go_oci.Statement.Placeholders.{marked, numbered, placeholders-marked}
use go_oci.Statement.Release.{
  query_op, exec_op, Op, any_failed, perform_all, key_of, close_stmt-prepare_context,
}
use go_oci.Statement.Prepare.{prepare_context}
use go_oci.Statement.Execution.{Executes, exec-Executes}
use go_oci.Statement.Holding.{LeavesRows, LeavesBinds, query-Leaves}

abbrev text_column : ColumnInfo
text_column = record {
  name = codes "T";
  data_type = Sqlt.chr;
  max_size = 20;
  precision = pos 0;
  scale = pos 0;
}

abbrev defined : Defines.Script
defined = record {
  context_done = false;
  param_get = Sword.success;
  type_get = Sword.success;
  name_get = Sword.success;
  size_get = Sword.success;
  info = text_column;
  precision_get = Sword.success;
  scale_get = Sword.success;
  buffer_alloc = Sword.success;
  define_by_pos = Sword.success;
}

-- A large object whose locator cannot be allocated.
abbrev refused : Defines.Script
refused = record defined {
  info = record text_column { data_type = Sqlt.clob };
  buffer_alloc = Sword.oci_error;
}

make_defines-Leaves_example :
    Make.Leaves
      (Body.holding [] [])
      (make_defines Sword.success (defined ∷ refused ∷ [])).calls
      (make_defines Sword.success (defined ∷ refused ∷ [])).result
make_defines-Leaves_example =
    make_defines-Leaves Sword.success (defined ∷ refused ∷ []) ((λ e. cc), ((λ e. cc), tt))

abbrev pub number : Values.Script
number = record {
  context_done = false;
  argument = plain (GoValue.integer (some 8) (negsuc 4));
  lob_alloc = Sword.success;
  lob_create = Sword.success;
  lob_write = Sword.success;
  time_alloc = Sword.success;
  time_construct = Sword.success;
  bind = Sword.success;
}

abbrev unbound : Values.Script
unbound = record number { argument = plain (GoValue.string (codes "abc")); bind = Sword.oci_error }

bind_values-Leaves_example :
    Release.Leaves 0
      (number ∷ unbound ∷ [])
      (Release.holding [])
      (bind_values (number ∷ unbound ∷ [])).calls
      (bind_values (number ∷ unbound ∷ [])).result
bind_values-Leaves_example = bind_values-Leaves (number ∷ unbound ∷ [])

placeholders-marked_example :
    placeholders (marked (codes "a=") (codes " and b=" ∷ codes " or c" ∷ []))
    ≡ numbered 0 (codes "a=") (codes " and b=" ∷ codes " or c" ∷ [])
placeholders-marked_example =
    placeholders-marked (codes "a=") (codes " and b=" ∷ codes " or c" ∷ []) (omega arith)
      (omega arith)

placeholders_two : placeholders (codes "a=? and b=?") ≡ codes "a=:1 and b=:2"
unfolding placeholders
placeholders_two = refl

abbrev settings : Settings
settings = record { in_transaction = false; prefetch_rows = 10; prefetch_memory = 0 }

abbrev pub replies : QueryReplies
replies = record {
  values = number ∷ [];
  type_get = Sword.success;
  is_select = true;
  set_rows = Sword.success;
  set_memory = Sword.success;
  done_before = false;
  execute = Sword.success;
  count_get = Sword.success;
  columns = defined ∷ [];
  done_after = false;
}

abbrev pub failing : ExecReplies
failing = record {
  values = number ∷ [];
  done_before = false;
  execute = Sword.oci_error;
  count_get = Sword.success;
  count = 0;
  rowid_alloc = Sword.success;
  rowid_get = Sword.success;
  rowid_to_char = Sword.success;
  rowid_block = [];
  rowid_length = 0;
  outputs = [];
}

abbrev ops : List Op
ops = query_op settings replies ∷ exec_op settings failing ∷ []

prepares :
    prepare_context true 20 false Sword.success_with_info (codes "a=?")
    ≡ (codes "a=:1", ok (fresh (codes "a=:1")))
unfolding prepare_context
prepares = refl

close_stmt-prepare_context_example :
    ((close_stmt Sword.success (perform_all ops (fresh (codes "a=:1")))).1
      ≡ release
          (key_of 20 (codes "a=:1"))
          (not (equal (key_of 20 (codes "a=:1")) []) && any_failed ops (fresh (codes "a=:1")))
        ∷ [])
    × ((close_stmt Sword.oci_error
          (close_stmt Sword.success (perform_all ops (fresh (codes "a=:1")))).0).1
        ≡ [])
close_stmt-prepare_context_example =
    close_stmt-prepare_context true 20 false Sword.success_with_info (codes "a=?") (codes "a=:1")
      (fresh (codes "a=:1")) ops Sword.success Sword.oci_error prepares

query-Leaves_example :
    LeavesRows
      (query settings (fresh []) replies).define_calls
      (query settings (fresh []) replies).result
    × LeavesBinds replies.values
        (query settings (fresh []) replies).bind_calls
        (query settings (fresh []) replies).result
query-Leaves_example = query-Leaves settings (fresh []) replies ((λ e. cc), tt)

exec-Executes_example :
    Executes settings
      (exec settings (fresh []) failing).calls
      (exec settings (fresh []) failing).result
    × LeavesBinds failing.values
        (exec settings (fresh []) failing).bind_calls
        (exec settings (fresh []) failing).result
exec-Executes_example = exec-Executes settings (fresh []) failing
