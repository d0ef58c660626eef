-- ===== src/Defines.antt =====
-- statement.go: the loop of `makeDefines`, with what each call of OCI returns as a parameter;
-- c_helpers.go: `freeDefines`; rows.go: `Rows.Close` and `Rows.Columns`.
pub mod Free
pub mod Shared
pub mod Body
pub mod Make
use go_oci.Prelude.{
  ℕ, suc, Bool, true, false, not, ◌&&◌, Option, none, some, List, [], ◌∷◌, ◌++◌, map, Bytes,
  if◌then◌else◌, Outcome, ok, fail, panic,
}
use go_oci.Oci.{Sword, Sqlt}
use go_oci.Column.{
  Allocation, malloc, descriptor_alloc, stmt_handle_alloc, ColumnInfo, Define, define_column,
}
use go_oci.Blocks.{
  Event, got_param, freed_param, obtained, buffer_slot, Entry, Block, free_entry, blocks_of,
  obtain_counters,
}

-- The defines of a statement, and the defines below an entry, which a cursor has.
mutual
  pub data Tree : Type 0 where
    node : Entry → Forest → Tree

  pub data Forest : Type 0 where
    leaf : Forest
    branch : Tree → Forest → Forest

unfoldable mutual
  -- The body of the loop of `freeDefines`.
  pub free_tree : Tree → List Event
  free_tree (node e subs) = free_defines subs ++ free_entry e

  -- `freeDefines`
  pub free_defines : Forest → List Event
  free_defines leaf = []
  free_defines (branch t ts) = free_tree t ++ free_defines ts

unfoldable mutual
  -- What the defines own, in the order in which it is freed.
  pub blocks_of_tree : Tree → List Block
  blocks_of_tree (node e subs) = blocks_of_forest subs ++ blocks_of e

  pub blocks_of_forest : Forest → List Block
  blocks_of_forest leaf = []
  blocks_of_forest (branch t ts) = blocks_of_tree t ++ blocks_of_forest ts

abbrev pub snoc : Forest → Tree → Forest
snoc leaf t = branch t leaf
snoc (branch s ts) t = branch s (snoc ts t)

-- What the calls for one column return: whether the context is done, the results of the calls in
-- their order, and what they say of the column.
pub record Script : Type 0 where
  pub context_done : Bool
  pub param_get : Sword
  pub type_get : Sword
  pub name_get : Sword
  pub size_get : Sword
  pub info : ColumnInfo
  pub precision_get : Sword
  pub scale_get : Sword
  pub buffer_alloc : Sword
  pub define_by_pos : Sword

pub data DefineError : Type 0 where
  context_error : DefineError
  oci_error : Sword → DefineError

abbrev pub is_success : Sword → Bool
is_success Sword.success = true
is_success _ = false

-- How the body of the loop ends for a column: with an error, or with a column that is defined. The
-- calls it made, and what the column's entry is then.
pub data Step : Type 0 where
  stopped : DefineError → List Event → Entry → Step
  defined : Define → List Event → Entry → Step

-- An entry with nothing allocated, with its counters, and with its buffer.
abbrev pub blank : ℕ → Entry
blank i = record { index = i; counters = false; buffer = none }

abbrev pub counted : ℕ → Entry
counted i = record { index = i; counters = true; buffer = none }

abbrev pub filled : ℕ → Define → Entry
filled i d = record { index = i; counters = true; buffer = some (d.data_type, d.buffer) }

-- `C.malloc` does not return without memory; the other two allocations may fail.
abbrev pub may_fail : Allocation → Bool
may_fail (malloc n) = false
may_fail _ = true

-- Whether the column is a number, whose precision and scale are asked for.
abbrev pub is_number : Sqlt → Bool
is_number Sqlt.num = true
is_number _ = false

-- The end of the body: `OCIDefineByPos`.
abbrev pub bind_buffer : ℕ → Script → List Event → Define → Step
bind_buffer i s calls d =
    if is_success s.define_by_pos
    then defined d calls (filled i d)
    else stopped (oci_error s.define_by_pos) calls (filled i d)

-- The allocation of the buffer in the switch.
abbrev pub obtain_buffer : ℕ → Script → List Event → Define → Step
obtain_buffer i s calls d =
    let next = bind_buffer i s (calls ++ obtained i buffer_slot d.buffer ∷ []) d in
    if may_fail d.buffer && not (is_success s.buffer_alloc)
    then stopped (oci_error s.buffer_alloc) calls (counted i)
    else next

-- The switch on the column's type.
abbrev pub switch_type : ℕ → Script → List Event → Step
switch_type i s calls =
    let next = obtain_buffer i s calls (define_column s.info) in
    if is_number s.info.data_type && not (is_success s.precision_get)
    then stopped (oci_error s.precision_get) calls (counted i)
    else if is_number s.info.data_type && not (is_success s.scale_get)
    then stopped (oci_error s.scale_get) calls (counted i)
    else next

-- The body of the loop, for the column with an index.
unfoldable pub step : ℕ → Script → Step
unfolding obtain_counters
step i s =
    if s.context_done
    then stopped context_error [] (blank i)
    else if not (is_success s.param_get)
    then stopped (oci_error s.param_get) [] (blank i)
    else if not (is_success s.type_get)
    then stopped (oci_error s.type_get) (got_param i ∷ []) (blank i)
    else if not (is_success s.name_get)
    then stopped (oci_error s.name_get) (got_param i ∷ []) (blank i)
    else if not (is_success s.size_get)
    then stopped (oci_error s.size_get) (got_param i ∷ []) (blank i)
    else switch_type i s (got_param i ∷ obtain_counters i)

-- What the loop has returned, with its calls, and the parameters whose release is deferred, the last
-- one first.
pub record Made : Type 0 where
  pub calls : List Event
  pub result : Outcome DefineError (Forest × List Define)

-- The parameters that a list of calls obtains, behind those that were obtained before.
abbrev pub params_after : List Event → List ℕ → List ℕ
params_after [] ps = ps
params_after (got_param i ∷ es) ps = params_after es (i ∷ ps)
params_after (_ ∷ es) ps = params_after es ps

-- The deferred calls, which are made when the function returns.
abbrev pub deferred : List ℕ → List Event
deferred [] = []
deferred (p ∷ ps) = freed_param p ∷ deferred ps

abbrev pub prepend : List Event → Made → Made
prepend es m = record m { calls = es ++ m.calls }

-- `freeDefines(defines)` and the return of an error. The entries that the loop has not come to are
-- zero, and `freeDefines` does nothing for them.
abbrev pub give_up : DefineError → List Event → Forest → List ℕ → Made
give_up e calls ts ps = record {
  calls = calls ++ free_defines ts ++ deferred (params_after calls ps);
  result = fail e;
}

abbrev pub after_step : Step → Forest → List ℕ → Made → Made
after_step (stopped e calls entry) ts ps rest = give_up e calls (snoc ts (node entry leaf)) ps
after_step (defined d calls entry) ts ps rest = prepend calls rest

abbrev pub entry_of : Step → Entry
entry_of (stopped e calls entry) = entry
entry_of (defined d calls entry) = entry

abbrev pub calls_of : Step → List Event
calls_of (stopped e calls entry) = calls
calls_of (defined d calls entry) = calls

abbrev pub defines_of : Step → List Define
defines_of (stopped e calls entry) = []
defines_of (defined d calls entry) = d ∷ []

-- The loop, from the column with an index on, with the defines so far.
unfoldable pub loop : ℕ → Forest → List Define → List ℕ → List Script → Made
unfolding step free_defines
loop i ts ds ps [] = record { calls = deferred ps; result = ok (ts, ds) }
loop i ts ds ps (s ∷ ss) =
    let st = step i s in
    let rest =
      loop (suc i) (snoc ts (node (entry_of st) leaf)) (ds ++ defines_of st)
        (params_after (calls_of st) ps) ss in
    after_step st ts ps rest

-- `makeDefines`, given the result of the call for the number of columns.
unfoldable pub make_defines : Sword → List Script → Made
unfolding loop
make_defines Sword.success ss = loop 0 leaf [] [] ss
make_defines r ss = record { calls = []; result = fail (oci_error r) }

-- The state of `Rows`, for `Close`, `Columns` and the loop of `Next`.
pub record Rows : Type 0 where
  pub defines : Forest
  pub columns : List Define
  pub closed : Bool

-- `Rows.Close`
unfoldable pub close_rows : Rows → Rows × List Event
unfolding free_defines
close_rows r = if r.closed then (r, []) else (record r { closed = true }, free_defines r.defines)

-- `Rows.Columns`
unfoldable pub column_names : Rows → List Bytes
column_names r = map (λ d. d.name) r.columns
