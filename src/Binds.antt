-- ===== src/Binds.antt =====
-- statement.go: `bindValues`, with what each call of OCI returns as a parameter; c_helpers.go:
-- `freeBinds`. A value that a statement is given is one of Go's values, or a `sql.Out`.
pub mod Sizes
pub mod Release
pub mod Values
use go_oci.Prelude.{
  ℕ, suc, true, Option, none, some, List, [], ◌∷◌, ◌++◌, if◌then◌else◌, Outcome, ok, fail,
}
use go_oci.Oci.{Sqlt}
use go_oci.Column.{Allocation}
use go_oci.Blocks.{Event, obtained, buffer_slot, Entry, free_entry, obtain_counters}
use go_oci.Binds.Values.{
  Bind, BindError, Input, Prepared, Script, broken, context_error, convert_error, input_of,
  is_success, oci_error, prepare, prepared,
}

-- The entry of a bind, for what it owns.
abbrev pub typed : Sqlt → Option Allocation → Option (Sqlt × Allocation)
typed t none = none
typed t (some a) = some (t, a)

abbrev pub entry_with : ℕ → Sqlt → Option Allocation → Entry
entry_with i t a = record { index = i; counters = true; buffer = typed t a }

abbrev pub buffer_call : ℕ → Option Allocation → List Event
buffer_call i none = []
buffer_call i (some a) = obtained i buffer_slot a ∷ []

-- How the body of the loop ends for a value. An error comes before the counters are allocated, after
-- the bind was added to `binds`, or in between, when the bind is lost.
pub data Step : Type 0 where
  unstarted : BindError → Step
  added : BindError → List Event → Entry → Step
  lost : BindError → List Event → Entry → Step
  bound : List Event → Entry → Bind → Step

-- The end of the body: the bind is added, and `ociBindByPos` or `ociBindByName` is called.
abbrev pub add : ℕ → Script → Prepared → Step
add i s (broken e a) = lost e (obtain_counters i ++ buffer_call i a) (entry_with i Sqlt.afc a)
add i s (prepared b) =
    let calls = obtain_counters i ++ buffer_call i b.pbuf in
    let entry = entry_with i b.data_type b.pbuf in
    if is_success s.bind then bound calls entry b else added (oci_error s.bind) calls entry

abbrev pub with_input : ℕ → Script → Option Input → Step
with_input i s none = added convert_error (obtain_counters i) (entry_with i Sqlt.afc none)
with_input i s (some v) = add i s (prepare v s v.value)

-- The body of the loop, for the value with an index.
unfoldable pub step : ℕ → Script → Step
unfolding input_of prepare obtain_counters
step i s = if s.context_done then unstarted context_error else with_input i s (input_of s.argument)

-- `freeBinds`
unfoldable pub free_binds : List Entry → List Event
unfolding free_entry
free_binds [] = []
free_binds (e ∷ es) = free_entry e ++ free_binds es

-- What `bindValues` returns, with its calls.
pub record Bound : Type 0 where
  pub calls : List Event
  pub result : Outcome BindError (List Entry × List Bind)

abbrev pub prepend : List Event → Bound → Bound
prepend es b = record b { calls = es ++ b.calls }

abbrev pub after_step : Step → List Entry → Bound → Bound
after_step (unstarted e) es rest = record { calls = free_binds es; result = fail e }
after_step (added e calls entry) es rest = record {
  calls = calls ++ free_binds (es ++ entry ∷ []);
  result = fail e;
}
after_step (lost e calls entry) es rest = record { calls = calls ++ free_binds es; result = fail e }
after_step (bound calls entry b) es rest = prepend calls rest

abbrev pub entries_of : Step → List Entry
entries_of (bound calls entry b) = entry ∷ []
entries_of _ = []

abbrev pub binds_of : Step → List Bind
binds_of (bound calls entry b) = b ∷ []
binds_of _ = []

-- The loop, from the value with an index on, with the binds so far.
unfoldable pub loop : ℕ → List Entry → List Bind → List Script → Bound
unfolding step free_binds
loop i es bs [] = record { calls = []; result = ok (es, bs) }
loop i es bs (s ∷ ss) =
    let rest = loop (suc i) (es ++ entries_of (step i s)) (bs ++ binds_of (step i s)) ss in
    after_step (step i s) es rest

-- `bindValues`
unfoldable pub bind_values : List Script → Bound
unfolding loop
bind_values ss = loop 0 [] [] ss
