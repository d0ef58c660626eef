-- ===== src/Tests/Cursors.antt =====
-- Inputs for rows that share their defines.
use mathlib.Core.List.{Perm}
use go_oci.Prelude.{refl, true, false, some, List, [], ◌∷◌, ◌++◌}
use go_oci.Oci.{Sqlt}
use go_oci.Column.{malloc, stmt_handle_alloc}
use go_oci.Blocks.{Entry}
use go_oci.Defines.Shared.{Array, end_of_array, define, Handle, Which, outer, inner, closes, live}
use go_oci.Defines.Shared.Once.{IsLinked, closes-perm}

abbrev text : Entry
text = record { index = 0; counters = true; buffer = some (Sqlt.afc, malloc 20) }

abbrev cursor : Entry
cursor = record { index = 1; counters = true; buffer = some (Sqlt.rset, stmt_handle_alloc) }

-- A column of text and a cursor with one column of text, of which rows have been handed out.
abbrev columns : Array
columns =
    define text false end_of_array
      (define cursor true (define text false end_of_array end_of_array) end_of_array)

columns-IsLinked : IsLinked columns
unfolding IsLinked live
columns-IsLinked = ((λ e. refl), tt, ((λ e. absurd cc), ((λ e. refl), tt, tt), tt))

abbrev handed_out : List Handle
handed_out =
    record { path = 1 ∷ []; closed = false } ∷ record { path = 1 ∷ []; closed = false } ∷ []

-- The cursor's rows are closed first, then the outer ones, then each once more.
abbrev order : List Which
order = inner 0 ∷ outer ∷ inner 0 ∷ inner 1 ∷ outer ∷ []

closes-perm_example :
    Perm
      (live columns)
      ((closes order (record { defines = columns; closed = false; handles = handed_out })).1 ++ [])
closes-perm_example = closes-perm order columns handed_out columns-IsLinked
