-- ===== src/Dsn/Values/Model.antt =====
-- What `Values` promises: a function from keys to lists of values, on which `Set`, `Add` and `Del`
-- act at one key, and which `Get` reads at one key.
use mathlib.Core.Path.{fun_ext}
use go_oci.Prelude.{
  ◌≡◌, refl, ap, ◌∙◌, Option, none, some, [], ◌∷◌, ◌++◌, Bytes, equal, List, if◌then◌else◌, ok,
  ◌>>=◌,
}
use go_oci.Dsn.Escape.{Escaped}
use go_oci.Dsn.Values.{
  Table, Values, lookup, insert, delete, values_of, or_nil, append_value, first_value, get, set,
  add, del,
}
use go_oci.Dsn.Values.Laws.{lookup-insert, lookup-delete}

-- A call that changes the map.
pub data Call : Type 0 where
  call_set call_add : Bytes → Bytes → Call
  call_del : Bytes → Call

abbrev perform : Call → Values → Escaped Values
perform (call_set key value) v = set v key value
perform (call_add key value) v = add v key value
perform (call_del key) v = ok (del v key)

unfoldable pub perform_all : List Call → Values → Escaped Values
perform_all [] v = ok v
perform_all (c ∷ cs) v = perform c v >>= λ v'. perform_all cs v'

abbrev pub View : Type 0
View = Bytes → Option (List Bytes)

abbrev pub view : Table → View
view m j = lookup j m

-- The function, changed at one key.
abbrev update : Bytes → Option (List Bytes) → View → View
update key vs f j = if equal key j then vs else f j

abbrev meant : Call → View → View
meant (call_set key value) f = update key (some (value ∷ [])) f
meant (call_add key value) f = update key (some (or_nil (f key) ++ value ∷ [])) f
meant (call_del key) f = update key none f

unfoldable pub meant_all : List Call → View → View
meant_all [] f = f
meant_all (c ∷ cs) f = meant_all cs (meant c f)

perform-meant :
    (c : Call) (m : Table)
    → (m' : Table) × (perform c (some m) ≡ ok (some m')) × (view m' ≡ meant c (view m))
unfolding set add del append_value values_of
perform-meant (call_set key value) m =
    (insert key (value ∷ []) m, refl, fun_ext (λ j. lookup-insert key j (value ∷ []) m))
perform-meant (call_add key value) m =
    (_, refl, fun_ext (λ j. lookup-insert key j (or_nil (lookup key m) ++ value ∷ []) m))
perform-meant (call_del key) m = (delete key m, refl, fun_ext (λ j. lookup-delete key j m))

-- Whatever calls of `Set`, `Add` and `Del` are made on a map that is not nil, none panics, and the
-- map they leave is, as a function from keys to lists of values, what the same calls make of the
-- function that the map was; `Get` returns the first value of that function at its key, or the
-- empty string.
pub perform_all-meant_all :
    (cs : List Call) (m : Table)
    → (m' : Table) × (perform_all cs (some m) ≡ ok (some m'))
      × (view m' ≡ meant_all cs (view m))
      × ((j : Bytes) → get (some m') j ≡ first_value (meant_all cs (view m) j))
unfolding perform_all meant_all get
perform_all-meant_all [] m = (m, refl, refl, λ j. refl)
perform_all-meant_all (c ∷ cs) m =
    let (m₁, one, seen) = perform-meant c m in
    let (m₂, all, seen_all, got) = perform_all-meant_all cs m₁ in
    (
      m₂,
      ap (λ x. x >>= λ v'. perform_all cs v') one ∙ all,
      seen_all ∙ ap (meant_all cs) seen,
      λ j. got j ∙ ap (λ f. first_value (meant_all cs f j)) seen,
    )
