-- ===== src/Dsn/Values.antt =====
-- dsn.go: `Values`, a map from keys to lists of values. The nil map is `none`; the order of the
-- entries of any other map stands for the order in which Go happens to range over it.
pub mod Laws
pub mod Model
pub mod Distinct
use go_oci.Prelude.{
  Bool, Option, none, some, List, [], ◌∷◌, ◌++◌, Bytes, equal, if◌then◌else◌, Outcome, ok, panic,
  ◌>>=◌, length, ltb, ℕ,
}
use go_oci.Dsn.Escape.{Escaped, query_escape}

abbrev pub Table : Type 0
Table = List (Bytes × List Bytes)

abbrev pub Values : Type 0
Values = Option Table

-- `v[key]`
unfoldable pub lookup : Bytes → Table → Option (List Bytes)
unfolding equal
lookup key [] = none
lookup key ((k, vs) ∷ m) = if equal k key then some vs else lookup key m

-- `v[key] = vs`
unfoldable pub insert : Bytes → List Bytes → Table → Table
unfolding equal
insert key vs [] = (key, vs) ∷ []
insert key vs ((k, ws) ∷ m) =
    let rest = insert key vs m in if equal k key then (k, vs) ∷ m else (k, ws) ∷ rest

-- `delete(v, key)`
unfoldable pub delete : Bytes → Table → Table
unfolding equal
delete key [] = []
delete key ((k, ws) ∷ m) = let rest = delete key m in if equal k key then rest else (k, ws) ∷ rest

-- A missing key gives the nil slice.
abbrev pub or_nil : Option (List Bytes) → List Bytes
or_nil none = []
or_nil (some vs) = vs

-- `v[key]`, the value alone
unfoldable pub values_of : Bytes → Table → List Bytes
unfolding lookup
values_of key m = or_nil (lookup key m)

-- The same for a map that may be nil.
abbrev pub values_at : Values → Bytes → List Bytes
values_at none key = []
values_at (some m) key = values_of key m

-- `v[key] = append(v[key], value)`
unfoldable pub append_value : Bytes → Bytes → Table → Table
unfolding values_of insert
append_value key value m = insert key (values_of key m ++ value ∷ []) m

-- The first of the values found under a key.
abbrev pub first_value : Option (List Bytes) → Bytes
first_value none = []
first_value (some []) = []
first_value (some (v ∷ vs)) = v

unfoldable pub get : Values → Bytes → Bytes
unfolding lookup
get none key = []
get (some m) key = first_value (lookup key m)

-- A write to the nil map panics.
unfoldable pub set : Values → Bytes → Bytes → Escaped Values
unfolding insert
set none key value = panic
set (some m) key value = ok (some (insert key (value ∷ []) m))

unfoldable pub add : Values → Bytes → Bytes → Escaped Values
unfolding append_value
add none key value = panic
add (some m) key value = ok (some (append_value key value m))

unfoldable pub del : Values → Bytes → Values
unfolding delete
del none key = none
del (some m) key = some (delete key m)

-- The inner loop of `Encode`: one `prefix` and one value for each round.
unfoldable pub write_values : Bytes → List Bytes → Bytes → Escaped Bytes
write_values prefix [] buf = ok buf
write_values prefix (v ∷ vs) buf = do
  escaped ← query_escape v
  write_values prefix vs
      ((if ltb 0 (length buf) then buf ++ b'&' ∷ [] else buf) ++ (prefix ++ escaped))

-- The outer loop of `Encode`.
unfoldable pub write_table : Table → Bytes → Escaped Bytes
unfolding write_values
write_table [] buf = ok buf
write_table ((k, vs) ∷ m) buf = do
  escaped ← query_escape k
  buf' ← write_values (escaped ++ b'=' ∷ []) vs buf
  write_table m buf'

unfoldable pub encode : Values → Escaped Bytes
unfolding write_table
encode none = ok []
encode (some m) = write_table m []
