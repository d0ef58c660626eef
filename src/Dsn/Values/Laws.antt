-- ===== src/Dsn/Values/Laws.antt =====
-- `Get` after `Set`, `Add` and `Del`.
use go_oci.Prelude.{
  ◌≡◌, refl, ap, none, some, [], ◌∷◌, ◌++◌, Bytes, equal, equal_iff, List, if◌then◌else◌, ok, ◌>>=◌,
  arith,
}
use go_oci.Dsn.Values.{
  Table, lookup, insert, delete, values_of, append_value, values_at, get, set, add, del,
}

pub lookup-insert :
    (key j : Bytes) (vs : List Bytes) (m : Table)
    → lookup j (insert key vs m) ≡ (if equal key j then some vs else lookup j m)
unfolding lookup insert
lookup-insert key j vs [] = refl
lookup-insert key j vs ((k, ws) ∷ m) =
    ground (arith, equal_iff k key, equal_iff k j, equal_iff key j, lookup-insert key j vs m)

pub lookup-delete :
    (key j : Bytes) (m : Table)
    → lookup j (delete key m) ≡ (if equal key j then none else lookup j m)
unfolding lookup delete
lookup-delete key j [] = ground arith
lookup-delete key j ((k, ws) ∷ m) =
    ground (arith, equal_iff k key, equal_iff k j, equal_iff key j, lookup-delete key j m)

-- In a map that is not nil, `Set` replaces what `Get` returns for its key, and `Del` makes it the
-- empty string; neither changes what `Get` returns for any other key.
get-set-del :
    (m : Table) (key j value : Bytes)
    → ((set (some m) key value >>= λ v. ok (get v j))
        ≡ ok (if equal key j then value else get (some m) j))
      × (get (del (some m) key) j ≡ (if equal key j then [] else get (some m) j))
unfolding set get del
get-set-del m key j value =
    (ground (arith, lookup-insert key j (value ∷ []) m), ground (arith, lookup-delete key j m))

values_of-append_value :
    (m : Table) (key j value : Bytes)
    → values_of j (append_value key value m)
      ≡ (if equal key j then values_of j m ++ value ∷ [] else values_of j m)
unfolding values_of append_value
values_of-append_value m key j value =
    ground (arith, lookup-insert key j (values_of key m ++ value ∷ []) m, equal_iff key j)

-- In a map that is not nil, `Add` puts the value behind those that its key has, and leaves every
-- other key with its values.
values_at-add :
    (m : Table) (key j value : Bytes)
    → (add (some m) key value >>= λ v. ok (values_at v j))
      ≡ ok (if equal key j then values_at (some m) j ++ value ∷ [] else values_at (some m) j)
unfolding add
values_at-add m key j value = ap ok (values_of-append_value m key j value)
