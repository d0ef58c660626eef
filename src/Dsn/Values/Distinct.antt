-- ===== src/Dsn/Values/Distinct.antt =====
-- The entries of a map have different keys, whatever is done to it.
use mathlib.Core.List.{Mem, Memᴰ, Pairwise}
use mathlib.Core.Logic.{∥∥₁_elim}
use mathlib.Core.HLevel.{¬_prop}
use go_oci.Prelude.{
  ◌≡◌, ◌≢◌, refl, sym, ap, ◌∙◌, none, [], ◌∷◌, ◌++◌, Bytes, equal_iff, List, arith,
}
use go_oci.Dsn.Values.{Table, lookup, insert, values_of, append_value}
use go_oci.Dsn.Values.Laws.{lookup-insert}

abbrev pub Distinct : Table → Type 0
Distinct [] = Unit
Distinct ((k, vs) ∷ m) = (lookup k m ≡ none) × Distinct m

insert-Distinct :
    (key : Bytes) (vs : List Bytes) (m : Table) → Distinct m → Distinct (insert key vs m)
unfolding insert lookup
insert-Distinct key vs [] d = (refl, tt)
insert-Distinct key vs ((k, ws) ∷ m) d =
    ground (
      arith,
      d,
      lookup-insert key k vs m,
      equal_iff k key,
      equal_iff key k,
      insert-Distinct key vs m,
    )

pub append_value-Distinct :
    (key value : Bytes) (m : Table) → Distinct m → Distinct (append_value key value m)
unfolding append_value
append_value-Distinct key value m d = insert-Distinct key (values_of key m ++ value ∷ []) m d

lookup-Memᴰ :
    (key : Bytes) (m : Table)
    → lookup key m ≡ none
    → (e : Bytes × List Bytes) → Memᴰ e m
    → key ≢ e.0
unfolding lookup
lookup-Memᴰ key [] missing e p = elim p [ ]
lookup-Memᴰ key ((k, vs) ∷ m) missing e (Memᴰ.head same) =
    λ h. ground (arith, missing, (equal_iff k key).1 (sym (ap (λ x. x.0) same) ∙ sym h))
lookup-Memᴰ key ((k, vs) ∷ m) missing e (Memᴰ.tail p) =
    lookup-Memᴰ key m (ground (arith, missing)) e p

-- A key that is not there is different from the key of every entry.
lookup-Mem :
    (key : Bytes) (m : Table) → lookup key m ≡ none → (e : Bytes × List Bytes) → Mem e m → key ≢ e.0
lookup-Mem key m missing e here = ∥∥₁_elim here ¬_prop (lookup-Memᴰ key m missing e)

pub Distinct-Pairwise :
    (m : Table) → Distinct m → Pairwise (λ (a b : Bytes × List Bytes). a.0 ≢ b.0) m
Distinct-Pairwise [] d = Pairwise.nil
Distinct-Pairwise ((k, vs) ∷ m) (missing, d) =
    Pairwise.cons (lookup-Mem k m missing) (Distinct-Pairwise m d)
