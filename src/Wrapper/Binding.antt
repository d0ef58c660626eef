-- ===== src/Wrapper/Binding.antt =====
-- How `bindValues` binds a value, by its position or by its name.
use go_oci.Prelude.{
  ℕ, ◌+◌, ◌<◌, ◌%◌, ◌^◌, ◌≡◌, ◌↔◌, refl, Bool, true, false, [], ◌∷◌, Bytes, length, ok, arith, ◌⊎◌,
  inl, inr, Outcome, suc, ltb, sym, ◌∙◌, ap,
}
use go_oci.Oci.{Sword}
use go_oci.Conn.{ConnError}
use go_oci.Conn.Errors.{get_error-nil}
use go_oci.Wrapper.{
  Handles, BindStruct, Request, Reply, bind_by_name, bind_by_pos, error_of, bind_argument,
  oci_bind_by_name, oci_bind_by_pos,
}

-- The call that binds a value: by the position of its argument, counted from 1, where the values
-- have no names or this one has none, and by its name with a colon before it otherwise.
abbrev pub Binds : Handles → ℕ → Bool → ℕ → Bytes → BindStruct → Request → Type 0
Binds conn stmt use_values i name bind q =
    (((use_values ≡ true) ⊎ (name ≡ [])) × (q ≡ bind_by_pos stmt conn.err (i + 1) bind))
    ⊎ ((use_values ≡ false)
        × (0 < length name)
        × (q ≡ bind_by_name stmt conn.err (b':' ∷ name) (length (b':' ∷ name)) bind))

answers :
    (x : Outcome ConnError (Unit {0})) (r : Reply)
    → x ≡ error_of r
    → (x ≡ error_of r) × ((x ≡ ok tt) ↔ (r.result ≡ Sword.success))
answers x r e =
    let (to, from) = get_error-nil r.result r.diagnostic in
    (e, (λ n. to (sym e ∙ n), λ n. e ∙ from n))

longer : (n : ℕ) → ltb (suc n) 1 ≡ false
longer n = ground arith

fits : (i : ℕ) → i + 1 < 2 ^ 32 → (i + 1) % 2 ^ 32 ≡ i + 1
fits i h = omega arith

-- For every argument whose position fits into a `ub4`, `bindValues` makes one call of OCI with the
-- buffer of its bind, by position or by name as the names say, without reading an empty name; its
-- error is nil exactly when OCI replies `OCI_SUCCESS`.
pub bind_argument-Binds :
    (oci : Request → Reply) (conn : Handles) (stmt : ℕ) (use_values : Bool) (i : ℕ) (name : Bytes)
    (bind : BindStruct)
    → i + 1 < 2 ^ 32
    → (q : Request) × Binds conn stmt use_values i name bind q
      × (bind_argument oci conn stmt use_values i name bind ≡ error_of (oci q))
      × ((bind_argument oci conn stmt use_values i name bind ≡ ok tt)
          ↔ ((oci q).result ≡ Sword.success))
unfolding bind_argument oci_bind_by_pos oci_bind_by_name
bind_argument-Binds oci conn stmt true i name bind h =
    let (same, nil) =
      answers (oci_bind_by_pos oci conn stmt ((i + 1) % 2 ^ 32) bind)
        (oci (bind_by_pos stmt conn.err ((i + 1) % 2 ^ 32) bind)) refl in
    (_, inl (inl refl, ap (λ n. bind_by_pos stmt conn.err n bind) (fits i h)), same, nil)
bind_argument-Binds oci conn stmt false i [] bind h =
    let (same, nil) =
      answers (oci_bind_by_pos oci conn stmt ((i + 1) % 2 ^ 32) bind)
        (oci (bind_by_pos stmt conn.err ((i + 1) % 2 ^ 32) bind)) refl in
    (_, inl (inr refl, ap (λ n. bind_by_pos stmt conn.err n bind) (fits i h)), same, nil)
bind_argument-Binds oci conn stmt false i (c ∷ name) bind h =
    let (same, nil) =
      answers (bind_argument oci conn stmt false i (c ∷ name) bind)
        (oci (bind_by_name stmt conn.err (b':' ∷ c ∷ name) (length (b':' ∷ c ∷ name)) bind))
        (rw (longer (length name))) in
    (_, inr (refl, omega arith, refl), same, nil)
