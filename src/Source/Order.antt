-- ===== src/Source/Order.antt =====
-- That the order in which the parameters of a data source name are gone through does not matter,
-- which is the order in which Go happens to range over the map.
use mathlib.Core.HLevel.{¬_prop}
use mathlib.Core.List.{Pairwise, Pairwise-cons, mem-cons_self, Permᴰ}
use mathlib.Core.List.Permᴰ
use go_oci.Prelude.{◌≡◌, ◌≢◌, sym, ap, ◌∙◌, Option, List, ◌∷◌, Bytes, ok, ◌>>=◌, bind-eq-ok, subst}
use go_oci.Dsn.Values.{Table}
use go_oci.Source.{Dsn, apply_param, apply_params}
use go_oci.Dsn.Query.{Parsed, parse_query}
use go_oci.Dsn.Query.Distinct.{parse_query-Distinct}
use go_oci.Dsn.Values.Distinct.{Distinct-Pairwise}
use go_oci.Source.Meaning.{apply_param_comm}

module _ {Location : Type 0} (load_location : Bytes → Option Location) where
  abbrev KeysDiffer : Table → Type 0
  KeysDiffer qp = Pairwise (λ (a b : Bytes × List Bytes). a.0 ≢ b.0) qp

  Permᴰ-KeysDiffer : (qp qp' : Table) → Permᴰ qp qp' → KeysDiffer qp → KeysDiffer qp'
  Permᴰ-KeysDiffer qp qp' p h =
      Permᴰ.pairwise {R = λ (a b : Bytes × List Bytes). a.0 ≢ b.0} (λ a b. ¬_prop)
        (λ a b n e. n (sym e)) p h

  -- One step of the loop.
  apply_params-step :
      (utc : Location) (p : Bytes × List Bytes) (qp : Table) (d d₁ d' : Dsn Location)
      → apply_param utc load_location p.0 p.1 d ≡ ok d₁
      → apply_params utc load_location qp d₁ ≡ ok d'
      → apply_params utc load_location (p ∷ qp) d ≡ ok d'
  unfolding apply_params
  apply_params-step utc p qp d d₁ d' one rest =
      ap (λ m. m >>= λ y. apply_params utc load_location qp y) one ∙ rest

  step-apply_params :
      (utc : Location) (p : Bytes × List Bytes) (qp : Table) (d d' : Dsn Location)
      → apply_params utc load_location (p ∷ qp) d ≡ ok d'
      → (d₁ : Dsn Location) × (apply_param utc load_location p.0 p.1 d ≡ ok d₁)
        × (apply_params utc load_location qp d₁ ≡ ok d')
  unfolding apply_params
  step-apply_params utc p qp d d' h = bind-eq-ok (apply_param utc load_location p.0 p.1 d) _ h

  apply_params-swap :
      (utc : Location) (a b : Bytes × List Bytes) (qp : Table) (d d' : Dsn Location)
      → a.0 ≢ b.0
      → apply_params utc load_location (a ∷ b ∷ qp) d ≡ ok d'
      → apply_params utc load_location (b ∷ a ∷ qp) d ≡ ok d'
  apply_params-swap utc a b qp d d' different h =
      let (d₁, one, more) = step-apply_params utc a (b ∷ qp) d d' h in
      let (d₂, two, rest) = step-apply_params utc b qp d₁ d' more in
      let (d₃, first_b, then_a) =
        bind-eq-ok (apply_param utc load_location b.0 b.1 d) _
          (apply_param_comm load_location utc a b d d₁ d₂ different one two) in
      apply_params-step utc b (a ∷ qp) d d₃ d' first_b
        (apply_params-step utc a qp d₃ d₂ d' then_a rest)

  -- Going through the parameters in another order gives the same data source name.
  apply_params-perm :
      (utc : Location) (qp qp' : Table) (d d' : Dsn Location)
      → Permᴰ qp qp'
      → KeysDiffer qp
      → apply_params utc load_location qp d ≡ ok d'
      → apply_params utc load_location qp' d ≡ ok d'
  apply_params-perm utc qp qp' d d' (Permᴰ.nil) n h = h
  apply_params-perm utc (p ∷ qp) (p' ∷ qp') d d' (Permᴰ.cons e r) n h =
      let (d₁, one, rest) = step-apply_params utc p qp d d' h in
      subst (λ x. apply_params utc load_location (x ∷ qp') d ≡ ok d') e
        (apply_params-step utc p qp' d d₁ d' one
          (apply_params-perm utc qp qp' d₁ d' r ((Pairwise-cons.0 n).1) rest))
  apply_params-perm utc (a ∷ b ∷ qp) (b' ∷ a' ∷ _) d d' (Permᴰ.swap e e') n h =
      subst (λ x. apply_params utc load_location (x ∷ a' ∷ qp) d ≡ ok d') e'
        (subst (λ x. apply_params utc load_location (b ∷ x ∷ qp) d ≡ ok d') e
          (apply_params-swap utc a b qp d d' ((Pairwise-cons.0 n).0 b mem-cons_self) h))
  apply_params-perm utc qp qp' d d' (Permᴰ.trans {l₂ = l} r r') n h =
      apply_params-perm utc l qp' d d' r' (Permᴰ-KeysDiffer qp l r n)
        (apply_params-perm utc qp l d d' r n h)

  -- Whatever the query of a data source name and the order in which `ParseDSN` ranges over the map
  -- that `ParseQuery` returns for it: where going through the parameters in one order gives a data
  -- source name, going through them in any other order gives the same one.
  pub parse_query-perm :
      (utc : Location) (query : Bytes) (parsed : Parsed) (qp : Table) (d d' : Dsn Location)
      → parse_query query ≡ ok parsed
      → Permᴰ parsed.0 qp
      → apply_params utc load_location parsed.0 d ≡ ok d'
      → apply_params utc load_location qp d ≡ ok d'
  parse_query-perm utc query parsed qp d d' e p h =
      apply_params-perm utc parsed.0 qp d d' p
        (Distinct-Pairwise parsed.0 (parse_query-Distinct query parsed e)) h
