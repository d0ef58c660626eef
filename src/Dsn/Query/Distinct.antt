-- ===== src/Dsn/Query/Distinct.antt =====
-- The entries of the map that `ParseQuery` returns have different keys.
use go_oci.Prelude.{
  ◌≡◌, refl, zero, suc, ℕ, [], ◌∷◌, Bytes, codes, equal, Outcome, ok, fail, panic, bind-eq-ok,
  subst, Bool-cases, inl, inr,
}
use go_oci.Dsn.Escape.{Escaped, query_unescape}
use go_oci.Dsn.Split.{cut_at}
use go_oci.Dsn.Text.{index}
use go_oci.Dsn.Query.{
  Unfinished, Parsed, store, parse_piece, parse_loop, parse_query, parse_query_into, cut_query,
}
use go_oci.Dsn.Values.{append_value}
use go_oci.Dsn.Values.Distinct.{Distinct, append_value-Distinct}

kept :
    (acc p : Parsed)
    → Distinct acc.0
    → (m : Outcome Unfinished Parsed) → m ≡ ok acc
    → m ≡ ok p
    → Distinct p.0
kept acc p d m e h = let same : acc ≡ p = cc in subst (λ (x : Parsed). Distinct x.0) same d

store-Distinct :
    (acc p : Parsed) (key value : Escaped Bytes)
    → Distinct acc.0
    → store acc key value ≡ ok p
    → Distinct p.0
store-Distinct (m, err) p (ok key) (ok value) d h =
    kept (append_value key value m, err) p (append_value-Distinct key value m d) _ refl h
store-Distinct (m, err) p (ok key) (fail e) d h = kept (m, _) p d _ refl h
store-Distinct (m, err) p (fail e) value d h = kept (m, _) p d _ refl h
store-Distinct (m, err) p panic value d h = cc
store-Distinct (m, err) p (ok key) panic d h = cc

parse_piece-Distinct :
    (piece : Bytes) (acc p : Parsed) → Distinct acc.0 → parse_piece piece acc ≡ ok p → Distinct p.0
unfolding parse_piece
parse_piece-Distinct piece acc p d h = elim (Bool-cases (equal piece [])) [
  | inl empty ↦ kept acc p d _ refl (rw empty at h)
  | inr some_text ↦
      let pair = cut_at piece (codes "=") (index piece (codes "=")) in
      store-Distinct acc p (query_unescape pair.0) (query_unescape pair.1) d (rw some_text at h)
]

parse_loop-Distinct :
    (fuel : ℕ) (query : Bytes) (acc p : Parsed)
    → Distinct acc.0
    → parse_loop fuel query acc ≡ ok p
    → Distinct p.0
unfolding parse_loop
parse_loop-Distinct zero [] acc p d h = kept acc p d _ refl h
parse_loop-Distinct zero (c ∷ query) acc p d h = cc
parse_loop-Distinct (suc fuel) [] acc p d h = kept acc p d _ refl h
parse_loop-Distinct (suc fuel) (c ∷ query) acc p d h =
    let (acc', one, rest) = bind-eq-ok (parse_piece (cut_query (c ∷ query)).0 acc) _ h in
    parse_loop-Distinct fuel (cut_query (c ∷ query)).1 acc' p
      (parse_piece-Distinct _ acc acc' d one) rest

pub parse_query-Distinct : (query : Bytes) (p : Parsed) → parse_query query ≡ ok p → Distinct p.0
unfolding parse_query parse_query_into
parse_query-Distinct query p h = parse_loop-Distinct _ query _ p tt h
