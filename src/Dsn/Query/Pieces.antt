-- ===== src/Dsn/Query/Pieces.antt =====
-- `parseQuery` visits the pieces between the separators, in order, and terminates.
use go_oci.Prelude.{
  ℕ, zero, suc, ◌+◌, ◌<◌, ◌≤◌, ◌≡◌, refl, false, ◌||◌, Bool-cases, Option-cases, Option, none, some,
  List, [], ◌∷◌, Bytes, codes, length, take, drop, equal, if◌then◌else◌, ◌==◌, ok, arith, inl, inr,
}
use go_oci.Dsn.Byte.{query_component}
use go_oci.Dsn.Escape.{query_unescape}
use go_oci.Dsn.Escape.Decode.{unescape-decode}
use go_oci.Dsn.Escape.Spec.{bad_escape, meaning, unless_bad, decode}
use go_oci.Dsn.Split.{split}
use go_oci.Dsn.Text.{index_any, next}
use go_oci.Dsn.Values.{Table, append_value}
use go_oci.Dsn.Query.{
  Parsed, first_error, store, parse_piece, cut_query, parse_loop, parse_query_into,
}

abbrev pub prepend : ℕ → List Bytes → List Bytes
prepend c [] = (c ∷ []) ∷ []
prepend c (p ∷ ps) = (c ∷ p) ∷ ps

-- The pieces between the separators `&` and `;`.
unfoldable pub pieces : Bytes → List Bytes
pieces [] = [] ∷ []
pieces (c ∷ q) = if c == b'&' || c == b';' then [] ∷ pieces q else prepend c (pieces q)

-- A pair is added, or the first error of a map is kept.
abbrev pub keep : Parsed → Option Bytes → Option Bytes → Bytes → Bytes → Parsed
keep (m, err) (some e) value_error key value = (m, first_error err e)
keep (m, err) none (some e) key value = (m, first_error err e)
keep (m, err) none none key value = (append_value key value m, err)

-- What one piece adds: nothing if it is empty; else the decoded pair around its first `=`, or the
-- error of the key or else of the value.
unfoldable pub visit : Parsed → Bytes → Parsed
visit acc piece =
    let (key, value) = split piece (codes "=") in
    if equal piece []
    then acc
    else keep acc (bad_escape key) (bad_escape value) (meaning query_component key)
        (meaning query_component value)

unfoldable pub visit_all : Parsed → List Bytes → Parsed
visit_all acc [] = acc
visit_all acc (p ∷ ps) = visit_all (visit acc p) ps

-- The one piece of the empty query adds nothing.
pub visit_all_nil : (acc : Parsed) → visit_all acc (pieces []) ≡ acc
unfolding visit_all visit pieces equal
visit_all_nil acc = refl

query_unescape-decode : (s : Bytes) → query_unescape s ≡ decode s query_component
unfolding query_unescape
query_unescape-decode s = unescape-decode s query_component

store-keep :
    (acc : Parsed) (e d : Option Bytes) (key value : Bytes)
    → store acc (unless_bad e key) (unless_bad d value) ≡ ok (keep acc e d key value)
store-keep acc none none key value = refl
store-keep acc none (some d) key value = refl
store-keep acc (some e) d key value = refl

parse_piece-visit : (p : Bytes) (acc : Parsed) → parse_piece p acc ≡ ok (visit acc p)
unfolding parse_piece visit split decode
parse_piece-visit p acc = elim (Bool-cases (equal p [])) [
  | inl e ↦ rw e
  | inr e ↦ rw (e, query_unescape-decode, query_unescape-decode) (store-keep acc _ _ _ _)
]

-- Where the first separator stands, the pieces are cut.
abbrev CutsOff : Bytes → Option ℕ → Type 0
CutsOff q none = pieces q ≡ q ∷ []
CutsOff q (some i) =
    (pieces q ≡ take i q ∷ pieces (drop (i + 1) q)) × (length (drop (i + 1) q) < length q)

next-CutsOff :
    (c : ℕ) (q : Bytes) (o : Option ℕ)
    → (c == b'&' || c == b';') ≡ false
    → CutsOff q o
    → CutsOff (c ∷ q) (next o)
unfolding pieces
next-CutsOff c q none e h = rw (e, h)
next-CutsOff c q (some i) e h =
    let step : suc i + 1 ≡ suc (i + 1) = omega arith in rw (e, h.0, step) (refl, omega arith)

index_any-CutsOff : (q : Bytes) → CutsOff q (index_any q b'&' b';')
unfolding pieces index_any
index_any-CutsOff [] = refl
index_any-CutsOff (c ∷ q) = elim (Bool-cases (c == b'&' || c == b';')) [
  | inl e ↦ rw e (rw e, omega arith)
  | inr e ↦ rw e (next-CutsOff c q (index_any q b'&' b';') e (index_any-CutsOff q))
]

-- One round of the loop takes off one piece.
visit_all-cut_query :
    (c : ℕ) (q : Bytes) (acc : Parsed)
    → (visit_all acc (pieces (c ∷ q))
        ≡ visit_all (visit acc (cut_query (c ∷ q)).0) (pieces (cut_query (c ∷ q)).1))
      × (length (cut_query (c ∷ q)).1 < length (c ∷ q))
unfolding cut_query visit_all
visit_all-cut_query c q acc = elim (Option-cases (index_any (c ∷ q) b'&' b';')) [
  | inl e ↦
      let whole : pieces (c ∷ q) ≡ (c ∷ q) ∷ [] = rw e at (index_any-CutsOff (c ∷ q)) in
      rw (cut_query, e, whole, visit_all_nil) (refl, omega arith)
  | inr (i, e) ↦
      let parts : CutsOff (c ∷ q) (some i) = rw e at (index_any-CutsOff (c ∷ q)) in
      rw (cut_query, e, parts.0) (refl, parts.1)
]

parse_loop_nil : (fuel : ℕ) (acc : Parsed) → parse_loop fuel [] acc ≡ ok acc
unfolding parse_loop
parse_loop_nil zero acc = refl
parse_loop_nil (suc fuel) acc = refl

parse_loop-visit_all :
    (fuel : ℕ) (q : Bytes) (acc : Parsed)
    → length q ≤ fuel
    → parse_loop fuel q acc ≡ ok (visit_all acc (pieces q))
unfolding parse_loop
parse_loop-visit_all zero [] acc h = rw visit_all_nil
parse_loop-visit_all (suc fuel) [] acc h = rw visit_all_nil
parse_loop-visit_all zero (c ∷ q) acc h = absurd (omega arith)
parse_loop-visit_all (suc fuel) (c ∷ q) acc h =
    let (cut, shorter) = visit_all-cut_query c q acc in
    rw (parse_piece-visit, cut)
      (parse_loop-visit_all fuel (cut_query (c ∷ q)).1 (visit acc (cut_query (c ∷ q)).0)
        (omega arith))

-- For every map and every query `parseQuery` terminates without a panic. It leaves the map with
-- the pairs of the pieces between `&` and `;` added in order, and the error of the first
-- malformed piece; a malformed or empty piece adds nothing.
pub parse_query_into-visit_all :
    (m : Table) (q : Bytes) → parse_query_into m q ≡ ok (visit_all (m, none) (pieces q))
unfolding parse_query_into
parse_query_into-visit_all m q = parse_loop-visit_all (length q) q (m, none) (omega arith)
