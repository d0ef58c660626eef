-- ===== src/Dsn/Query/RoundTrip.antt =====
-- `ParseQuery` reads back what `Encode` writes.
use go_oci.Prelude.{
  ℕ, ◌≡◌, ◌≢◌, refl, ap, ◌∙◌, false, Option, none, some, List, [], ◌∷◌, ◌++◌, append_assoc,
  append-nil, map, Bytes, IsBytes, Lacks, All, equal, equal_iff, if◌then◌else◌, ok, arith,
}
use go_oci.Dsn.Byte.{query_component, should_escape}
use go_oci.Dsn.Escape.{EscapeError}
use go_oci.Dsn.Escape.Lacks.{NeverWrites, encode-Lacks}
use go_oci.Dsn.Escape.RoundTrip.{bad_escape-encode, meaning-encode}
use go_oci.Dsn.Escape.Spec
use go_oci.Dsn.Split.Cut.{split-append}
use go_oci.Dsn.Values.{Table, lookup, insert, values_of, append_value, encode}
use go_oci.Dsn.Query.{parse_query}
use go_oci.Dsn.Query.Pieces.{visit, visit_all, visit_all_nil, parse_query_into-visit_all}
use go_oci.Dsn.Query.Segments.{
  segment, segments, glue_all, AreBytes, write_table-glue_all, visit_all-append, visit_all-glue_all,
  segments-IsPiece, glue_all-Lacks, segments-Lacks,
}

-- The keys of a map are distinct.
abbrev pub AreDistinct : Table → Type 0
AreDistinct [] = Unit
AreDistinct ((k, vs) ∷ m) = (lookup k m ≡ none) × AreDistinct m

-- The entries that have a value; a key with no value leaves no trace in a query.
unfoldable pub with_values : Table → Table
with_values [] = []
with_values ((k, []) ∷ m) = with_values m
with_values ((k, v ∷ vs) ∷ m) = (k, v ∷ vs) ∷ with_values m

not_empty : (s t : Bytes) (c : _) → equal (s ++ c ∷ t) [] ≡ false
unfolding equal
not_empty [] t c = refl
not_empty (a ∷ s) t c = refl

visit-segment :
    (k v : Bytes) (t : Table) (err : Option EscapeError)
    → IsBytes k
    → IsBytes v
    → visit (t, err) (segment k v) ≡ (append_value k v t, err)
unfolding visit
visit-segment k v t err hk hv = rw (
  split-append b'=' (Spec.encode k query_component) (Spec.encode v query_component)
      (encode-Lacks query_component b'=' k (unfold Spec.encode_byte should_escape in refl) hk),
  not_empty (Spec.encode k query_component) (Spec.encode v query_component) b'=',
  bad_escape-encode k query_component hk,
  bad_escape-encode v query_component hv,
  meaning-encode k query_component hk,
  meaning-encode v query_component hv,
)

-- A key that is not in the map is put at its end, and then gathers its values there.
insert_new :
    (k : Bytes) (ws : List Bytes) (t : Table)
    → lookup k t ≡ none
    → insert k ws t ≡ t ++ (k, ws) ∷ []
unfolding lookup insert
insert_new k ws [] h = refl
insert_new k ws ((j, us) ∷ t) h = ground (arith, insert_new k ws t)

insert_last :
    (k : Bytes) (us ws : List Bytes) (t : Table)
    → lookup k t ≡ none
    → insert k ws (t ++ (k, us) ∷ []) ≡ t ++ (k, ws) ∷ []
unfolding lookup insert
insert_last k us ws [] h = ground (arith, equal_iff k k)
insert_last k us ws ((j, vs) ∷ t) h = ground (arith, insert_last k us ws t)

lookup_last :
    (j k : Bytes) (us : List Bytes) (t : Table)
    → lookup j t ≡ none
    → lookup j (t ++ (k, us) ∷ []) ≡ (if equal k j then some us else none)
unfolding lookup
lookup_last j k us [] h = refl
lookup_last j k us ((i, vs) ∷ t) h = ground (arith, lookup_last j k us t)

append_value_new :
    (k v : Bytes) (t : Table) → lookup k t ≡ none → append_value k v t ≡ t ++ (k, v ∷ []) ∷ []
unfolding append_value values_of
append_value_new k v t h = rw (values_of, h) (insert_new k (v ∷ []) t h)

append_value_last :
    (k v : Bytes) (us : List Bytes) (t : Table)
    → lookup k t ≡ none
    → append_value k v (t ++ (k, us) ∷ []) ≡ t ++ (k, us ++ v ∷ []) ∷ []
unfolding append_value values_of
append_value_last k v us t h =
    rw (values_of, lookup_last k k us t h, (equal_iff k k).1 refl)
      (insert_last k us (us ++ v ∷ []) t h)

visit_all-values :
    (k : Bytes) (vs us : List Bytes) (t : Table) (err : Option EscapeError)
    → IsBytes k
    → All IsBytes vs
    → lookup k t ≡ none
    → visit_all (t ++ (k, us) ∷ [], err) (map (segment k) vs) ≡ (t ++ (k, us ++ vs) ∷ [], err)
unfolding visit_all
visit_all-values k [] us t err hk hvs h = rw append-nil
visit_all-values k (v ∷ vs) us t err hk (hv, hvs) h =
    ap (λ x. visit_all x (map (segment k) vs))
      (visit-segment k v (t ++ (k, us) ∷ []) err hk hv
        ∙ ap (λ x. (x, err)) (append_value_last k v us t h))
    ∙ visit_all-values k vs (us ++ v ∷ []) t err hk hvs h
    ∙ rw append_assoc

visit_all-entry :
    (k v : Bytes) (vs : List Bytes) (t : Table) (err : Option EscapeError)
    → IsBytes k
    → IsBytes v
    → All IsBytes vs
    → lookup k t ≡ none
    → visit_all (t, err) (segment k v ∷ map (segment k) vs) ≡ (t ++ (k, v ∷ vs) ∷ [], err)
unfolding visit_all
visit_all-entry k v vs t err hk hv hvs kn =
    ap (λ x. visit_all x (map (segment k) vs))
      (visit-segment k v t err hk hv ∙ ap (λ x. (x, err)) (append_value_new k v t kn))
    ∙ visit_all-values k vs (v ∷ []) t err hk hvs kn

-- No key of the first map is in the second.
abbrev AreNew : Table → Table → Type 0
AreNew m t = All (λ e. lookup e.0 t ≡ none) m

AreNew-concat :
    (k : Bytes) (us : List Bytes) (t m : Table)
    → lookup k m ≡ none
    → AreNew m t
    → AreNew m (t ++ (k, us) ∷ [])
unfolding lookup
AreNew-concat k us t [] h n = tt
AreNew-concat k us t ((j, vs) ∷ m) h (nj, n) = (
  ground (arith, lookup_last j k us t nj, equal_iff j k, equal_iff k j),
  AreNew-concat k us t m (ground arith) n,
)

AreNew-nil : (m : Table) → AreNew m []
unfolding lookup
AreNew-nil [] = tt
AreNew-nil (e ∷ m) = (refl, AreNew-nil m)

visit_all-segments :
    (m t : Table) (err : Option EscapeError)
    → AreBytes m
    → AreDistinct m
    → AreNew m t
    → visit_all (t, err) (segments m) ≡ (t ++ with_values m, err)
unfolding segments with_values
visit_all-segments [] t err hb hd hn = unfold visit_all in rw append-nil
visit_all-segments ((k, []) ∷ m) t err (hk, hb) (kd, hd) (kn, hn) =
    visit_all-segments m t err hb hd hn
visit_all-segments ((k, v ∷ vs) ∷ m) t err ((hk, (hv, hvs)), hb) (kd, hd) (kn, hn) =
    visit_all-append (segment k v ∷ map (segment k) vs) (segments m) (t, err)
    ∙ ap (λ x. visit_all x (segments m)) (visit_all-entry k v vs t err hk hv hvs kn)
    ∙ visit_all-segments m (t ++ (k, v ∷ vs) ∷ []) err hb hd (AreNew-concat k (v ∷ vs) t m kd hn)
    ∙ rw append_assoc

-- What `Encode` returns.
unfoldable pub encoded : Table → Bytes
encoded m = glue_all [] (segments m)

pub encode-encoded : (m : Table) → AreBytes m → encode (some m) ≡ ok (encoded m)
unfolding encode encoded
encode-encoded m hb = write_table-glue_all m [] hb

pub parse_query-encoded :
    (m : Table) → AreBytes m → AreDistinct m → parse_query (encoded m) ≡ ok (with_values m, none)
unfolding encoded parse_query
parse_query-encoded m hb hd =
    parse_query_into-visit_all [] (glue_all [] (segments m))
    ∙ ap ok (
        visit_all-glue_all (segments m) [] ([], none) (segments-IsPiece m hb)
        ∙ rw visit_all_nil (visit_all-segments m [] none hb hd (AreNew-nil m)))

-- `ParseQuery` reads back what `Encode` writes, whatever the order in which the map is ranged
-- over: for distinct keys and strings of bytes, `Encode` succeeds and the result parses, with no
-- error, to the same keys with the same values in the same order, less the keys with no value.
pub parse_query-encode :
    (m : Table)
    → AreBytes m
    → AreDistinct m
    → (query : Bytes) × (encode (some m) ≡ ok query)
      × (parse_query query ≡ ok (with_values m, none))
parse_query-encode m hb hd = (encoded m, encode-encoded m hb, parse_query-encoded m hb hd)

pub encoded-Lacks :
    (b : ℕ) (m : Table)
    → NeverWrites query_component b
    → b ≢ b'&'
    → b ≢ b'='
    → AreBytes m
    → Lacks b (encoded m)
unfolding encoded
encoded-Lacks b m never and eq h =
    glue_all-Lacks b (segments m) [] and (segments-Lacks b m never eq h) tt
