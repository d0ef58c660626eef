-- ===== src/Tests/Strings.antt =====
-- Inputs for escapes, cuts, maps and queries.
use go_oci.Prelude.{
  ◌≡◌, refl, none, some, List, [], ◌∷◌, Bytes, codes, equal, ok, ◌>>=◌, IsBytes, arith,
}
use go_oci.Dsn.Byte.{query_component, user_password}
use go_oci.Dsn.Escape.{escape, unescape}
use go_oci.Dsn.Escape.Spec
use go_oci.Dsn.Escape.Encode.{escape-encode}
use go_oci.Dsn.Escape.Decode.{unescape-decode}
use go_oci.Dsn.Escape.RoundTrip.{unescape-escape}
use go_oci.Dsn.Values.{Table, lookup, get, first_value, encode}
use go_oci.Dsn.Values.Model.{
  Call, call_set, call_add, call_del, perform_all, view, meant_all, perform_all-meant_all,
}
use go_oci.Dsn.Query.{parse_query_into, parse_query}
use go_oci.Dsn.Query.Pieces.{parse_query_into-visit_all, visit_all, pieces}
use go_oci.Dsn.Query.RoundTrip.{parse_query-encode, with_values}

abbrev secret : Bytes
secret = codes "p@ss w/%"

secret-IsBytes : IsBytes secret
secret-IsBytes = omega arith

abbrev bad : Bytes
bad = codes "a%4x+b"

abbrev table : Table
table = (codes "loc", codes "UTC" ∷ codes "a&b=c" ∷ []) ∷ (codes "as", []) ∷ []

unescape-escape_example :
    (escape secret user_password >>= λ t. unescape t user_password) ≡ ok secret
unescape-escape_example = unescape-escape secret user_password secret-IsBytes

escape-encode_example : escape secret query_component ≡ ok (Spec.encode secret query_component)
escape-encode_example = escape-encode secret query_component secret-IsBytes

unescape-decode_example : unescape bad query_component ≡ Spec.decode bad query_component
unescape-decode_example = unescape-decode bad query_component

parse_query-encode_example :
    (query : Bytes) × (encode (some table) ≡ ok query)
    × (parse_query query ≡ ok (with_values table, none))
unfolding lookup equal
parse_query-encode_example = parse_query-encode table (omega arith) (refl, (refl, tt))

parse_query_into-visit_all_example :
    parse_query_into table (codes "a=1&&b%zz=2&c")
    ≡ ok (visit_all (table, none) (pieces (codes "a=1&&b%zz=2&c")))
parse_query_into-visit_all_example = parse_query_into-visit_all table (codes "a=1&&b%zz=2&c")

abbrev calls : List Call
calls =
    call_add (codes "loc") (codes "GMT")
    ∷ call_del (codes "as")
    ∷ call_set (codes "as") (codes "1")
    ∷ []

perform_all-meant_all_example :
    (m : Table) × (perform_all calls (some table) ≡ ok (some m))
    × (view m ≡ meant_all calls (view table))
    × ((j : Bytes) → get (some m) j ≡ first_value (meant_all calls (view table) j))
perform_all-meant_all_example = perform_all-meant_all calls table
