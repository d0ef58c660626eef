-- ===== src/Tests/Dsns.antt =====
-- Inputs for data source names.
use go_oci.Prelude.{
  ◌≡◌, inl, refl, some, none, Option, [], ◌∷◌, ◌++◌, Bytes, codes, ok, arith, equal,
}
use go_oci.Dsn.Byte.{user_password, host}
use go_oci.Dsn.Escape.Spec
use go_oci.Dsn.Escape.Encode.{escape-encode}
use go_oci.Dsn.Values.{Table, lookup, insert, append_value, values_of}
use go_oci.Dsn.Query.RoundTrip.{with_values, encoded, encode-encoded}
use go_oci.Dsn.Query.Segments.{AreBytes}
use go_oci.Source.{
  Dsn, sysdba, as_mode, apply_param, apply_params, initial, parse_account, parse_target,
  parse_parts, parse_dsn,
}
use go_oci.Dsn.Split.{split, split_right, authority_at, parse_authority}
use go_oci.Dsn.Text.{has_prefix, last_index, index, index_any}
use go_oci.Dsn.Escape.{unescape, query_unescape}
use go_oci.Source.Number.{parse_uint32}
use go_oci.Dsn.Query.{parse_query}
use go_oci.Source.RoundTrip.{parse_dsn-format}
use go_oci.Source.Order.{parse_query-perm}
use mathlib.Core.List.{Permᴰ}
use go_oci.Source.Bounds.{FitsUb4, parse_dsn-FitsUb4}
use go_oci.Source.Total.{Returns, parse_dsn-Returns}

-- A location is its name, and every name is known.
abbrev known : Bytes → Option Bytes
known s = some s

abbrev user : Bytes
user = codes "scott"

abbrev pass : Bytes
pass = codes "t:g/r@"

abbrev target : Bytes
target = codes "db:1521/x"

abbrev params : Table
params = (codes "loc", codes "UTC" ∷ []) ∷ (codes "as", codes "SYSDBA" ∷ []) ∷ []

params-AreBytes : AreBytes params
params-AreBytes = omega arith

abbrev formatted : Bytes
formatted =
    codes "oracle://"
    ++ (Spec.encode user user_password
        ++ b':'
          ∷ (Spec.encode pass user_password
              ++ b'@' ∷ (Spec.encode target host ++ b'?' ∷ encoded params)))

parse_dsn-format_example :
    parse_dsn (codes "UTC") known formatted
    ≡ apply_params (codes "UTC") known (with_values params) (record (initial (codes "UTC") known) {
      username = user;
      password = pass;
      connect = target;
    })
unfolding lookup equal
parse_dsn-format_example =
    parse_dsn-format (codes "UTC") known user pass target b':' params _ _ _ _ (omega arith)
      (omega arith) (omega arith) (inl refl) params-AreBytes (refl, (refl, tt))
      (escape-encode user user_password (omega arith))
      (escape-encode pass user_password (omega arith)) (escape-encode target host (omega arith))
      (encode-encoded params params-AreBytes)

parse_dsn-Returns_example : Returns (parse_dsn (codes "UTC") known formatted)
parse_dsn-Returns_example = parse_dsn-Returns (codes "UTC") known formatted

abbrev bare : Bytes
bare = codes "scott:tiger"

abbrev scott : Dsn Bytes
scott = record (initial (codes "UTC") known) { username = codes "scott"; password = codes "tiger" }

abbrev sized : Bytes
sized = codes "a@b?prefetch_rows=70"

abbrev seventy : Dsn Bytes
seventy = record (initial (codes "UTC") known) {
  username = codes "a";
  connect = codes "b";
  prefetch_rows = 70;
}

sized_parses : parse_dsn (codes "UTC") known sized ≡ ok seventy
unfolding parse_dsn parse_parts parse_account parse_target apply_params apply_param initial
    split_right last_index has_prefix parse_authority authority_at split index index_any unescape
    parse_query append_value values_of insert lookup equal query_unescape parse_uint32
sized_parses = refl

parse_dsn-FitsUb4_example : FitsUb4 seventy
parse_dsn-FitsUb4_example = parse_dsn-FitsUb4 (codes "UTC") known sized seventy sized_parses

abbrev pairs : Bytes
pairs = codes "as=SYSDBA&prefetch_rows=70"

abbrev administrator : Dsn Bytes
administrator = record (initial (codes "UTC") known) { prefetch_rows = 70; operation_mode = sysdba }

abbrev in_order : Table
in_order = (codes "as", codes "SYSDBA" ∷ []) ∷ (codes "prefetch_rows", codes "70" ∷ []) ∷ []

abbrev out_of_order : Table
out_of_order = (codes "prefetch_rows", codes "70" ∷ []) ∷ (codes "as", codes "SYSDBA" ∷ []) ∷ []

pairs_parse : parse_query pairs ≡ ok (in_order, none)
unfolding parse_query index_any index query_unescape unescape append_value values_of insert lookup
    equal
pairs_parse = refl

in_order_applies :
    apply_params (codes "UTC") known in_order (initial (codes "UTC") known) ≡ ok administrator
unfolding apply_params apply_param as_mode parse_uint32 initial equal
in_order_applies = refl

parse_query-perm_example :
    apply_params (codes "UTC") known out_of_order (initial (codes "UTC") known) ≡ ok administrator
parse_query-perm_example =
    parse_query-perm known (codes "UTC") pairs (in_order, none) out_of_order
      (initial (codes "UTC") known) administrator pairs_parse (Permᴰ.swap refl refl)
      in_order_applies
