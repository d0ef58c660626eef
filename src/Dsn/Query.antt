-- ===== src/Dsn/Query.antt =====
-- dsn.go: `ParseQuery` and `parseQuery`. The loop takes fuel; `Dsn/Query/Pieces.antt` shows that
-- the length of the query is enough.
pub mod Pieces
pub mod Segments
pub mod Distinct
pub mod RoundTrip
use go_oci.Prelude.{
  ℕ, zero, suc, ◌+◌, Option, none, some, [], ◌∷◌, Bytes, codes, length, take, drop, equal,
  if◌then◌else◌, Outcome, ok, fail, panic, ◌>>=◌,
}
use go_oci.Dsn.Escape.{EscapeError, Escaped, query_unescape}
use go_oci.Dsn.Split.{cut_at}
use go_oci.Dsn.Text.{index, index_any}
use go_oci.Dsn.Values.{Table, append_value}

pub data Unfinished : Type 0 where
  out_of_fuel : Unfinished

-- The map and `err`.
abbrev pub Parsed : Type 0
Parsed = Table × Option EscapeError

-- `if err == nil { err = err1 }`
abbrev pub first_error : Option EscapeError → EscapeError → Option EscapeError
first_error none e = some e
first_error (some d) e = some d

-- The end of the loop's body, from the two calls of `QueryUnescape` on.
abbrev pub store : Parsed → Escaped Bytes → Escaped Bytes → Outcome Unfinished Parsed
store (m, err) panic value = panic
store (m, err) (fail e) value = ok (m, first_error err e)
store (m, err) (ok key) panic = panic
store (m, err) (ok key) (fail e) = ok (m, first_error err e)
store (m, err) (ok key) (ok value) = ok (append_value key value m, err)

-- The loop's body, for one piece of the query.
parse_piece : Bytes → Parsed → Outcome Unfinished Parsed
parse_piece key acc =
    let pair = cut_at key (codes "=") (index key (codes "=")) in
    if equal key [] then ok acc else store acc (query_unescape pair.0) (query_unescape pair.1)

-- The piece up to the first separator, and the rest of the query.
abbrev pub cut_before : Bytes → Option ℕ → Bytes × Bytes
cut_before query none = (query, [])
cut_before query (some i) = (take i query, drop (i + 1) query)

cut_query : Bytes → Bytes × Bytes
cut_query query = cut_before query (index_any query b'&' b';')

parse_loop : ℕ → Bytes → Parsed → Outcome Unfinished Parsed
unfolding parse_piece cut_query
parse_loop zero [] acc = ok acc
parse_loop zero (c ∷ query) acc = fail out_of_fuel
parse_loop (suc fuel) [] acc = ok acc
parse_loop (suc fuel) (c ∷ query) acc = parse_piece (cut_query (c ∷ query)).0 acc >>= λ acc'.
    parse_loop fuel (cut_query (c ∷ query)).1 acc'

-- `parseQuery`: the map is the one passed in, with what the query adds.
unfoldable pub parse_query_into : Table → Bytes → Outcome Unfinished Parsed
unfolding parse_loop
parse_query_into m query = parse_loop (length query) query (m, none)

unfoldable pub parse_query : Bytes → Outcome Unfinished Parsed
unfolding parse_query_into
parse_query query = parse_query_into [] query
