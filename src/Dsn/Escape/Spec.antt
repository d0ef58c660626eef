-- ===== src/Dsn/Escape/Spec.antt =====
-- What `unescape` and `escape` are to compute, each in one pass and with no buffer.
use go_oci.Prelude.{
  ℕ, ◌+◌, ◌*◌, ◌/◌, ◌%◌, ◌&&◌, Option, none, some, [], ◌∷◌, flat_map, Bytes, ◌==◌, if◌then◌else◌,
  Outcome, ok, fail,
}
use go_oci.Dsn.Byte.{Encoding, is_query, is_hex, unhex, should_escape}

-- The first malformed escape: a percent sign with what follows it, three bytes at most.
unfoldable pub bad_escape : Bytes → Option Bytes
bad_escape [] = none
bad_escape (c ∷ []) = if c == b'%' then some (c ∷ []) else bad_escape []
bad_escape (c ∷ a ∷ []) =
    let one = bad_escape (a ∷ []) in if c == b'%' then some (c ∷ a ∷ []) else one
bad_escape (c ∷ a ∷ b ∷ s) =
    let three = bad_escape s in
    let one = bad_escape (a ∷ b ∷ s) in
    if c == b'%' then (if is_hex a && is_hex b then three else some (c ∷ a ∷ b ∷ [])) else one

-- The byte that an unescaped byte stands for.
unfoldable pub plain : Encoding → ℕ → ℕ
plain mode c = if c == b'+' && is_query mode then b' ' else c

-- The meaning of a well-formed string.
unfoldable pub meaning : Encoding → Bytes → Bytes
unfolding plain
meaning mode [] = []
meaning mode (c ∷ []) = plain mode c ∷ []
meaning mode (c ∷ a ∷ []) = plain mode c ∷ meaning mode (a ∷ [])
meaning mode (c ∷ a ∷ b ∷ s) =
    let three = meaning mode s in
    let one = meaning mode (a ∷ b ∷ s) in
    if c == b'%' then (unhex a * 16 + unhex b) ∷ three else plain mode c ∷ one

-- A result that stands unless there is a malformed escape.
abbrev pub unless_bad {ℓ} : {A : Type ℓ} → Option Bytes → A → Outcome Bytes A
unless_bad none a = ok a
unless_bad (some e) a = fail e

unfoldable pub decode : Bytes → Encoding → Outcome Bytes Bytes
unfolding bad_escape meaning
decode s mode = unless_bad (bad_escape s) (meaning mode s)

-- The upper-case hexadecimal digit of a number below 16.
unfoldable pub upper_hex : ℕ → ℕ
upper_hex k = if k / 10 == 0 then b'0' + k else 55 + k

unfoldable pub encode_byte : Encoding → ℕ → Bytes
unfolding upper_hex
encode_byte mode c =
    if c == b' ' && is_query mode
    then b'+' ∷ []
    else if should_escape c mode
    then b'%' ∷ upper_hex (c / 16) ∷ upper_hex (c % 16) ∷ []
    else c ∷ []

unfoldable pub encode : Bytes → Encoding → Bytes
unfolding encode_byte flat_map
encode s mode = flat_map (encode_byte mode) s
