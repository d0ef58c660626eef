-- ===== src/Dsn/Escape.antt =====
-- dsn.go: `unescape` and `escape`, each with its two loops: one counts, one fills a buffer of
-- the counted size. A loop takes the unread part of the string in place of its index.
pub mod Spec
pub mod Decode
pub mod Encode
pub mod RoundTrip
pub mod Lacks
use go_oci.Prelude.{
  ℕ, ◌+◌, ◌-◌, ◌*◌, ◌/◌, ◌%◌, bit_and, bit_or, Bool, true, false, not, ◌&&◌, ◌||◌, List, [], ◌∷◌,
  Bytes, codes, length, get_elem?, replicate, set, ltb, ◌==◌, if◌then◌else◌, Outcome, ok, fail,
  panic, ◌>>=◌, or_panic,
}
use go_oci.Dsn.Byte.{Encoding, query_component, is_query, is_hex, unhex, should_escape}

-- `EscapeError`: the offending piece of the string.
abbrev pub EscapeError : Type 0
EscapeError = Bytes

abbrev pub Escaped : Type 0 → Type 0
Escaped A = Outcome EscapeError A

-- `t[j] = v`
pub put : Bytes → ℕ → ℕ → Escaped Bytes
put t j v = if ltb j (length t) then ok (set t j v) else panic

-- The first loop of `unescape`: the number of escapes and `hasPlus`.
count_percent : Encoding → Bytes → ℕ → Bool → Escaped (ℕ × Bool)
count_percent mode [] n has_plus = ok (n, has_plus)
count_percent mode (c ∷ []) n has_plus =
    if c == b'%'
    then fail (c ∷ [])
    else count_percent mode [] n (if c == b'+' then is_query mode else has_plus)
count_percent mode (c ∷ a ∷ []) n has_plus =
    let one = count_percent mode (a ∷ []) n (if c == b'+' then is_query mode else has_plus) in
    if c == b'%' then fail (c ∷ a ∷ []) else one
count_percent mode (c ∷ a ∷ b ∷ s) n has_plus =
    let three = count_percent mode s (n + 1) has_plus in
    let one = count_percent mode (a ∷ b ∷ s) n (if c == b'+' then is_query mode else has_plus) in
    if c == b'%'
    then (if not (is_hex a) || not (is_hex b) then fail (c ∷ a ∷ b ∷ []) else three)
    else one

-- What the second loop of `unescape` stores for a byte other than a percent sign.
unescaped_byte : Encoding → ℕ → ℕ
unescaped_byte mode c = if c == b'+' then (if is_query mode then b' ' else b'+') else c

-- The second loop of `unescape`; reading past the end of the string is a panic.
fill : Encoding → Bytes → Bytes → ℕ → Escaped Bytes
unfolding unescaped_byte put
fill mode [] t j = ok t
fill mode (c ∷ []) t j =
    if c == b'%' then panic else (put t j (unescaped_byte mode c) >>= λ t'. fill mode [] t' (j + 1))
fill mode (c ∷ a ∷ []) t j =
    if c == b'%'
    then panic
    else (put t j (unescaped_byte mode c) >>= λ t'. fill mode (a ∷ []) t' (j + 1))
fill mode (c ∷ a ∷ b ∷ s) t j =
    if c == b'%'
    then (put t j (bit_or (unhex a * 16 % 256) (unhex b)) >>= λ t'. fill mode s t' (j + 1))
    else (put t j (unescaped_byte mode c) >>= λ t'. fill mode (a ∷ b ∷ s) t' (j + 1))

unfoldable pub unescape : Bytes → Encoding → Escaped Bytes
unfolding count_percent fill
unescape s mode = do
  (n, has_plus) ← count_percent mode s 0 false
  if n == 0 && not has_plus then ok s else fill mode s (replicate (length s - 2 * n) 0) 0

unfoldable pub query_unescape : Bytes → Escaped Bytes
unfolding unescape
query_unescape s = unescape s query_component

-- The first loop of `escape`.
count_escaped : Encoding → Bytes → ℕ → ℕ → ℕ × ℕ
count_escaped mode [] spaces hexes = (spaces, hexes)
count_escaped mode (c ∷ s) spaces hexes =
    let space = count_escaped mode s (spaces + 1) hexes in
    let hex = count_escaped mode s spaces (hexes + 1) in
    let plain = count_escaped mode s spaces hexes in
    if should_escape c mode then (if c == b' ' && is_query mode then space else hex) else plain

-- `"0123456789ABCDEF"[k]`
hex_digit : ℕ → Escaped ℕ
hex_digit k = or_panic (get_elem? (codes "0123456789ABCDEF") k)

-- The second loop of `escape`.
write : Encoding → Bytes → Bytes → ℕ → Escaped Bytes
unfolding hex_digit put
write mode [] t j = ok t
write mode (c ∷ s) t j =
    if c == b' ' && is_query mode
    then (put t j b'+' >>= λ t'. write mode s t' (j + 1))
    else if should_escape c mode
    then (do
      t₁ ← put t j b'%'
      high ← hex_digit (c / 16)
      t₂ ← put t₁ (j + 1) high
      low ← hex_digit (bit_and c 15)
      t₃ ← put t₂ (j + 2) low
      write mode s t₃ (j + 3))
    else (put t j c >>= λ t'. write mode s t' (j + 1))

unfoldable pub escape : Bytes → Encoding → Escaped Bytes
unfolding count_escaped write
escape s mode =
    let (spaces, hexes) = count_escaped mode s 0 0 in
    if spaces == 0 && hexes == 0 then ok s else write mode s (replicate (length s + 2 * hexes) 0) 0

unfoldable pub query_escape : Bytes → Escaped Bytes
unfolding escape
query_escape s = escape s query_component
