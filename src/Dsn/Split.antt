-- ===== src/Dsn/Split.antt =====
-- dsn.go: `split`, `splitRight` and `parseAuthority`.
pub mod Cut
pub mod Laws
use go_oci.Prelude.{
  ℕ, ◌+◌, Option, none, some, [], ◌∷◌, Bytes, length, get_elem?, take, drop, Outcome, ok, ◌>>=◌,
  or_panic,
}
use go_oci.Dsn.Byte.{user_password}
use go_oci.Dsn.Escape.{Escaped, unescape}
use go_oci.Dsn.Text.{index, last_index, index_any}

-- `s[:i], s[i+len(c):]` once an index is found, and `s, ""` if there is none.
abbrev pub cut_at : Bytes → Bytes → Option ℕ → Bytes × Bytes
cut_at s c none = (s, [])
cut_at s c (some i) = (take i s, drop (i + length c) s)

unfoldable pub split : Bytes → Bytes → Bytes × Bytes
split s c = cut_at s c (index s c)

unfoldable pub split_right : Bytes → Bytes → Bytes × Bytes
split_right s c = cut_at s c (last_index s c)

-- The two branches of `parseAuthority`, by where the first colon or slash stands.
unfoldable pub authority_at : Bytes → Option ℕ → Escaped (Bytes × Bytes)
unfolding split
authority_at authority none = unescape authority user_password >>= λ user. ok (user, [])
authority_at authority (some i) = do
  separator ← or_panic (get_elem? authority i)
  let parts = split authority (separator ∷ [])
  user ← unescape parts.0 user_password
  pass ← unescape parts.1 user_password
  ok (user, pass)

-- The user and the password.
unfoldable pub parse_authority : Bytes → Escaped (Bytes × Bytes)
unfolding authority_at
parse_authority authority = authority_at authority (index_any authority b':' b'/')
