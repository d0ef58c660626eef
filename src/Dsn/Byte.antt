-- ===== src/Dsn/Byte.antt =====
-- dsn.go: the classification of bytes by `ishex`, `unhex` and `shouldEscape`.
pub mod Table
pub mod Special
use go_oci.Prelude.{ℕ, ◌+◌, ◌-◌, Bool, true, false, ◌&&◌, ◌||◌, leb, ◌==◌, if◌then◌else◌}

abbrev within : ℕ → ℕ → ℕ → Bool
within lo c hi = leb lo c && leb c hi

unfoldable pub is_hex : ℕ → Bool
is_hex c = within b'0' c b'9' || within b'a' c b'f' || within b'A' c b'F'

-- The subtractions are reached in their range only.
unfoldable pub unhex : ℕ → ℕ
unhex c =
    if within b'0' c b'9'
    then c - b'0'
    else if within b'a' c b'f'
    then c - b'a' + 10
    else if within b'A' c b'F'
    then c - b'A' + 10
    else 0

-- The section of a URL that a string stands in.
pub data Encoding : Type 0 where
  path host user_password query_component : Encoding

abbrev pub is_host : Encoding → Bool
is_host host = true
is_host _ = false

abbrev pub is_query : Encoding → Bool
is_query query_component = true
is_query _ = false

-- The unreserved bytes that each section lets through: letters and digits.
unfoldable pub is_alphanumeric : ℕ → Bool
is_alphanumeric c = within b'A' c b'Z' || within b'a' c b'z' || within b'0' c b'9'

-- The bytes of the switch that applies to the host only.
unfoldable pub is_host_extra : ℕ → Bool
is_host_extra c =
    c == b'!'
    || c == b'$'
    || c == b'&'
    || c == b'\''
    || c == b'('
    || c == b')'
    || c == b'*'
    || c == b'+'
    || c == b','
    || c == b';'
    || c == b'='
    || c == b':'
    || c == b'['
    || c == b']'

unfoldable pub is_mark : ℕ → Bool
is_mark c = c == b'-' || c == b'_' || c == b'.' || c == b'~'

unfoldable pub is_reserved : ℕ → Bool
is_reserved c =
    c == b'$'
    || c == b'&'
    || c == b'+'
    || c == b','
    || c == b'/'
    || c == b':'
    || c == b';'
    || c == b'='
    || c == b'?'
    || c == b'@'

-- The inner switch on the mode, for a reserved byte; the host has no case and falls through.
unfoldable pub escapes_reserved : Encoding → ℕ → Bool
escapes_reserved path c = c == b'?'
escapes_reserved host c = true
escapes_reserved user_password c = c == b'@' || c == b'/' || c == b'?' || c == b':'
escapes_reserved query_component c = true

unfoldable pub should_escape : ℕ → Encoding → Bool
unfolding is_alphanumeric is_host_extra is_mark is_reserved escapes_reserved
should_escape c mode =
    if is_alphanumeric c
    then false
    else if is_host mode && is_host_extra c
    then false
    else if is_mark c
    then false
    else if is_reserved c
    then escapes_reserved mode c
    else true
