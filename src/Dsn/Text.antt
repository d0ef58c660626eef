-- ===== src/Dsn/Text.antt =====
-- The functions of Go's package strings that dsn.go and oci8.go call: `HasPrefix`, `Index`,
-- `LastIndex` and `IndexAny`.
use go_oci.Prelude.{
  ℕ, suc, ◌||◌, Bool, true, false, Option, none, some, [], ◌∷◌, Bytes, ◌==◌, if◌then◌else◌,
}

unfoldable pub has_prefix : Bytes → Bytes → Bool
has_prefix s [] = true
has_prefix [] (b ∷ p) = false
has_prefix (a ∷ s) (b ∷ p) = if a == b then has_prefix s p else false

abbrev pub next : Option ℕ → Option ℕ
next none = none
next (some i) = some (suc i)

unfoldable pub index : Bytes → Bytes → Option ℕ
unfolding has_prefix
index [] c = if has_prefix [] c then some 0 else none
index (a ∷ s) c = let later = next (index s c) in if has_prefix (a ∷ s) c then some 0 else later

abbrev pub or_here : Option ℕ → Bool → Option ℕ
or_here (some i) b = some (suc i)
or_here none b = if b then some 0 else none

unfoldable pub last_index : Bytes → Bytes → Option ℕ
unfolding has_prefix
last_index [] c = if has_prefix [] c then some 0 else none
last_index (a ∷ s) c = or_here (last_index s c) (has_prefix (a ∷ s) c)

-- The first position that holds one of two bytes.
unfoldable pub index_any : Bytes → ℕ → ℕ → Option ℕ
index_any [] x y = none
index_any (a ∷ s) x y =
    let later = next (index_any s x y) in if a == x || a == y then some 0 else later
