-- ===== src/Source/Number.antt =====
-- `strconv.ParseBool` and `strconv.ParseUint(v, 10, 32)`, as Go documents them; `none` is their
-- error.
use go_oci.Prelude.{
  ℕ, ◌+◌, ◌-◌, ◌*◌, ◌^◌, Bool, true, false, ◌||◌, Option, none, some, [], ◌∷◌, Bytes, codes, equal,
  ltb, if◌then◌else◌,
}

unfoldable pub parse_bool : Bytes → Option Bool
unfolding equal
parse_bool v =
    if equal v (codes "1")
      || equal v (codes "t")
      || equal v (codes "T")
      || equal v (codes "TRUE")
      || equal v (codes "true")
      || equal v (codes "True")
    then some true
    else if equal v (codes "0")
        || equal v (codes "f")
        || equal v (codes "F")
        || equal v (codes "FALSE")
        || equal v (codes "false")
        || equal v (codes "False")
    then some false
    else none

-- The digits behind those that spell `n`; a value of 2^32 or more is a range error.
unfoldable pub parse_digits : ℕ → Bytes → Option ℕ
parse_digits n [] = some n
parse_digits n (c ∷ s) =
    let m = n * 10 + (c - b'0') in
    let rest = parse_digits m s in
    if ltb c b'0' || ltb b'9' c then none else if ltb m (2 ^ 32) then rest else none

unfoldable pub parse_uint32 : Bytes → Option ℕ
unfolding parse_digits
parse_uint32 [] = none
parse_uint32 (c ∷ s) = parse_digits 0 (c ∷ s)
