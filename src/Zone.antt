-- ===== src/Zone.antt =====
-- Time zones: connection.go's `appendSmallInt` and the zone that `timeToOCIDateTime` writes, and
-- oci8.go's `timezoneToLocation` over the zones that globals.go's `init` loads.
pub mod RoundTrip
pub mod Load
pub mod Stamps
pub mod Offset
pub mod Text
use go_oci.Prelude.{
  ℕ, zero, suc, ◌-◌, ◌+◌, ◌*◌, ◌/◌, ◌%◌, Bool, true, false, ◌||◌, Option, none, some, List, [], ◌∷◌,
  ◌++◌, Bytes, codes, get_elem?, ltb, ◌==◌, if◌then◌else◌, Outcome, ok, fail, panic, or_panic, not,
}
use go_oci.Prelude.Int.{ℤ, pos, negsuc, ◌+ℤ◌, ◌*ℤ◌, is_positive, is_zero, is_negsuc}

-- `byte(n)`
abbrev pub byte : ℕ → ℕ
byte n = n % 256

-- `appendSmallInt`
unfoldable pub append_small_int : Bytes → ℕ → Bytes
append_small_int s n =
    if n == 0
    then s ++ 48 ∷ 48 ∷ []
    else if ltb n 10
    then s ++ 48 ∷ byte (48 + n) ∷ []
    else s ++ byte (48 + n / 10) ∷ byte (48 + n % 10) ∷ []

-- The sign and the size of an offset.
abbrev pub sign_of : ℤ → Bytes × ℕ
sign_of (pos n) = (43 ∷ [], n)
sign_of (negsuc n) = (45 ∷ [], suc n)

-- The zone that `timeToOCIDateTime` writes for an offset in seconds.
unfoldable pub zone_text : ℤ → Bytes
unfolding append_small_int
zone_text offset =
    let (s, n) = sign_of offset in
    let hours = append_small_int s (n / 3600) in append_small_int (hours ++ 58 ∷ []) (n % 3600 / 60)

-- `strconv.FormatInt(n, 10)`: the decimal digits, at least one.
unfoldable pub decimal_on : ℕ → ℕ → Bytes
decimal_on zero n = []
decimal_on (suc fuel) n =
    let rest = decimal_on fuel (n / 10) in
    if ltb n 10 then (48 + n) ∷ [] else rest ++ (48 + n % 10) ∷ []

unfoldable pub format_int : ℤ → Bytes
unfolding decimal_on
format_int (pos n) = decimal_on (suc n) n
format_int (negsuc n) = 45 ∷ decimal_on (suc (suc n)) (suc n)

-- The test of `timezoneToLocation`: minutes, or an hour outside of -12 to 14.
abbrev pub is_fixed : ℤ → ℤ → Bool
is_fixed (pos h) m = not (is_zero m) || ltb 14 h
is_fixed (negsuc h) m = not (is_zero m) || ltb 11 h

-- `hour < 0` and `minute < 10`
abbrev is_below : ℤ → Bool
is_below (pos n) = false
is_below (negsuc n) = true

abbrev is_below_ten : ℤ → Bool
is_below_ten (pos n) = ltb n 10
is_below_ten (negsuc n) = true

-- The name of a location that is not one of the loaded ones.
unfoldable pub zone_name : ℤ → ℤ → Bytes
unfolding format_int
zone_name h m =
    let hours = if is_below h then format_int h ++ 58 ∷ [] else 43 ∷ format_int h ++ 58 ∷ [] in
    if is_zero m
    then hours ++ 48 ∷ 48 ∷ []
    else (if is_below_ten m then hours ++ 48 ∷ [] else hours) ++ format_int m

-- `12+hour` as an index.
abbrev pub zone_index : ℤ → Option ℕ
zone_index (pos h) = some (12 + h)
zone_index (negsuc h) = if ltb h 12 then some (11 - h) else none

-- The element at an index; a negative one is a panic, as is one past the end.
abbrev pub zone_at : {Location : Type 0} → List Location → Option ℕ → Outcome (Unit {0}) Location
zone_at zones none = panic
zone_at zones (some i) = or_panic (get_elem? zones i)

module _ {Location : Type 0} (fixed_zone : Bytes → ℤ → Location) (zones : List Location) where
  -- `timezoneToLocation`, over the `timeLocations` that `init` has loaded.
  unfoldable pub timezone_to_location : ℤ → ℤ → Outcome (Unit {0}) Location
  unfolding zone_name ◌+ℤ◌ ◌*ℤ◌
  timezone_to_location hour minute =
      if is_fixed hour minute
      then ok (fixed_zone (zone_name hour minute) (pos 3600 *ℤ hour +ℤ pos 60 *ℤ minute))
      else zone_at zones (zone_index hour)
