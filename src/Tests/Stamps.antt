-- ===== src/Tests/Stamps.antt =====
-- Inputs for the loaded zones and for descriptors of times.
use go_oci.Prelude.{
  ℕ, ◌+◌, ◌*◌, ◌-◌, ◌==◌, true, false, ◌≡◌, refl, ap, ◌∙◌, sym, Option, some, none, Bool, [], ◌∷◌,
  Bytes, codes, equal, if◌then◌else◌, Outcome, ok, fail, arith,
}
use go_oci.Prelude.Int.{ℤ, pos, negsuc}
use go_oci.Oci.{Sword}
use go_oci.Zone.Stamps.{Date, Clock, time_to_oci_date_time}
use go_oci.Zone.RoundTrip.{
  KeepsStamps, ReadsBack, towards, sign_byte, oci_date_time_to_time-time_to_oci_date_time,
}

-- A location has the same offset at all times.
abbrev at_all_times : ℤ → Date × Clock × ℤ → ℤ
at_all_times l t = l

-- A location is its offset, and two of the names can be loaded.
abbrev load_location : Bytes → Option ℤ
load_location s =
    if equal s (codes "GMT")
    then some (pos 0)
    else if equal s (codes "Asia/Tokyo")
    then some (pos 32400)
    else none

-- A descriptor is what it was made with.
abbrev Stamp : Type 0
Stamp = Date × Clock × Bytes

abbrev construct : Date → Clock → Bytes → Sword × Stamp
construct d c z = (Sword.success, (d, c, z))

abbrev get_date : Stamp → Outcome Sword Date
get_date s = ok s.0

abbrev get_time : Stamp → Outcome Sword Clock
get_time s = ok s.1

abbrev read_zone : Bytes → Outcome Sword (ℤ × ℤ)
read_zone (s ∷ a ∷ b ∷ x ∷ m ∷ n ∷ []) =
    ok (towards (s == 45) (10 * (a - 48) + (b - 48)), towards (s == 45) (10 * (m - 48) + (n - 48)))
read_zone _ = fail Sword.oci_error

abbrev get_zone : Stamp → Outcome Sword (ℤ × ℤ)
get_zone s = read_zone s.2

keeps :
    KeepsStamps {Time = Date × Clock × ℤ} load_location
      (λ name o. o)
      at_all_times
      (λ d c l. (d, c, l))
      (pos 0)
      construct
      get_date
      get_time
      get_zone
keeps d c behind h1 h2 m1 m2 stamp e = (
  sym (ap (λ p. get_date p.1) e),
  sym (ap (λ p. get_time p.1) e),
  sym (ap (λ p. get_zone p.1) e) ∙ digits behind,
)
  where
    two : (x y : ℕ) → 10 * (48 + x - 48) + (48 + y - 48) ≡ 10 * x + y
    two x y = omega arith

    digits :
        (b : Bool)
        → read_zone (sign_byte b ∷ (48 + h1) ∷ (48 + h2) ∷ 58 ∷ (48 + m1) ∷ (48 + m2) ∷ [])
          ≡ ok (towards b (10 * h1 + h2), towards b (10 * m1 + m2))
    digits false = rw (two h1 h2, two m1 m2) (refl)
    digits true = rw (two h1 h2, two m1 m2) (refl)

abbrev leap_day : Date
leap_day = record { year = pos 2024; month = 2; day = 29 }

abbrev noon : Clock
noon = record { hour = 12; minute = 0; second = 59; nanosecond = 999999999 }

-- Three and a half hours behind, and one second.
abbrev behind : ℤ
behind = negsuc 12600

oci_date_time_to_time-time_to_oci_date_time_example :
    ReadsBack {Time = Date × Clock × ℤ} load_location
      (λ name o. o)
      at_all_times
      (λ d c l. (d, c, l))
      (pos 0)
      construct
      get_date
      get_time
      get_zone
      leap_day
      noon
      behind
      (time_to_oci_date_time Sword.success construct leap_day noon behind)
oci_date_time_to_time-time_to_oci_date_time_example =
    oci_date_time_to_time-time_to_oci_date_time load_location (λ name o. o) at_all_times
      (λ d c l. (d, c, l)) (pos 0) construct get_date get_time get_zone Sword.success leap_day noon
      behind (omega arith) (omega arith) (omega arith) keeps (λ name o t. refl)
