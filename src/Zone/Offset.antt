-- ===== src/Zone/Offset.antt =====
-- The kind of location that `timezoneToLocation` returns.
use go_oci.Prelude.{
  ℕ, ◌+◌, ◌-◌, ◌*◌, ◌<◌, ◌≡◌, inl, inr, refl, sym, ap, subst, ◌∙◌, false, some, List, Bytes,
  get_elem?, Bool-cases, if-true, if-false, ok, or_panic, arith,
}
use go_oci.Prelude.Int.{ℤ, pos, negsuc, ◌+ℤ◌, ◌*ℤ◌, sub_ℕ}
use go_oci.Zone.{is_fixed, zone_index, zone_at, timezone_to_location}

-- A table of the zones from 12 hours behind to 14 hours ahead, hour by hour, each of which stands
-- for its offset in seconds.
abbrev pub IsHourly : {Location : Type 0} → (Location → ℤ → Type 0) → List Location → Type 0
IsHourly {Location} StandsFor zones =
    (i : ℕ)
    → i < 27
    → (l : Location) × (get_elem? zones i ≡ some l) × StandsFor l (sub_ℕ (3600 * i) 43200)

on_hour : (hour minute : ℤ) → is_fixed hour minute ≡ false → minute ≡ pos 0
on_hour (pos h) (pos m) e = ground arith
on_hour (pos h) (negsuc m) e = absurd cc
on_hour (negsuc h) (pos m) e = ground arith
on_hour (negsuc h) (negsuc m) e = absurd cc

ahead : (h : ℕ) → sub_ℕ (3600 * (12 + h)) 43200 ≡ pos 3600 *ℤ pos h +ℤ pos 60 *ℤ pos 0
unfolding ◌+ℤ◌ ◌*ℤ◌
ahead h = ground arith

behind : (h : ℕ) → h < 12 → sub_ℕ (3600 * (11 - h)) 43200 ≡ pos 3600 *ℤ negsuc h +ℤ pos 60 *ℤ pos 0
unfolding ◌+ℤ◌ ◌*ℤ◌
behind h small = ground (arith, small)

below_twelve : (h : ℕ) (m : ℤ) → is_fixed (negsuc h) m ≡ false → h < 12
below_twelve h (pos m) e = ground arith
below_twelve h (negsuc m) e = absurd cc

up_to_fourteen : (h : ℕ) (m : ℤ) → is_fixed (pos h) m ≡ false → 12 + h < 27
up_to_fourteen h (pos m) e = ground arith
up_to_fourteen h (negsuc m) e = absurd cc

cached :
    (hour minute : ℤ)
    → is_fixed hour minute ≡ false
    → (i : ℕ) × (zone_index hour ≡ some i)
      × (i < 27)
      × (sub_ℕ (3600 * i) 43200 ≡ pos 3600 *ℤ hour +ℤ pos 60 *ℤ minute)
cached (pos h) minute e = (
  12 + h,
  refl,
  up_to_fourteen h minute e,
  ahead h ∙ ap (λ m. pos 3600 *ℤ pos h +ℤ pos 60 *ℤ m) (sym (on_hour (pos h) minute e)),
)
cached (negsuc h) minute e =
    let small = below_twelve h minute e in
    (
      11 - h,
      ground (arith, small),
      omega arith,
      behind h small
          ∙ ap (λ m. pos 3600 *ℤ negsuc h +ℤ pos 60 *ℤ m) (sym (on_hour (negsuc h) minute e)),
    )

module _ {Location : Type 0} (fixed_zone : Bytes → ℤ → Location) (zones : List Location)
    (StandsFor : Location → ℤ → Type 0) where
  -- Where a fixed zone stands for the offset that it is made with, and the loaded zones are those
  -- from 12 hours behind to 14 hours ahead, `timezoneToLocation` never reads outside of the loaded
  -- zones, and the location that it returns stands for the offset of the hours and minutes.
  pub timezone_to_location-StandsFor :
      (hour minute : ℤ)
      → ((name : Bytes) (o : ℤ) → StandsFor (fixed_zone name o) o)
      → IsHourly StandsFor zones
      → (l : Location) × (timezone_to_location fixed_zone zones hour minute ≡ ok l)
        × StandsFor l (pos 3600 *ℤ hour +ℤ pos 60 *ℤ minute)
  unfolding timezone_to_location
  timezone_to_location-StandsFor hour minute fixed hourly =
      elim (Bool-cases (is_fixed hour minute)) [
        | inl e ↦ (_, if-true e _ _, fixed _ _)
        | inr e ↦
            let (i, at, inside, o) = cached hour minute e in
            let (l, found, is_o) = hourly i inside in
            (
              l,
              if-false e _ _ ∙ ap (zone_at zones) at ∙ ap or_panic found,
              subst (StandsFor l) o is_o,
            )
      ]
