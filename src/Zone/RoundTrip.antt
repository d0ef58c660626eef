-- ===== src/Zone/RoundTrip.antt =====
-- What `ociDateTimeToTime` makes of the descriptor that `timeToOCIDateTime` has made.
use go_oci.Prelude.{
  subst, inl, if-tested, ℕ, suc, ◌+◌, ◌*◌, ◌/◌, ◌%◌, ◌^◌, ◌<◌, ◌≡◌, refl, sym, ap, ◌∙◌, Bool, true,
  false, Option, [], ◌∷◌, Bytes, if◌then◌else◌, Outcome, ok, fail, panic, arith,
}
use go_oci.Prelude.Int.{ℤ, pos, negsuc, ◌+ℤ◌, ◌*ℤ◌, sub_ℕ, signed, residue}
use go_oci.Oci.{Sword}
use go_oci.Zone.{zone_text, sign_of}
use go_oci.Zone.Text.{zone_text_lem}
use go_oci.Zone.Load.{load_zones, load_zones-IsHourly, KeepsOffsets, StandsFor}
use go_oci.Zone.Offset.{timezone_to_location-StandsFor}
use go_oci.Zone.Stamps.{
  Date, Clock, c_date, c_clock, is_success, time_to_oci_date_time, at_location,
  oci_date_time_to_time,
}

-- A year that is an `sb2`.
abbrev pub FitsSb2 : ℤ → Type 0
FitsSb2 (pos n) = n < 32768
FitsSb2 (negsuc n) = n < 32768

-- The numbers of a date and a clock, as Go's `time` has them.
abbrev pub IsDate : Date → Type 0
IsDate d = FitsSb2 d.year × (d.month < 13) × (d.day < 32)

abbrev pub IsClock : Clock → Type 0
IsClock c = (c.hour < 24) × (c.minute < 60) × (c.second < 60) × (c.nanosecond < 1000000000)

-- A number of hours or minutes ahead or behind.
abbrev pub towards : Bool → ℕ → ℤ
towards false n = pos n
towards true n = sub_ℕ 0 n

abbrev pub sign_byte : Bool → ℕ
sign_byte false = 43
sign_byte true = 45

-- An offset in seconds without the seconds past the last whole minute.
abbrev pub whole_minutes : ℤ → ℤ
whole_minutes (pos n) = pos (n / 60 * 60)
whole_minutes (negsuc n) = sub_ℕ 0 (suc n / 60 * 60)

year_kept : (y : ℤ) → FitsSb2 y → signed (2 ^ 15) (residue (2 ^ 16) y) ≡ y
unfolding signed residue
year_kept (pos n) h = ground (arith, h)
year_kept (negsuc n) h = ground (arith, h)

c_date_lem : (d : Date) → IsDate d → c_date d ≡ d
unfolding c_date
c_date_lem d (y, m, day) = rw (year_kept d.year y, small_month, small_day) (refl)
  where
    small_month : d.month % 2 ^ 8 ≡ d.month
    small_month = omega (arith, m)

    small_day : d.day % 2 ^ 8 ≡ d.day
    small_day = omega (arith, day)

c_clock_lem : (c : Clock) → IsClock c → c_clock c ≡ c
unfolding c_clock
c_clock_lem c (h, m, s, n) = rw (small_hour, small_minute, small_second, small_nanosecond) (refl)
  where
    small_hour : c.hour % 2 ^ 8 ≡ c.hour
    small_hour = omega (arith, h)

    small_minute : c.minute % 2 ^ 8 ≡ c.minute
    small_minute = omega (arith, m)

    small_second : c.second % 2 ^ 8 ≡ c.second
    small_second = omega (arith, s)

    small_nanosecond : c.nanosecond % 2 ^ 32 ≡ c.nanosecond
    small_nanosecond = omega (arith, n)

joined_offset :
    (behind : Bool) (h m : ℕ)
    → pos 3600 *ℤ towards behind h +ℤ pos 60 *ℤ towards behind m
      ≡ towards behind (3600 * h + 60 * m)
unfolding ◌+ℤ◌ ◌*ℤ◌
joined_offset false h m = ground arith
joined_offset true h m = ground arith

split_minutes :
    (n : ℕ)
    → 3600 * (10 * (n / 3600 / 10) + n / 3600 % 10)
        + 60 * (10 * (n % 3600 / 60 / 10) + n % 3600 / 60 % 10)
      ≡ n / 60 * 60
split_minutes n = omega arith

offset_behind : ℤ → Bool
offset_behind (pos n) = false
offset_behind (negsuc n) = true

-- The zone is a sign with two digits each of the hours and of the minutes.
zone_of : ℤ → Bytes
unfolding offset_behind
zone_of o =
    let n = (sign_of o).1 in
    sign_byte (offset_behind o)
    ∷ (48 + n / 3600 / 10)
    ∷ (48 + n / 3600 % 10)
    ∷ 58
    ∷ (48 + n % 3600 / 60 / 10)
    ∷ (48 + n % 3600 / 60 % 10)
    ∷ []

zone_text-zone_of : (o : ℤ) → (sign_of o).1 < 360000 → zone_text o ≡ zone_of o
unfolding zone_of
zone_text-zone_of (pos n) h = zone_text_lem (pos n) h
zone_text-zone_of (negsuc n) h = zone_text_lem (negsuc n) h

joined_zone :
    (o : ℤ)
    → pos 3600
          *ℤ towards
              (offset_behind o)
              (10 * ((sign_of o).1 / 3600 / 10) + (sign_of o).1 / 3600 % 10)
        +ℤ pos 60
          *ℤ towards
              (offset_behind o)
              (10 * ((sign_of o).1 % 3600 / 60 / 10) + (sign_of o).1 % 3600 / 60 % 10)
      ≡ whole_minutes o
unfolding offset_behind
joined_zone (pos n) = joined_offset false _ _ ∙ ap pos (split_minutes n)
joined_zone (negsuc n) = joined_offset true _ _ ∙ ap (sub_ℕ 0) (split_minutes (suc n))

is_success_inv : (r : Sword) → is_success r ≡ true → r ≡ Sword.success
is_success_inv Sword.success e = refl
is_success_inv _ e = cc

module _ {Location Time Stamp : Type 0} (load_location : Bytes → Option Location)
    (fixed_zone : Bytes → ℤ → Location) (offset : Location → Time → ℤ)
    (date_in : Date → Clock → Location → Time) (time_location : Location)
    (construct : Date → Clock → Bytes → Sword × Stamp) (get_date : Stamp → Outcome Sword Date)
    (get_time : Stamp → Outcome Sword Clock) (get_zone : Stamp → Outcome Sword (ℤ × ℤ)) where
  -- A descriptor that has been constructed is read back: its date, its clock, and the hours and minutes of
  -- a zone that was written with a sign, two digits, a colon and two digits.
  abbrev pub KeepsStamps : Type 0
  KeepsStamps =
      (d : Date) (c : Clock) (behind : Bool) (h1 h2 m1 m2 : ℕ) (stamp : Stamp)
      → construct d c (sign_byte behind ∷ (48 + h1) ∷ (48 + h2) ∷ 58 ∷ (48 + m1) ∷ (48 + m2) ∷ [])
        ≡ (Sword.success, stamp)
      → (get_date stamp ≡ ok d)
        × (get_time stamp ≡ ok c)
        × (get_zone stamp ≡ ok (towards behind (10 * h1 + h2), towards behind (10 * m1 + m2)))

  -- What is read of a descriptor: the time with that date and clock, in a location that stands for
  -- the offset's whole minutes; there is no descriptor after an error of a call.
  abbrev pub ReadsBack : Date → Clock → ℤ → Outcome Sword Stamp → Type 0
  ReadsBack d c o (ok stamp) =
      (l : Location) × (oci_date_time_to_time fixed_zone (load_zones load_location fixed_zone)
          date_in time_location get_date get_time get_zone stamp true
        ≡ ok (date_in d c l))
      × StandsFor load_location fixed_zone offset l (whole_minutes o)
  ReadsBack d c o (fail r) = is_success r ≡ false
  ReadsBack d c o panic = ⊥

  read_stamp :
      (d : Date) (c : Clock) (o : ℤ) (stamp : Stamp)
      → KeepsStamps
      → KeepsOffsets load_location fixed_zone offset
      → construct d c (zone_of o) ≡ (Sword.success, stamp)
      → ReadsBack d c o (ok stamp)
  unfolding oci_date_time_to_time zone_of
  read_stamp d c o stamp keeps fixed e =
      let n = (sign_of o).1 in
      let (date, clock, zone) =
        keeps d c (offset_behind o) (n / 3600 / 10) (n / 3600 % 10) (n % 3600 / 60 / 10)
          (n % 3600 / 60 % 10) stamp e in
      let (l, found, at) =
        timezone_to_location-StandsFor fixed_zone (load_zones load_location fixed_zone)
          (StandsFor load_location fixed_zone offset) _ _ (λ name o. inl (λ t. fixed name o t))
          (load_zones-IsHourly load_location fixed_zone offset fixed) in
      (
        l,
        rw (date, clock, zone) (ap (at_location (date_in d c)) found),
        subst (StandsFor load_location fixed_zone offset l) (joined_zone o) at,
      )

  -- A Go time whose year fits in an `sb2`, with an offset of less than 100 hours: where the
  -- descriptor keeps what is written to it and a fixed zone has the offset that it is made with,
  -- `ociDateTimeToTime` reads what `timeToOCIDateTime` has written, without a panic, as the same date
  -- and clock in a location that has, at all times, the same offset but for its seconds, or in the
  -- location that is loaded under the name of the zone whose standard time has that offset. Without a
  -- descriptor, the error is the one of the call that has failed.
  pub oci_date_time_to_time-time_to_oci_date_time :
      (alloc : Sword) (d : Date) (c : Clock) (o : ℤ)
      → IsDate d
      → IsClock c
      → (sign_of o).1 < 360000
      → KeepsStamps
      → KeepsOffsets load_location fixed_zone offset
      → ReadsBack d c o (time_to_oci_date_time alloc construct d c o)
  unfolding time_to_oci_date_time
  oci_date_time_to_time-time_to_oci_date_time alloc d c o in_date in_clock small keeps fixed =
      by_results (construct (c_date d) (c_clock c) (zone_text o)) kept
    where
      kept : construct (c_date d) (c_clock c) (zone_text o) ≡ construct d c (zone_of o)
      kept = rw (c_date_lem d in_date, c_clock_lem c in_clock, zone_text-zone_of o small) (refl)

      by_results :
          (p : Sword × Stamp)
          → p ≡ construct d c (zone_of o)
          → ReadsBack d c o (
              if is_success alloc
              then (if is_success p.0 then ok p.1 else fail p.0)
              else fail alloc)
      by_results (r, stamp) e =
          if-tested (ReadsBack d c o) (is_success alloc)
            (λ _.
              if-tested (ReadsBack d c o) (is_success r)
                (λ well.
                  read_stamp d c o stamp keeps fixed
                    (sym e ∙ ap (λ x. (x, stamp)) (is_success_inv r well)))
                (λ bad. bad))
            (λ bad. bad)
