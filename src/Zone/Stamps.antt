-- ===== src/Zone/Stamps.antt =====
-- connection.go: `timeToOCIDateTime` and `ociDateTimeToTime`. A Go time is the numbers of its date and
-- its clock with an offset; `time.Date`, the descriptor and the calls of OCI that write and read it
-- are parameters.
use go_oci.Prelude.{
  ℕ, ◌%◌, ◌^◌, Bool, true, false, List, Bytes, if◌then◌else◌, Outcome, ok, fail, panic, ◌>>=◌,
}
use go_oci.Prelude.Int.{ℤ, signed, residue}
use go_oci.Oci.{Sword}
use go_oci.Zone.{zone_text, timezone_to_location}

pub record Date : Type 0 where
  pub year : ℤ
  pub month : ℕ
  pub day : ℕ

pub record Clock : Type 0 where
  pub hour : ℕ
  pub minute : ℕ
  pub second : ℕ
  pub nanosecond : ℕ

-- `C.sb2(aTime.Year())` and the other conversions of a date.
unfoldable pub c_date : Date → Date
unfolding signed residue
c_date d = record {
  year = signed (2 ^ 15) (residue (2 ^ 16) d.year);
  month = d.month % 2 ^ 8;
  day = d.day % 2 ^ 8;
}

-- The conversions of a clock.
unfoldable pub c_clock : Clock → Clock
c_clock c = record {
  hour = c.hour % 2 ^ 8;
  minute = c.minute % 2 ^ 8;
  second = c.second % 2 ^ 8;
  nanosecond = c.nanosecond % 2 ^ 32;
}

abbrev pub is_success : Sword → Bool
is_success Sword.success = true
is_success _ = false

module _ {Stamp : Type 0} where
  -- `timeToOCIDateTime`, with the results of `ociDescriptorAlloc` and of `OCIDateTimeConstruct`.
  unfoldable pub time_to_oci_date_time :
      Sword → (Date → Clock → Bytes → Sword × Stamp) → Date → Clock → ℤ → Outcome Sword Stamp
  unfolding c_date c_clock zone_text
  time_to_oci_date_time alloc construct date clock offset =
      let (r, stamp) = construct (c_date date) (c_clock clock) (zone_text offset) in
      if is_success alloc then (if is_success r then ok stamp else fail r) else fail alloc

-- The time in the location of the hours and minutes.
abbrev pub at_location :
    {Location Time : Type 0} → (Location → Time) → Outcome (Unit {0}) Location → Outcome Sword Time
at_location at (ok l) = ok (at l)
at_location at _ = panic

module _ {Location Time Stamp : Type 0} (fixed_zone : Bytes → ℤ → Location) (zones : List Location)
    (date_in : Date → Clock → Location → Time) (time_location : Location) where
  -- `ociDateTimeToTime`, over `timeLocations` and the connection's location, with the three calls that
  -- read the descriptor.
  unfoldable pub oci_date_time_to_time :
      (Stamp → Outcome Sword Date)
      → (Stamp → Outcome Sword Clock)
      → (Stamp → Outcome Sword (ℤ × ℤ))
      → Stamp
      → Bool
      → Outcome Sword Time
  unfolding timezone_to_location
  oci_date_time_to_time get_date get_time get_zone stamp has_time_zone = do
    date ← get_date stamp
    clock ← get_time stamp
    if has_time_zone
        then (get_zone stamp >>= λ zone.
            at_location (date_in date clock) (timezone_to_location fixed_zone zones zone.0 zone.1))
        else ok (date_in date clock time_location)
