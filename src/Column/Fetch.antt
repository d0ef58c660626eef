-- ===== src/Column/Fetch.antt =====
-- rows.go: the body of `Rows.Next` for one column, and the loop over the columns. What the OCI
-- calls for a column return is part of the cell; a date is the arguments of Go's `time.Date`.
use go_oci.Prelude.{
  ℕ, ◌+◌, ◌*◌, Bool, List, [], ◌∷◌, Bytes, length, ◌==◌, ltb, if◌then◌else◌, Outcome, ok, fail,
  panic, ◌>>=◌, map_fail, ◌^◌,
}
use go_oci.Prelude.Int.{ℤ, pos, ◌+ℤ◌, ◌*ℤ◌, sub_ℕ, signed, wrap64, is_zero, is_negsuc}
use go_oci.Oci.{Sword, Sqlt}
use go_oci.Column.{Define}

-- The arguments of `time.Date` but for the location, which is the connection's.
pub record Date : Type 0 where
  pub year : ℤ
  pub month : ℤ
  pub day : ℤ
  pub hour : ℤ
  pub minute : ℤ
  pub second : ℤ

pub data RowError : Type 0 where
  unknown_indicator : ℤ → RowError
  unhandled_column : Sqlt → RowError
  -- the error of `binary.Read` on fewer than eight bytes
  short_read : RowError
  -- the error of an OCI call
  oci_error : Sword → RowError

-- A value of the row; a float is its bit pattern.
pub data Value (Time : Type 0) : Type 0 where
  null : Value Time
  text : Bytes → Value Time
  bytes : Bytes → Value Time
  integer : ℤ → Value Time
  double : ℕ → Value Time
  date : Date → Value Time
  time_value : Time → Value Time
  sub_rows : Value Time

-- What OCI has put into the buffers of a define, and what its functions return for them: the bytes
-- up to the length, the indicator, the results of `ociLobRead` and `ociDateTimeToTime`, the parts of
-- an interval with the result of the call that reads them, and the result of `makeDefines` for a
-- cursor.
pub record Cell (Time : Type 0) : Type 0 where
  pub indicator : ℤ
  pub buffer : Bytes
  pub lob_read : Outcome Sword Bytes
  pub to_time : Outcome Sword Time
  pub interval_result : Sword
  pub days : ℤ
  pub hours : ℤ
  pub minutes : ℤ
  pub seconds : ℤ
  pub frac_seconds : ℤ
  pub years : ℤ
  pub months : ℤ
  pub sub_defines : Outcome Sword (List Define)

-- `(*[n]byte)(pbuf)[0:length]`
abbrev slice_to : ℕ → Bytes → Outcome RowError Bytes
slice_to n b = if ltb n (length b) then panic else ok b

-- The number that bytes spell, the least significant first.
abbrev pub little_endian : Bytes → ℕ
little_endian [] = 0
little_endian (b ∷ s) = b + 256 * little_endian s

-- `binary.Read` of eight bytes.
abbrev pub read8 : Bytes → Outcome RowError ℕ
read8 b = if length b == 8 then ok (little_endian b) else fail short_read

-- A year in excess-100 notation and so on; reading past the end of the slice is a panic.
from_dat : Bytes → Outcome RowError Date
from_dat (c ∷ y ∷ mo ∷ d ∷ h ∷ mi ∷ s ∷ rest) = ok (record {
  year = sub_ℕ c 100 *ℤ pos 100 +ℤ sub_ℕ y 100;
  month = pos mo;
  day = pos d;
  hour = sub_ℕ h 1;
  minute = sub_ℕ mi 1;
  second = sub_ℕ s 1;
})
from_dat _ = panic

-- `int64(days) * 24 * int64(time.Hour)` and so on: nanoseconds, each operation on `int64`.
abbrev pub times64 : ℤ → ℕ → ℤ
times64 a n = wrap64 (a *ℤ pos n)

abbrev pub plus64 : ℤ → ℤ → ℤ
plus64 a b = wrap64 (a +ℤ b)

-- How `Next` ends: rows that are closed, a context that is done, no row left, or a row.
pub data Fetched (Time : Type 0) : Type 0 where
  rows_closed : Fetched Time
  context_done : Fetched Time
  end_of_rows : Fetched Time
  fetch_error : Sword → Fetched Time
  row : Outcome RowError (List (Value Time)) → Fetched Time

module _ {Time : Type 0} where
  unfoldable pub nanoseconds : Cell Time → ℤ
  unfolding wrap64 ◌*ℤ◌ ◌+ℤ◌
  nanoseconds c =
      plus64
        (plus64
          (plus64
            (plus64 (times64 (times64 c.days 24) 3_600_000_000_000)
              (times64 c.hours 3_600_000_000_000))
            (times64 c.minutes 60_000_000_000))
          (times64 c.seconds 1_000_000_000))
        c.frac_seconds

  unfoldable pub month_count : Cell Time → ℤ
  unfolding wrap64 ◌*ℤ◌ ◌+ℤ◌
  month_count c = plus64 (times64 c.years 12) c.months

  -- `if result != C.OCI_SUCCESS { return getError(result) }`
  abbrev pub if_success : Sword → Value Time → Outcome RowError (Value Time)
  if_success Sword.success v = ok v
  if_success r v = fail (oci_error r)

  -- The switch on the type of the column.
  unfoldable pub switch_value : Sqlt → Cell Time → Outcome RowError (Value Time)
  unfolding from_dat signed
  switch_value Sqlt.dat c = from_dat c.buffer >>= λ d. ok (date d)
  switch_value Sqlt.blob c = map_fail oci_error c.lob_read >>= λ b. ok (bytes b)
  switch_value Sqlt.clob c = map_fail oci_error c.lob_read >>= λ b. ok (text b)
  switch_value Sqlt.chr c = ok (text c.buffer)
  switch_value Sqlt.str c = ok (text c.buffer)
  switch_value Sqlt.afc c = ok (text c.buffer)
  switch_value Sqlt.avc c = ok (text c.buffer)
  switch_value Sqlt.lng c = ok (text c.buffer)
  switch_value Sqlt.bin c = ok (bytes c.buffer)
  switch_value Sqlt.num c = slice_to 21 c.buffer >>= λ b. ok (bytes b)
  switch_value Sqlt.vnu c = slice_to 22 c.buffer >>= λ b. ok (bytes b)
  switch_value Sqlt.int c = do
    b ← slice_to 8 c.buffer
    n ← read8 b
    ok (integer (signed (2 ^ 63) n))
  switch_value Sqlt.bdouble c = do b ← slice_to 8 c.buffer; n ← read8 b; ok (double n)
  switch_value Sqlt.timestamp c = map_fail oci_error c.to_time >>= λ t. ok (time_value t)
  switch_value Sqlt.timestamp_tz c = map_fail oci_error c.to_time >>= λ t. ok (time_value t)
  switch_value Sqlt.timestamp_ltz c = map_fail oci_error c.to_time >>= λ t. ok (time_value t)
  switch_value Sqlt.interval_ds c = if_success c.interval_result (integer (nanoseconds c))
  switch_value Sqlt.interval_ym c = if_success c.interval_result (integer (month_count c))
  switch_value Sqlt.rset c = map_fail oci_error c.sub_defines >>= λ ds. ok sub_rows
  switch_value t c = fail (unhandled_column t)

  -- The body of the loop: the indicator, then the switch.
  unfoldable pub column_value : Sqlt → Cell Time → Outcome RowError (Value Time)
  unfolding switch_value
  column_value t c =
      if is_negsuc 0 c.indicator
      then ok null
      else if is_zero c.indicator
      then switch_value t c
      else fail (unknown_indicator c.indicator)

  -- The loop over the columns of a row.
  unfoldable pub row_values : List Define → List (Cell Time) → Outcome RowError (List (Value Time))
  row_values (d ∷ ds) (c ∷ cs) = do
    v ← column_value d.data_type c
    vs ← row_values ds cs
    ok (v ∷ vs)
  row_values _ _ = ok []

  -- What the result of `OCIStmtFetch2` leads to.
  unfoldable pub after_fetch : Sword → List Define → List (Cell Time) → Fetched Time
  after_fetch Sword.no_data ds cs = end_of_rows
  after_fetch Sword.success ds cs = row (row_values ds cs)
  after_fetch Sword.success_with_info ds cs = row (row_values ds cs)
  after_fetch r ds cs = fetch_error r

  -- `Rows.Next`, given whether the rows are closed, whether the context is done, and what
  -- `OCIStmtFetch2` returns.
  unfoldable pub next : Bool → Bool → Sword → List Define → List (Cell Time) → Fetched Time
  unfolding after_fetch
  next closed done r ds cs =
      if closed then rows_closed else if done then context_done else after_fetch r ds cs
