-- ===== src/Column/Types.antt =====
-- What `Rows.Next` returns for the columns that `makeDefines` defines.
use go_oci.Prelude.{
  ℕ, Bool, true, false, Bytes, length, if◌then◌else◌, ◌==◌, ◌^◌, ◌≡◌, ◌≢◌, ◌⊎◌, inl, inr, refl, sym,
  subst, List, Outcome, ok, fail, panic, ◌>>=◌, map_fail, arith,
}
use go_oci.Prelude.Int.{ℤ, signed, is_negsuc, is_zero}
use go_oci.Oci.{Sword, Sqlt}
use go_oci.Column.{
  ColumnInfo, Define, number_type, define_as, define_column, GoType, nil, string, slice_byte, int64,
  float64, time, scan_type,
}
use go_oci.Column.Fetch.{
  RowError, unhandled_column, oci_error, short_read, unknown_indicator, Value, null, text, bytes,
  integer, double, date, time_value, sub_rows, Cell, switch_value, column_value, read8,
  little_endian, if_success, nanoseconds, month_count,
}

-- The Go type of a value.
abbrev pub type_of : {Time : Type 0} → Value Time → GoType
type_of null = nil
type_of (text s) = string
type_of (bytes s) = slice_byte
type_of (integer n) = int64
type_of (double n) = float64
type_of (date d) = time
type_of (time_value t) = time
type_of sub_rows = nil

-- The types that `makeDefines` gives to columns.
data IsDefined : Sqlt → Type 0 where
  afc : IsDefined Sqlt.afc
  bin : IsDefined Sqlt.bin
  int : IsDefined Sqlt.int
  bdouble : IsDefined Sqlt.bdouble
  lng : IsDefined Sqlt.lng
  clob : IsDefined Sqlt.clob
  blob : IsDefined Sqlt.blob
  timestamp : IsDefined Sqlt.timestamp
  timestamp_tz : IsDefined Sqlt.timestamp_tz
  interval_ds : IsDefined Sqlt.interval_ds
  interval_ym : IsDefined Sqlt.interval_ym
  rset : IsDefined Sqlt.rset

number_type_cases : (p s : ℤ) → (number_type p s ≡ Sqlt.bdouble) ⊎ (number_type p s ≡ Sqlt.int)
unfolding number_type
number_type_cases p s = ground arith

number_type-IsDefined : (p s : ℤ) → IsDefined (number_type p s)
number_type-IsDefined p s = elim (number_type_cases p s) [
  | inl h ↦ subst IsDefined (sym h) bdouble
  | inr h ↦ subst IsDefined (sym h) int
]

define_as-IsDefined : (t : Sqlt) (c : ColumnInfo) → IsDefined (define_as t c).data_type
unfolding define_as
define_as-IsDefined Sqlt.bin c = bin
define_as-IsDefined Sqlt.num c = number_type-IsDefined c.precision c.scale
define_as-IsDefined Sqlt.int c = int
define_as-IsDefined Sqlt.bdouble c = bdouble
define_as-IsDefined Sqlt.ibdouble c = bdouble
define_as-IsDefined Sqlt.bfloat c = bdouble
define_as-IsDefined Sqlt.ibfloat c = bdouble
define_as-IsDefined Sqlt.lng c = lng
define_as-IsDefined Sqlt.clob c = clob
define_as-IsDefined Sqlt.blob c = blob
define_as-IsDefined Sqlt.timestamp c = timestamp
define_as-IsDefined Sqlt.dat c = timestamp
define_as-IsDefined Sqlt.timestamp_tz c = timestamp_tz
define_as-IsDefined Sqlt.timestamp_ltz c = timestamp_tz
define_as-IsDefined Sqlt.interval_ds c = interval_ds
define_as-IsDefined Sqlt.interval_ym c = interval_ym
define_as-IsDefined Sqlt.rset c = rset
define_as-IsDefined _ c = afc

-- What may come out of a column: a value of the type that is announced, any value where no type
-- is announced, a panic, or an error that is not that the column's type is not handled.
pub data Fits {Time : Type 0} : GoType → Outcome RowError (Value Time) → Type 0 where
  null_value : {t : GoType} → Fits t (ok null)
  typed : {t : GoType} {v : Value Time} → type_of v ≡ t → Fits t (ok v)
  unannounced : {v : Value Time} → Fits nil (ok v)
  panicked : {t : GoType} → Fits t panic
  failed : {t : GoType} {e : RowError} → ((s : Sqlt) → e ≢ unhandled_column s) → Fits t (fail e)

module _ {Time : Type 0} where
  Fits-bind :
      {A : Type 0} (t : GoType) (m : Outcome Sword A) (f : A → Value Time)
      → ((a : A) → type_of (f a) ≡ t)
      → Fits t (map_fail oci_error m >>= λ a. ok (f a))
  Fits-bind t (ok a) f h = typed (h a)
  Fits-bind t (fail e) f h = failed (λ s. cc)
  Fits-bind t panic f h = panicked

  read8-Fits :
      (t : GoType) (x y : Bool) (s : Bytes) (n : ℕ) (f : ℕ → Value Time)
      → ((n : ℕ) → type_of (f n) ≡ t)
      → Fits t (
          (if x then panic else ok s) >>= λ b.
          (if y then ok n else fail short_read) >>= λ n. ok (f n))
  read8-Fits t true y s n f h = panicked
  read8-Fits t false true s n f h = typed (h n)
  read8-Fits t false false s n f h = failed (λ s. cc)

  slice_to-read8-Fits :
      (t : GoType) (x : Bool) (s : Bytes) (f : ℕ → Value Time)
      → ((n : ℕ) → type_of (f n) ≡ t)
      → Fits t ((if x then panic else ok s) >>= λ b. read8 b >>= λ n. ok (f n))
  slice_to-read8-Fits t true s f h = panicked
  slice_to-read8-Fits t false s f h = read8-Fits t false (length s == 8) s (little_endian s) f h

  if_success-Fits : (r : Sword) (v : Value Time) → Fits (type_of v) (if_success r v)
  if_success-Fits Sword.success v = typed refl
  if_success-Fits _ v = failed (λ s. cc)

  sub_defines-Fits :
      (m : Outcome Sword (List Define))
      → Fits {Time = Time} nil (map_fail oci_error m >>= λ ds. ok sub_rows)
  sub_defines-Fits m = Fits-bind nil m (λ ds. sub_rows) (λ ds. refl)

  switch_value-Fits :
      (t : Sqlt) → IsDefined t → (c : Cell Time) → Fits (scan_type t) (switch_value t c)
  unfolding switch_value scan_type
  switch_value-Fits t afc c = typed refl
  switch_value-Fits t bin c = typed refl
  switch_value-Fits t int c =
      slice_to-read8-Fits int64 _ c.buffer (λ n. integer (signed (2 ^ 63) n)) (λ n. refl)
  switch_value-Fits t bdouble c = slice_to-read8-Fits float64 _ c.buffer double (λ n. refl)
  switch_value-Fits t lng c = unannounced
  switch_value-Fits t clob c = Fits-bind string c.lob_read _ (λ a. refl)
  switch_value-Fits t blob c = Fits-bind slice_byte c.lob_read _ (λ a. refl)
  switch_value-Fits t timestamp c = Fits-bind time c.to_time _ (λ a. refl)
  switch_value-Fits t timestamp_tz c = Fits-bind time c.to_time _ (λ a. refl)
  switch_value-Fits t interval_ds c = if_success-Fits c.interval_result (integer (nanoseconds c))
  switch_value-Fits t interval_ym c = if_success-Fits c.interval_result (integer (month_count c))
  switch_value-Fits t rset c = sub_defines-Fits c.sub_defines

  column_value-unfold :
      (t : GoType) (x y : Bool) (m : Outcome RowError (Value Time)) (i : ℤ)
      → Fits t m
      → Fits t (if x then ok null else if y then m else fail (unknown_indicator i))
  column_value-unfold t true y m i h = null_value
  column_value-unfold t false true m i h = h
  column_value-unfold t false false m i h = failed (λ s. cc)

  -- `Rows.Next` handles the type of every column that `makeDefines` defines, and a value that is
  -- not null has the Go type that `ColumnTypeScanType` gives for the column, unless that type is
  -- the one of `nil`.
  pub define_column-Fits :
      (info : ColumnInfo) (c : Cell Time)
      → Fits
          (scan_type (define_column info).data_type)
          (column_value (define_column info).data_type c)
  unfolding define_column column_value
  define_column-Fits info c =
      column_value-unfold _ (is_negsuc 0 c.indicator) (is_zero c.indicator) _ c.indicator
        (switch_value-Fits _ (define_as-IsDefined info.data_type info) c)
