-- ===== src/Tests/Oracle.antt =====
-- Inputs for columns, large objects, errors and transactions.
use go_oci.Prelude.{
  ℕ, ◌≡◌, ◌≢◌, ◌↔◌, inl, inr, refl, subst, ◌≤◌, Bool-cases, [], ◌∷◌, ◌++◌, Bytes, codes, length,
  replicate, ok, fail, ◌<◌, ◌==◌, if◌then◌else◌, arith,
}
use go_oci.Prelude.Int.{pos, negsuc, wrap64, signed, residue, ◌+ℤ◌, ◌*ℤ◌}
use go_oci.Oci.{Sword, Sqlt}
use go_oci.Column.{ColumnInfo, define_column, scan_type}
use go_oci.Column.Intervals.{span, months_span, column_value-interval}
use go_oci.Column.Fetch.{Cell, column_value, integer, nanoseconds}
use go_oci.Column.Types.{Fits, define_column-Fits}
use go_oci.Lob.{lob_write, lob_read, Reply, first_piece, next_piece, asks_for, out_of_fuel, end_of}
use go_oci.Lob.Write.{IsWritten, lob_write-Delivers}
use go_oci.Lob.Order.{InOrder, lob_write-InOrder, lob_write-returns}
use go_oci.Lob.Read.{received, final, lob_read-received}
use go_oci.Conn.{Diagnostic, c_text, get_error, bad_conn}
use go_oci.Conn.Errors.{IsLost, get_error-bad_conn}

abbrev number_column : ColumnInfo
number_column = record {
  name = codes "N";
  data_type = Sqlt.num;
  max_size = 22;
  precision = pos 10;
  scale = pos 0;
}

abbrev cell : Cell ℕ
cell = record {
  indicator = pos 0;
  buffer = 255 ∷ 255 ∷ 255 ∷ 255 ∷ 255 ∷ 255 ∷ 255 ∷ 255 ∷ [];
  lob_read = ok [];
  to_time = ok 0;
  interval_result = Sword.success;
  days = pos 0;
  hours = pos 0;
  minutes = pos 0;
  seconds = pos 0;
  frac_seconds = pos 0;
  years = pos 0;
  months = pos 0;
  sub_defines = ok [];
}

define_column-Fits_example :
    Fits
      (scan_type (define_column number_column).data_type)
      (column_value (define_column number_column).data_type cell)
define_column-Fits_example = define_column-Fits number_column cell

-- Three days and four hours behind, or eleven years and a month ahead.
abbrev interval : Cell ℕ
interval = record cell {
  days = negsuc 2;
  hours = negsuc 3;
  seconds = negsuc 58;
  frac_seconds = negsuc 999_999_998;
  years = pos 11;
  months = pos 1;
}

column_value-interval_example :
    (column_value Sqlt.interval_ds interval ≡ ok (integer (span interval)))
    × (column_value Sqlt.interval_ym interval ≡ ok (integer (months_span interval)))
column_value-interval_example =
    column_value-interval interval refl
      (record {
        days = omega arith;
        hours = omega arith;
        minutes = omega arith;
        seconds = omega arith;
        frac_seconds = omega arith;
      })
      (record { years = omega arith; months = omega arith })

-- A hundred more days than fit come out as a negative number of nanoseconds.
nanoseconds-interval :
    nanoseconds (record cell { days = pos 106_850 }) ≡ negsuc 9_214_904_073_709_551_615
unfolding nanoseconds wrap64 signed residue ◌+ℤ◌ ◌*ℤ◌
nanoseconds-interval = refl

abbrev five : Bytes
five = codes "hello"

abbrev stale : Bytes
stale = 7 ∷ 7 ∷ []

lob_write-Delivers_example : IsWritten five (lob_write 2 (λ i. (Sword.need_data, i)) 6 stale five)
lob_write-Delivers_example =
    lob_write-Delivers 2 (λ i. (Sword.need_data, i)) stale five (λ i. refl) (omega arith) refl

lob_write-InOrder_example : InOrder (lob_write 2 (λ i. (Sword.need_data, i)) 6 stale five).0
lob_write-InOrder_example =
    lob_write-InOrder 2 (λ i. (Sword.need_data, i)) stale five (λ i. refl) (omega arith)

lob_write-returns_example : (lob_write 2 (λ i. (Sword.oci_error, i)) 6 stale five).1 ≢ out_of_fuel
lob_write-returns_example = lob_write-returns 2 (λ i. (Sword.oci_error, i)) stale five (omega arith)

abbrev two_pieces : ℕ → Reply
two_pieces i =
    if i == 0
    then record { result = Sword.need_data; count = 2; content = codes "he" }
    else record { result = Sword.success; count = 1; content = codes "yo" }

two_pieces_fit : (i : ℕ) → (two_pieces i).count ≤ length (two_pieces i).content
two_pieces_fit i = elim (Bool-cases (i == 0)) [
  | inl h ↦ rw h (omega arith)
  | inr h ↦ rw h (omega arith)
]

two_pieces_more : (k : ℕ) → k < 1 → (two_pieces k).result ≡ Sword.need_data
two_pieces_more k h =
    subst (λ k. (two_pieces k).result ≡ Sword.need_data) (zero_is k (omega (arith, h))) refl
  where
    zero_is : (k : ℕ) → k ≡ 0 → 0 ≡ k
    zero_is k h = omega (arith, h)

lob_read-received_example : lob_read two_pieces Sword.success 2 ≡ (
  asks_for first_piece ∷ replicate 1 (asks_for next_piece),
  received two_pieces 0 1 ++ final two_pieces (two_pieces 1),
  end_of (two_pieces 1).result,
)
lob_read-received_example = lob_read-received two_pieces 1 two_pieces_fit two_pieces_more refl

abbrev killed : Diagnostic
killed = record { result = Sword.success; code = pos 28; text = codes "ORA-00028" ++ 0 ∷ [] }

get_error-bad_conn_example :
    (get_error Sword.oci_error killed ≡ fail bad_conn)
    ↔ ((Sword.oci_error ≡ Sword.oci_error) × IsLost killed)
unfolding c_text
get_error-bad_conn_example = get_error-bad_conn Sword.oci_error killed (codes "ORA-00028") refl
