-- ===== src/Output.antt =====
-- statement.go: `outputBoundParameters`, which reads the buffers of the binds into the destinations
-- of `sql.Out` after a statement has been executed. A read past the end of a block of C memory,
-- which Go does not notice, is `panic` here.
pub mod Echo
pub mod Null
use go_oci.Prelude.{
  ℕ, zero, suc, ◌-◌, ◌%◌, ◌^◌, Bool, true, false, not, Option, none, some, List, [], ◌∷◌, ◌++◌,
  Bytes, length, take, replicate, ltb, leb, ◌==◌, if◌then◌else◌, Outcome, ok, fail, panic, ◌>>=◌,
  map_fail,
}
use go_oci.Prelude.Int.{ℤ, pos, negsuc, signed, residue}
use go_oci.Oci.{Sword, Sqlt}
use go_oci.Column.Fetch.{little_endian}

-- The types of `Dest` in the type switch; `int` and `uint` have 64 bits, as has `uintptr`.
pub data Dest : Type 0 where
  string_dest null_string_dest : Dest
  int_dest uint_dest : ℕ → Dest
  null_int64_dest float64_dest float32_dest null_float64_dest : Dest
  bool_dest null_bool_dest bytes_dest other_dest : Dest

-- What is written to a destination; floats are their bits, a byte slice may be nil, and the flag is
-- `Valid`.
pub data Written : Type 0 where
  unchanged : Written
  string : Bytes → Written
  null_string : Bytes → Bool → Written
  int : ℤ → Written
  uint : ℕ → Written
  null_int64 : ℤ → Bool → Written
  float64 : ℕ → Written
  float32_of : ℕ → Written
  null_float64 : ℕ → Bool → Written
  bool : Bool → Written
  null_bool : Bool → Bool → Written
  bytes : Option Bytes → Written

pub data OutputError : Type 0 where
  negative_spaces : OutputError
  unknown_indicator : ℤ → OutputError
  oci_error : Sword → OutputError

-- A bind after the execution, as numbers that `c_cell` narrows to their types: whether `pbuf` is not nil, its type, what OCI has left in the
-- indicator, in the length and in the block, and the result of `ociLobRead` for it.
pub record Cell : Type 0 where
  pub has_buffer : Bool
  pub data_type : Sqlt
  pub indicator : ℤ
  pub length : ℕ
  pub memory : Bytes
  pub lob_read : Outcome Sword Bytes

-- `C.GoStringN` and `C.GoBytes`
abbrev pub go_bytes : ℕ → Bytes → Outcome OutputError Bytes
go_bytes n memory = if ltb (length memory) n then panic else ok (take n memory)

-- The eight bytes of a number.
abbrev pub get_uint64 : Bytes → Outcome OutputError ℕ
get_uint64 memory = go_bytes 8 memory >>= λ b. ok (little_endian b)

-- The lowest `w` bits of a number, as an integer with a sign.
abbrev pub to_int : ℕ → ℕ → ℤ
to_int w n = signed (2 ^ (w - 1)) (n % 2 ^ w)

abbrev pub is_clob : Sqlt → Bool
is_clob Sqlt.clob = true
is_clob _ = false

abbrev pub is_blob : Sqlt → Bool
is_blob Sqlt.blob = true
is_blob _ = false

-- A text that was truncated, with a space for each byte that is missing.
abbrev pub padded : ℕ → Cell → Outcome OutputError Bytes
padded n c =
    let text = go_bytes c.length c.memory >>= λ b. ok (b ++ replicate (n - c.length) b' ') in
    if ltb n c.length then fail negative_spaces else text

-- `case *string`, by the indicator.
unfoldable pub read_string : ℤ → Cell → Outcome OutputError Bytes
read_string (pos zero) c =
    if is_clob c.data_type then map_fail oci_error c.lob_read else go_bytes c.length c.memory
read_string (pos (suc n)) c = padded (suc n) c
read_string (negsuc zero) c = ok []
read_string (negsuc (suc zero)) c = go_bytes c.length c.memory
read_string i c = fail (unknown_indicator i)

-- `case *sql.NullString`, which knows of no large objects.
unfoldable pub read_null_string : ℤ → Cell → Outcome OutputError Written
read_null_string (pos zero) c = go_bytes c.length c.memory >>= λ b. ok (null_string b true)
read_null_string (pos (suc n)) c = padded (suc n) c >>= λ b. ok (null_string b true)
read_null_string (negsuc zero) c = ok (null_string [] false)
read_null_string (negsuc (suc zero)) c = go_bytes c.length c.memory >>= λ b. ok (null_string b true)
read_null_string i c = fail (unknown_indicator i)

-- `case *[]byte`, which reads as many bytes as the value had before the truncation.
unfoldable pub read_slice : ℤ → Cell → Outcome OutputError (Option Bytes)
read_slice (pos zero) c =
    (if is_blob c.data_type then map_fail oci_error c.lob_read else go_bytes c.length c.memory)
    >>= λ b. ok (some b)
read_slice (pos (suc n)) c =
    if ltb (suc n) c.length
    then fail negative_spaces
    else go_bytes (suc n) c.memory >>= λ b. ok (some b)
read_slice (negsuc zero) c = ok none
read_slice (negsuc (suc zero)) c = go_bytes c.length c.memory >>= λ b. ok (some b)
read_slice i c = fail (unknown_indicator i)

-- `*bind.indicator == -1`
abbrev pub is_null : ℤ → Bool
is_null (negsuc zero) = true
is_null _ = false

-- The first byte.
abbrev pub read_bool : Bytes → Outcome OutputError Bool
read_bool [] = panic
read_bool (b ∷ s) = ok (not (b == 0))

-- The type switch.
unfoldable pub read_dest : Dest → Cell → Outcome OutputError Written
unfolding read_string read_null_string read_slice signed
read_dest string_dest c = read_string c.indicator c >>= λ b. ok (string b)
read_dest null_string_dest c = read_null_string c.indicator c
read_dest (int_dest w) c = get_uint64 c.memory >>= λ n. ok (int (to_int w n))
read_dest (uint_dest w) c = get_uint64 c.memory >>= λ n. ok (uint (n % 2 ^ w))
read_dest null_int64_dest c =
    let value = get_uint64 c.memory >>= λ n. ok (null_int64 (to_int 64 n) true) in
    if is_null c.indicator then ok (null_int64 (pos 0) false) else value
read_dest float64_dest c = get_uint64 c.memory >>= λ n. ok (float64 n)
read_dest float32_dest c = get_uint64 c.memory >>= λ n. ok (float32_of n)
read_dest null_float64_dest c =
    let value = get_uint64 c.memory >>= λ n. ok (null_float64 n true) in
    if is_null c.indicator then ok (null_float64 0 false) else value
read_dest bool_dest c = read_bool c.memory >>= λ b. ok (bool b)
read_dest null_bool_dest c =
    let value = read_bool c.memory >>= λ b. ok (null_bool b true) in
    if is_null c.indicator then ok (null_bool false false) else value
read_dest bytes_dest c = read_slice c.indicator c >>= λ b. ok (bytes b)
read_dest other_dest c = ok unchanged

-- The cell that the source's types can hold: the indicator is an `sb2`, the length a `ub2`.
abbrev pub c_cell : Cell → Cell
c_cell c = record c {
  indicator = signed (2 ^ 15) (residue (2 ^ 16) c.indicator);
  length = c.length % 2 ^ 16;
}

-- The loop: what is written to each destination; a bind with no buffer is passed over.
unfoldable pub output_bound_parameters : List (Dest × Cell) → Outcome OutputError (List Written)
unfolding read_dest signed residue
output_bound_parameters [] = ok []
output_bound_parameters ((d, c) ∷ rest) = do
  w ← if c.has_buffer then read_dest d (c_cell c) else ok unchanged
  ws ← output_bound_parameters rest
  ok (w ∷ ws)
