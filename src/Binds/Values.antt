-- ===== src/Binds/Values.antt =====
-- statement.go: the values that a statement is given, and what the type switch of `bindValues` makes
-- of each of them.
use go_oci.Prelude.{
  ℕ, zero, suc, ◌+◌, ◌/◌, ◌%◌, ◌^◌, Bool, true, false, not, ◌&&◌, Option, none, some, [], ◌∷◌,
  Bytes, length, ltb, if◌then◌else◌,
}
use go_oci.Prelude.Int.{ℤ, pos, negsuc, residue}
use go_oci.Oci.{Sword, Sqlt, Descriptor}
use go_oci.Column.{Allocation, malloc, descriptor_alloc}

-- Go's values by type: the numbers of fixed size with their size in bytes, a float with its bits. The
-- sizes of `int`, `uint` and `uintptr` are not fixed. The text of any other value is what `Sprintf`
-- makes of it.
pub data GoValue : Type 0 where
  nil_value : GoValue
  bytes : Bytes → GoValue
  time : GoValue
  string : Bytes → GoValue
  integer : Option ℕ → ℤ → GoValue
  float : ℕ → ℕ → GoValue
  bool : Bool → GoValue
  other : Bytes → GoValue

-- What `Dest` of a `sql.Out` points to, as far as a nil value goes.
pub data Dest : Type 0 where
  null_bool null_float64 null_int64 null_string other_dest : Dest

-- A value, or a `sql.Out` with its `In` and what `ConvertValue` makes of its `Dest`, `none` for an
-- error.
pub data Argument : Type 0 where
  plain : GoValue → Argument
  out : Dest → Bool → Option GoValue → Argument

-- What the type switch goes by: a value, whether it is of a `sql.Out`, whether that is an input, and
-- whether it was nil. A `Dest` that is nil itself is of no type that the switch knows.
pub record Input : Type 0 where
  pub value : GoValue
  pub is_out : Bool
  pub is_in : Bool
  pub is_nil : Bool

abbrev pub zero_of : Dest → GoValue
zero_of null_bool = bool false
zero_of null_float64 = float 8 0
zero_of null_int64 = integer (some 8) (pos 0)
zero_of null_string = string []
zero_of other_dest = other []

abbrev pub converted : Dest → Bool → GoValue → Input
converted d i nil_value = record { value = zero_of d; is_out = true; is_in = i; is_nil = true }
converted d i v = record { value = v; is_out = true; is_in = i; is_nil = false }

-- The type assertion on `sql.Out` and what follows it.
unfoldable pub input_of : Argument → Option Input
input_of (plain v) = some (record { value = v; is_out = false; is_in = false; is_nil = false })
input_of (out d i none) = none
input_of (out d i (some v)) = some (converted d i v)

pub data BindError : Type 0 where
  context_error convert_error write_error : BindError
  oci_error : Sword → BindError

-- A `bindStruct`: the buffer with the bytes that are put into it, and the numbers that OCI is given.
pub record Bind : Type 0 where
  pub data_type : Sqlt
  pub pbuf : Option Allocation
  pub content : Bytes
  pub max_size : ℕ
  pub length : ℕ
  pub indicator : ℤ

-- What the calls for one value return.
pub record Script : Type 0 where
  pub context_done : Bool
  pub argument : Argument
  pub lob_alloc : Sword
  pub lob_create : Sword
  pub lob_write : Sword
  pub time_alloc : Sword
  pub time_construct : Sword
  pub bind : Sword

abbrev pub is_success : Sword → Bool
is_success Sword.success = true
is_success _ = false

-- How the type switch ends: with a bind, or with an error that leaves what was allocated for the
-- buffer.
pub data Prepared : Type 0 where
  prepared : Bind → Prepared
  broken : BindError → Option Allocation → Prepared

abbrev pub minus_one : ℤ
minus_one = negsuc 0

-- `sbind.pbuf = nil`, set to null.
abbrev pub null_bind : Bind
null_bind = record {
  data_type = Sqlt.afc;
  pbuf = none;
  content = [];
  max_size = 0;
  length = 0;
  indicator = minus_one;
}

abbrev pub lob_bind : Sqlt → Bytes → Bind
lob_bind t b = record {
  data_type = t;
  pbuf = some (descriptor_alloc Descriptor.lob);
  content = b;
  max_size = 8;
  length = 8;
  indicator = pos 0;
}

-- More than 32767 bytes: a temporary large object.
abbrev pub prepare_lob : Sqlt → Bytes → Script → Prepared
prepare_lob t b s =
    if not (is_success s.lob_alloc)
    then broken (oci_error s.lob_alloc) none
    else if not (is_success s.lob_create)
    then broken (oci_error s.lob_create) (some (descriptor_alloc Descriptor.lob))
    else if not (is_success s.lob_write)
    then broken (oci_error s.lob_write) (some (descriptor_alloc Descriptor.lob))
    else prepared (lob_bind t b)

-- A block of 32768 bytes for a `sql.Out`.
abbrev pub out_bind : Sqlt → Bytes → Bool → Bind
out_bind t b given = record {
  data_type = t;
  pbuf = some (malloc 32768);
  content = b;
  max_size = 32767;
  length = if given then length b % 2 ^ 16 else 0;
  indicator = if given then pos 0 else minus_one;
}

-- A block of its own size for a value that only goes in.
abbrev pub in_bind : Sqlt → ℕ → Bytes → Bind
in_bind t size b = record {
  data_type = t;
  pbuf = some (malloc size);
  content = b;
  max_size = length b % 2 ^ 32;
  length = length b % 2 ^ 16;
  indicator = pos 0;
}

-- `case []byte` and `case string`; the sizes of the blocks are those of `cByte` and `C.CString`.
abbrev pub prepare_bytes : Input → Script → Bytes → Prepared
prepare_bytes i s b =
    if ltb 32767 (length b)
    then prepare_lob Sqlt.blob b s
    else prepared (
        if i.is_out
        then out_bind Sqlt.bin b (i.is_in && not i.is_nil)
        else in_bind Sqlt.bin (length b) b)

abbrev pub prepare_string : Input → Script → Bytes → Prepared
prepare_string i s b =
    if ltb 32767 (length b)
    then prepare_lob Sqlt.clob b s
    else prepared (
        if i.is_out
        then out_bind Sqlt.chr b (i.is_in && not i.is_nil)
        else in_bind Sqlt.afc (length b + 1) b)

-- `case time.Time`: `timeToOCIDateTime` allocates a descriptor and fills it.
abbrev pub prepare_time : Script → Prepared
prepare_time s =
    if not (is_success s.time_alloc)
    then broken (oci_error s.time_alloc) none
    else if not (is_success s.time_construct)
    then broken (oci_error s.time_construct) (some (descriptor_alloc Descriptor.timestamp_tz))
    else prepared (record {
      data_type = Sqlt.timestamp_tz;
      pbuf = some (descriptor_alloc Descriptor.timestamp_tz);
      content = [];
      max_size = 8;
      length = 8;
      indicator = pos 0;
    })

-- `binary.Write` in little endian: the lowest bytes of a number.
abbrev pub le_bytes : ℕ → ℕ → Bytes
le_bytes zero n = []
le_bytes (suc k) n = n % 256 ∷ le_bytes k (n / 256)

-- A number in a block of its size.
abbrev pub number_bind : Input → Sqlt → Bytes → Bind
number_bind i t b = record (in_bind t (length b) b) {
  indicator = if i.is_out && i.is_in && i.is_nil then minus_one else pos 0;
}

-- The type switch.
unfoldable pub prepare : Input → Script → GoValue → Prepared
unfolding residue
prepare i s nil_value = prepared null_bind
prepare i s (bytes b) = prepare_bytes i s b
prepare i s time = prepare_time s
prepare i s (string b) = prepare_string i s b
prepare i s (integer none n) = broken write_error none
prepare i s (integer (some k) n) =
    prepared (number_bind i Sqlt.int (le_bytes k (residue (256 ^ k) n)))
prepare i s (float k n) = prepared (number_bind i Sqlt.bdouble (le_bytes k n))
prepare i s (bool true) = prepared (number_bind i Sqlt.int (1 ∷ []))
prepare i s (bool false) = prepared (number_bind i Sqlt.int (0 ∷ []))
prepare i s (other b) = prepared (if i.is_out then null_bind else in_bind Sqlt.afc (length b + 1) b)
