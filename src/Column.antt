-- ===== src/Column.antt =====
-- The life of a column: how statement.go's `makeDefines` defines it, how c_helpers.go's
-- `freeBuffer` frees its buffer, and what rows.go says of its type.
pub mod Buffers
pub mod Fetch
pub mod Intervals
pub mod Types
use go_oci.Prelude.{
  ℕ, suc, ◌*◌, ◌/◌, ◌%◌, ◌^◌, Bool, true, false, ◌&&◌, ◌||◌, Option, none, some, List, [], ◌∷◌,
  Bytes, codes, get_elem?, if◌then◌else◌,
}
use go_oci.Prelude.Int.{ℤ, pos, negsuc, sub_ℕ, signed, is_positive, is_zero, is_negsuc}
use go_oci.Oci.{Sqlt, Descriptor}

-- How a buffer is obtained: from `C.malloc`, `ociDescriptorAlloc` or `ociHandleAlloc`.
pub data Allocation : Type 0 where
  malloc : ℕ → Allocation
  descriptor_alloc : Descriptor → Allocation
  stmt_handle_alloc : Allocation

-- How a buffer is given back: by `C.free` or `C.OCIDescriptorFree`.
pub data Release : Type 0 where
  free : Release
  descriptor_free : Descriptor → Release

-- What the server says of a column; `precision` and `scale` are read for a number only.
pub record ColumnInfo : Type 0 where
  pub name : Bytes
  pub data_type : Sqlt
  pub max_size : ℕ
  pub precision : ℤ
  pub scale : ℤ

-- A `defineStruct`: its name, type and size (the bit pattern of the `sb4`), and its buffer.
pub record Define : Type 0 where
  pub name : Bytes
  pub data_type : Sqlt
  pub max_size : ℕ
  pub buffer : Allocation

-- `C.sb4(sizeOfNilPointer)` on a platform with pointers of eight bytes.
abbrev pub size_of_nil_pointer : ℕ
size_of_nil_pointer = 8

-- A define whose buffer comes from `C.malloc(maxSize)`.
abbrev malloced : Bytes → Sqlt → ℕ → Define
malloced n t size = record { name = n; data_type = t; max_size = size; buffer = malloc size }

-- A define whose buffer is a pointer to a descriptor.
abbrev described : Bytes → Sqlt → Descriptor → Define
described n t d = record {
  name = n;
  data_type = t;
  max_size = size_of_nil_pointer;
  buffer = descriptor_alloc d;
}

-- `SQLT_NUM`: a float, unless the scale says that it is an integer.
number_type : ℤ → ℤ → Sqlt
number_type precision scale =
    if (is_zero precision && is_zero scale) || is_positive scale || is_negsuc 126 scale
    then Sqlt.bdouble
    else Sqlt.int

define_as : Sqlt → ColumnInfo → Define
unfolding number_type
define_as Sqlt.afc c = malloced c.name Sqlt.afc (c.max_size * 2 % 2 ^ 32)
define_as Sqlt.chr c = malloced c.name Sqlt.afc (c.max_size * 2 % 2 ^ 32)
define_as Sqlt.vcs c = malloced c.name Sqlt.afc (c.max_size * 2 % 2 ^ 32)
define_as Sqlt.avc c = malloced c.name Sqlt.afc (c.max_size * 2 % 2 ^ 32)
define_as Sqlt.bin c = malloced c.name Sqlt.bin c.max_size
define_as Sqlt.num c = malloced c.name (number_type c.precision c.scale) 8
define_as Sqlt.int c = malloced c.name Sqlt.int 8
define_as Sqlt.bdouble c = malloced c.name Sqlt.bdouble 8
define_as Sqlt.ibdouble c = malloced c.name Sqlt.bdouble 8
define_as Sqlt.bfloat c = malloced c.name Sqlt.bdouble 8
define_as Sqlt.ibfloat c = malloced c.name Sqlt.bdouble 8
define_as Sqlt.lng c = malloced c.name Sqlt.lng 4000
define_as Sqlt.clob c = described c.name Sqlt.clob Descriptor.lob
define_as Sqlt.blob c = described c.name Sqlt.blob Descriptor.lob
define_as Sqlt.timestamp c = described c.name Sqlt.timestamp Descriptor.timestamp
define_as Sqlt.dat c = described c.name Sqlt.timestamp Descriptor.timestamp
define_as Sqlt.timestamp_tz c = described c.name Sqlt.timestamp_tz Descriptor.timestamp_tz
define_as Sqlt.timestamp_ltz c = described c.name Sqlt.timestamp_tz Descriptor.timestamp_tz
define_as Sqlt.interval_ds c = described c.name Sqlt.interval_ds Descriptor.interval_ds
define_as Sqlt.interval_ym c = described c.name Sqlt.interval_ym Descriptor.interval_ym
define_as Sqlt.rdd c = malloced c.name Sqlt.afc 40
define_as Sqlt.rset c = record {
  name = c.name;
  data_type = Sqlt.rset;
  max_size = size_of_nil_pointer;
  buffer = stmt_handle_alloc;
}
define_as _ c = malloced c.name Sqlt.afc c.max_size

-- The switch of `makeDefines` on the column's type.
unfoldable pub define_column : ColumnInfo → Define
unfolding define_as
define_column c = define_as c.data_type c

-- `freeBuffer`
unfoldable pub free_buffer : Sqlt → Release
free_buffer Sqlt.clob = descriptor_free Descriptor.lob
free_buffer Sqlt.blob = descriptor_free Descriptor.lob
free_buffer Sqlt.timestamp = descriptor_free Descriptor.timestamp
free_buffer Sqlt.timestamp_tz = descriptor_free Descriptor.timestamp_tz
free_buffer Sqlt.timestamp_ltz = descriptor_free Descriptor.timestamp_ltz
free_buffer Sqlt.interval_ds = descriptor_free Descriptor.interval_ds
free_buffer Sqlt.interval_ym = descriptor_free Descriptor.interval_ym
free_buffer Sqlt.rset = descriptor_free Descriptor.htype_stmt
free_buffer _ = free

-- `ColumnTypeDatabaseTypeName`, for a type.
type_name : Sqlt → Bytes
type_name Sqlt.chr = codes "SQLT_CHR"
type_name Sqlt.num = codes "SQLT_NUM"
type_name Sqlt.int = codes "SQLT_INT"
type_name Sqlt.flt = codes "SQLT_FLT"
type_name Sqlt.str = codes "SQLT_STR"
type_name Sqlt.vnu = codes "SQLT_VNU"
type_name Sqlt.lng = codes "SQLT_LNG"
type_name Sqlt.vcs = codes "SQLT_VCS"
type_name Sqlt.dat = codes "SQLT_DAT"
type_name Sqlt.vbi = codes "SQLT_VBI"
type_name Sqlt.bfloat = codes "SQLT_BFLOAT"
type_name Sqlt.bdouble = codes "SQLT_BDOUBLE"
type_name Sqlt.bin = codes "SQLT_BIN"
type_name Sqlt.lbi = codes "SQLT_LBI"
type_name Sqlt.uin = codes "SQLT_UIN"
type_name Sqlt.lvc = codes "SQLT_LVC"
type_name Sqlt.lvb = codes "SQLT_LVB"
type_name Sqlt.afc = codes "SQLT_AFC"
type_name Sqlt.avc = codes "SQLT_AVC"
type_name Sqlt.rdd = codes "SQLT_RDD"
type_name Sqlt.nty = codes "SQLT_NTY"
type_name Sqlt.ref = codes "SQLT_REF"
type_name Sqlt.clob = codes "SQLT_CLOB"
type_name Sqlt.blob = codes "SQLT_BLOB"
type_name Sqlt.file = codes "SQLT_FILE"
type_name Sqlt.vst = codes "SQLT_VST"
type_name Sqlt.odt = codes "SQLT_ODT"
type_name Sqlt.date = codes "SQLT_DATE"
type_name Sqlt.timestamp = codes "SQLT_TIMESTAMP"
type_name Sqlt.timestamp_tz = codes "SQLT_TIMESTAMP_TZ"
type_name Sqlt.interval_ym = codes "SQLT_INTERVAL_YM"
type_name Sqlt.interval_ds = codes "SQLT_INTERVAL_DS"
type_name Sqlt.timestamp_ltz = codes "SQLT_TIMESTAMP_LTZ"
type_name _ = []

-- The Go types of values, `nil` for the type of the untyped nil.
pub data GoType : Type 0 where
  nil string slice_byte int64 float64 time : GoType

pub scan_type : Sqlt → GoType
scan_type Sqlt.afc = string
scan_type Sqlt.chr = string
scan_type Sqlt.vcs = string
scan_type Sqlt.avc = string
scan_type Sqlt.clob = string
scan_type Sqlt.rdd = string
scan_type Sqlt.bin = slice_byte
scan_type Sqlt.blob = slice_byte
scan_type Sqlt.int = int64
scan_type Sqlt.bdouble = float64
scan_type Sqlt.ibdouble = float64
scan_type Sqlt.bfloat = float64
scan_type Sqlt.ibfloat = float64
scan_type Sqlt.num = float64
scan_type Sqlt.timestamp = time
scan_type Sqlt.dat = time
scan_type Sqlt.timestamp_tz = time
scan_type Sqlt.timestamp_ltz = time
scan_type Sqlt.interval_ds = int64
scan_type Sqlt.interval_ym = int64
scan_type _ = nil

-- The answers for the column with an index, or for an index past the last one.
abbrev pub at_column {ℓ} : {A : Type ℓ} → A → (Define → A) → Option Define → A
at_column absent f none = absent
at_column absent f (some d) = f d

unfoldable pub column_type_database_type_name : List Define → ℕ → Bytes
unfolding type_name
column_type_database_type_name defines i =
    at_column [] (λ d. type_name d.data_type) (get_elem? defines i)

-- `maxSize / 2`, towards zero.
abbrev pub half : ℤ → ℤ
half (pos n) = pos (n / 2)
half (negsuc n) = sub_ℕ 0 (suc n / 2)

-- The length of a column of a type, from its `maxSize`.
size_of : Sqlt → ℕ → ℤ
size_of Sqlt.afc size = half (signed (2 ^ 31) size)
size_of _ size = signed (2 ^ 31) size

unfoldable pub column_type_length : List Define → ℕ → ℤ × Bool
unfolding size_of signed
column_type_length defines i =
    at_column (pos 0, false) (λ d. (size_of d.data_type d.max_size, true)) (get_elem? defines i)

unfoldable pub column_type_scan_type : List Define → ℕ → GoType
unfolding scan_type
column_type_scan_type defines i = at_column nil (λ d. scan_type d.data_type) (get_elem? defines i)
