-- ===== src/Oci.antt =====
-- The names of the Oracle Call Interface (oci.h) that the driver uses: result codes, data types of
-- columns and kinds of descriptors. oci.h gives the names of each group distinct numbers, so that
-- they are constructors here; a number without a name that the driver uses is `other`.
use go_oci.Prelude.{ℕ}
use go_oci.Prelude.Int.{ℤ}

-- `sword`
pub data Sword : Type 0 where
  success success_with_info reserved_for_int_use no_data oci_error invalid_handle : Sword
  need_data still_executing : Sword
  other : ℤ → Sword

-- The external data types `SQLT_…`.
pub data Sqlt : Type 0 where
  chr num int flt str vnu lng vcs dat vbi bfloat bdouble bin lbi uin lvc lvb : Sqlt
  afc avc rdd nty ref clob blob file vst odt date timestamp timestamp_tz : Sqlt
  interval_ym interval_ds timestamp_ltz ibfloat ibdouble rset : Sqlt
  other : ℕ → Sqlt

-- `OCI_DTYPE_…` and the one handle type that is given to `OCIDescriptorFree`.
pub data Descriptor : Type 0 where
  lob timestamp timestamp_tz timestamp_ltz interval_ds interval_ym htype_stmt : Descriptor
