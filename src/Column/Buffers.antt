-- ===== src/Column/Buffers.antt =====
-- Buffers are given back the way they were obtained, but for cursors.
use go_oci.Prelude.{ℕ, ◌≡◌, ◌≢◌, refl, sym, subst, arith}
use go_oci.Oci.{Sqlt, Descriptor}
use go_oci.Column.{
  Allocation, malloc, descriptor_alloc, stmt_handle_alloc, Release, free, descriptor_free,
  ColumnInfo, number_type, define_as, define_column, free_buffer,
}

-- A function that may give back what another function returned.
pub data Undoes : Release → Allocation → Type 0 where
  by_free : {r : Release} {a : Allocation} (n : ℕ) → r ≡ free → a ≡ malloc n → Undoes r a
  by_descriptor_free :
      {r : Release} {a : Allocation} (d : Descriptor)
      → r ≡ descriptor_free d
      → a ≡ descriptor_alloc d
      → Undoes r a

number-free :
    (t : Sqlt) (c : ColumnInfo) → t ≡ Sqlt.num → free_buffer (define_as t c).data_type ≡ free
unfolding define_as number_type free_buffer
number-free t c h = ground arith

define_as-Undoes :
    (t : Sqlt) (c : ColumnInfo)
    → t ≢ Sqlt.rset
    → Undoes (free_buffer (define_as t c).data_type) (define_as t c).buffer
unfolding define_as free_buffer
define_as-Undoes Sqlt.clob c h = by_descriptor_free Descriptor.lob refl refl
define_as-Undoes Sqlt.blob c h = by_descriptor_free Descriptor.lob refl refl
define_as-Undoes Sqlt.timestamp c h = by_descriptor_free Descriptor.timestamp refl refl
define_as-Undoes Sqlt.dat c h = by_descriptor_free Descriptor.timestamp refl refl
define_as-Undoes Sqlt.timestamp_tz c h = by_descriptor_free Descriptor.timestamp_tz refl refl
define_as-Undoes Sqlt.timestamp_ltz c h = by_descriptor_free Descriptor.timestamp_tz refl refl
define_as-Undoes Sqlt.interval_ds c h = by_descriptor_free Descriptor.interval_ds refl refl
define_as-Undoes Sqlt.interval_ym c h = by_descriptor_free Descriptor.interval_ym refl refl
define_as-Undoes Sqlt.rset c h = absurd (h refl)
define_as-Undoes Sqlt.num c h = by_free 8 (number-free Sqlt.num c refl) refl
define_as-Undoes _ c h = by_free _ refl refl

-- The buffer that `makeDefines` obtains for a column is given back by `freeBuffer` through the
-- function that matches: `C.free` for `C.malloc`, and `OCIDescriptorFree` with the same descriptor
-- type for `OCIDescriptorAlloc`. This holds for columns of every type but cursors.
pub define_column-Undoes :
    (c : ColumnInfo)
    → c.data_type ≢ Sqlt.rset
    → Undoes (free_buffer (define_column c).data_type) (define_column c).buffer
unfolding define_column
define_column-Undoes c h = define_as-Undoes c.data_type c h

not_Undoes : (r : Release) (d : Descriptor) → r ≡ descriptor_free d → ¬ Undoes r stmt_handle_alloc
not_Undoes r d h (by_free n e e') = cc
not_Undoes r d h (by_descriptor_free d' e e') = cc

rset_lem :
    (t : Sqlt) (c : ColumnInfo)
    → Sqlt.rset ≡ t
    → ((define_as t c).buffer ≡ stmt_handle_alloc)
      × ¬ Undoes (free_buffer (define_as t c).data_type) (define_as t c).buffer
unfolding define_as free_buffer
rset_lem t c h =
    subst
      (λ t.
        ((define_as t c).buffer ≡ stmt_handle_alloc)
        × ¬ Undoes (free_buffer (define_as t c).data_type) (define_as t c).buffer)
      h (refl, not_Undoes _ Descriptor.htype_stmt refl)

-- The statement handle that `makeDefines` allocates for a column that holds a cursor is given to
-- `OCIDescriptorFree` by `freeBuffer`, so that what is called does not match what was allocated.
define_column_rset :
    (c : ColumnInfo)
    → c.data_type ≡ Sqlt.rset
    → ((define_column c).buffer ≡ stmt_handle_alloc)
      × ¬ Undoes (free_buffer (define_column c).data_type) (define_column c).buffer
unfolding define_column
define_column_rset c h = rset_lem c.data_type c (sym h)
