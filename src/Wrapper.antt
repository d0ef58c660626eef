-- ===== src/Wrapper.antt =====
-- connection.go and statement.go: the functions that make one call of OCI each, `ociAttrGet` (of both
-- files), `ociAttrSet`, `ociHandleAlloc`, `ociDescriptorAlloc`, `ociLobCreateTemporary`,
-- `ociParamGet`, `ociBindByName` and `ociBindByPos`, with the choice between the last two in
-- `bindValues`. OCI is a parameter: what it replies to a call. A pointer is a number, and nil is 0.
pub mod Alloc
pub mod Binding
use go_oci.Prelude.{
  ℕ, ◌+◌, ◌%◌, ◌^◌, Bool, true, false, ◌||◌, Option, none, some, [], ◌∷◌, Bytes, codes, length, ltb,
  if◌then◌else◌, Outcome, ok, fail, panic,
}
use go_oci.Oci.{Sword, Sqlt}
use go_oci.Conn.{ConnError, Diagnostic, get_error}

-- `OCI_DTYPE_PARAM`, `OCI_HTYPE_STMT`, and any type that the caller gives.
pub data HandleType : Type 0 where
  dtype_param htype_stmt : HandleType
  given : ℕ → HandleType

-- The handles of a `Conn` that the calls are given.
pub record Handles : Type 0 where
  pub env : ℕ
  pub svc : ℕ
  pub err : ℕ

-- The part of a `bindStruct` that the calls are given: the length and the indicator are pointers.
pub record BindStruct : Type 0 where
  pub pbuf : ℕ
  pub max_size : ℕ
  pub data_type : Sqlt
  pub indicator : ℕ
  pub length : ℕ

-- A call of OCI with the arguments that differ from call to call.
pub data Request : Type 0 where
  -- the handle, its type, the attribute and the error handle
  attr_get : ℕ → HandleType → ℕ → ℕ → Request
  -- the handle, its type, the value, its size, the attribute and the error handle
  attr_set : ℕ → HandleType → ℕ → ℕ → ℕ → ℕ → Request
  -- the environment, the type, the size of the user memory and whether a pointer to it is asked for
  handle_alloc descriptor_alloc : ℕ → HandleType → ℕ → Bool → Request
  -- the service context, the error handle, the locator, the form and the type
  lob_create_temporary : ℕ → ℕ → ℕ → ℕ → ℕ → Request
  -- the statement, its type, the error handle and the position
  param_get : ℕ → HandleType → ℕ → ℕ → Request
  -- the statement, the error handle, the name with its length, or the position, and the bind
  bind_by_name : ℕ → ℕ → Bytes → ℕ → BindStruct → Request
  bind_by_pos : ℕ → ℕ → ℕ → BindStruct → Request

-- What OCI replies: its result, what `OCIErrorGet` would tell of it, and what it writes through the
-- pointers that it is given.
pub record Reply : Type 0 where
  pub result : Sword
  pub diagnostic : Diagnostic
  pub size : ℕ
  pub handle : ℕ
  pub buffer : ℕ

-- `conn.getError(result)`
abbrev pub error_of : Reply → Outcome ConnError (Unit {0})
error_of r = get_error r.result r.diagnostic

-- The three results of an allocation: the pointers, `none` for nil, and the error.
pub record Allocated : Type 0 where
  pub handle : Option ℕ
  pub buffer : Option ℕ
  pub error : Outcome ConnError (Unit {0})

abbrev pub allocated : Reply → ℕ → Outcome ConnError (Unit {0}) → Allocated
allocated r size (ok u) = record {
  handle = some r.handle;
  buffer = if ltb 0 size then some r.buffer else none;
  error = ok u;
}
allocated r size e = record { handle = none; buffer = none; error = e }

-- The two results of `ociParamGet`.
abbrev pub param_of : Reply → Outcome ConnError (Unit {0}) → Option ℕ × Outcome ConnError (Unit {0})
param_of r (ok u) = (some r.handle, ok u)
param_of r e = (none, e)

module _ (oci : Request → Reply) where
  -- `Conn.ociAttrGet`: the size and the error.
  unfoldable pub param_attr_get : Handles → ℕ → ℕ → ℕ × Outcome ConnError (Unit {0})
  param_attr_get conn param attribute =
      let r = oci (attr_get param dtype_param attribute conn.err) in (r.size, error_of r)

  -- `Conn.ociAttrSet`
  unfoldable pub oci_attr_set : Handles → ℕ → HandleType → ℕ → ℕ → ℕ → Outcome ConnError (Unit {0})
  oci_attr_set conn handle type value value_size attribute =
      error_of (oci (attr_set handle type value value_size attribute conn.err))

  -- `Conn.ociHandleAlloc`
  unfoldable pub oci_handle_alloc : Handles → HandleType → ℕ → Allocated
  oci_handle_alloc conn type size =
      let r = oci (handle_alloc conn.env type size (ltb 0 size)) in allocated r size (error_of r)

  -- `Conn.ociDescriptorAlloc`
  unfoldable pub oci_descriptor_alloc : Handles → HandleType → ℕ → Allocated
  oci_descriptor_alloc conn type size =
      let r = oci (descriptor_alloc conn.env type size (ltb 0 size)) in
      allocated r size (error_of r)

  -- `Conn.ociLobCreateTemporary`
  unfoldable pub oci_lob_create_temporary : Handles → ℕ → ℕ → ℕ → Outcome ConnError (Unit {0})
  oci_lob_create_temporary conn locator form lob_type =
      error_of (oci (lob_create_temporary conn.svc conn.err locator form lob_type))

  -- `Stmt.ociParamGet`
  unfoldable pub oci_param_get : Handles → ℕ → ℕ → Option ℕ × Outcome ConnError (Unit {0})
  oci_param_get conn stmt position =
      let r = oci (param_get stmt htype_stmt conn.err position) in param_of r (error_of r)

  -- `Stmt.ociAttrGet`
  unfoldable pub stmt_attr_get : Handles → ℕ → ℕ → ℕ × Outcome ConnError (Unit {0})
  stmt_attr_get conn stmt attribute =
      let r = oci (attr_get stmt htype_stmt attribute conn.err) in (r.size, error_of r)

  -- `Stmt.ociBindByName`, which takes the address of the first byte of the name.
  unfoldable pub oci_bind_by_name : Handles → ℕ → Bytes → BindStruct → Outcome ConnError (Unit {0})
  oci_bind_by_name conn stmt [] bind = panic
  oci_bind_by_name conn stmt (c ∷ name) bind =
      error_of (oci (bind_by_name stmt conn.err (c ∷ name) (length (c ∷ name)) bind))

  -- `Stmt.ociBindByPos`
  unfoldable pub oci_bind_by_pos : Handles → ℕ → ℕ → BindStruct → Outcome ConnError (Unit {0})
  oci_bind_by_pos conn stmt position bind = error_of (oci (bind_by_pos stmt conn.err position bind))

  -- The end of the body of `bindValues`' loop, for the value with an index and its name.
  unfoldable pub bind_argument :
      Handles → ℕ → Bool → ℕ → Bytes → BindStruct → Outcome ConnError (Unit {0})
  unfolding oci_bind_by_name oci_bind_by_pos
  bind_argument conn stmt use_values i name bind =
      if use_values || ltb (length name) 1
      then oci_bind_by_pos conn stmt ((i + 1) % 2 ^ 32) bind
      else oci_bind_by_name conn stmt (b':' ∷ name) bind
