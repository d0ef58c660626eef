-- ===== src/Statement/Prepare.antt =====
-- oci8.go: `placeholders`; connection.go: `PrepareContext`.
use go_oci.Prelude.{
  ℕ, ◌+◌, Bool, true, false, [], ◌∷◌, ◌++◌, Bytes, ◌==◌, if◌then◌else◌, Outcome, ok, fail,
}
use go_oci.Prelude.Int.{pos}
use go_oci.Oci.{Sword}
use go_oci.Zone.{format_int}

-- The part of a `Stmt` that changes: whether it is closed, its key in the cache, and whether
-- `releaseMode` is `OCI_STRLS_CACHE_DELETE`.
pub record Stmt : Type 0 where
  pub closed : Bool
  pub cache_key : Bytes
  pub cache_delete : Bool

-- The calls for a statement: the execution, with the iterations and whether it commits on success,
-- and the release, with the key and whether the statement is deleted from the cache.
pub data Call : Type 0 where
  execute : ℕ → Bool → Call
  release : Bytes → Bool → Call

abbrev pub is_success : Sword → Bool
is_success Sword.success = true
is_success _ = false

abbrev pub is_success_or_info : Sword → Bool
is_success_or_info Sword.success = true
is_success_or_info Sword.success_with_info = true
is_success_or_info _ = false

-- `phre.ReplaceAllStringFunc` of `placeholders`: each question mark becomes a colon with the next
-- number.
unfoldable pub number_marks : ℕ → Bytes → Bytes
unfolding format_int
number_marks n [] = []
number_marks n (c ∷ s) =
    let other = number_marks n s in
    let mark = number_marks (n + 1) s in
    if c == b'?' then b':' ∷ (format_int (pos (n + 1)) ++ mark) else c ∷ other

-- `placeholders`
unfoldable pub placeholders : Bytes → Bytes
unfolding number_marks
placeholders sql = number_marks 0 sql

pub data PrepareError : Type 0 where
  context_error : PrepareError
  oci_error : Sword → PrepareError

-- A statement that has just been prepared.
abbrev pub fresh : Bytes → Stmt
fresh key = record { closed = false; cache_key = key; cache_delete = false }

-- `PrepareContext`, given the two fields of the connection, whether the context is done, and the
-- result of `OCIStmtPrepare2`: the text that is prepared, and what is returned.
unfoldable pub prepare_context : Bool → ℕ → Bool → Sword → Bytes → Bytes × Outcome PrepareError Stmt
unfolding placeholders
prepare_context question_marks cache_size done r query =
    let text = if question_marks then placeholders query else query in
    (
      text,
      if done
          then fail context_error
          else if cache_size == 0
          then (if is_success r then ok (fresh []) else fail (oci_error r))
          else if is_success_or_info r
          then ok (fresh text)
          else fail (oci_error r),
    )
