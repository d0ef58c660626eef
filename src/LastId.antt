-- ===== src/LastId.antt =====
-- oci8.go: `Result.LastInsertId` and `GetLastInsertId`, which pass the row id as the address of the
-- field `rowid`, turned into an `int64` and back. Go's memory is a parameter: the string that is at
-- an address. That the collector neither frees nor moves it meanwhile is not modelled.
use go_oci.Prelude.{ℕ, ◌^◌, ◌<◌, ◌≡◌, ◌>>=◌, Bytes, Outcome, ok, arith}
use go_oci.Prelude.Int.{ℤ, pos, wrap64, signed, residue}
use go_oci.Statement.{Result, ResultError}

-- `result.rowidErr`
abbrev pub rowid_err : Result → Outcome ResultError (Unit {0})
rowid_err r = r.rowid >>= λ id. ok tt

-- `LastInsertId`, for the address of the field `rowid`: `int64(uintptr(…))` with the error.
unfoldable pub last_insert_id : ℕ → Result → ℤ × Outcome ResultError (Unit {0})
unfolding wrap64
last_insert_id address r = (wrap64 (pos address), rowid_err r)

-- `GetLastInsertId`: `uintptr(id)` is the same bits.
unfoldable pub get_last_insert_id : (ℕ → Bytes) → ℤ → Bytes
unfolding residue
get_last_insert_id string_at id = string_at (residue (2 ^ 64) id)

-- An address below 2^64 survives the way through an `int64`, also one in the upper half, which is a
-- negative number there.
residue-wrap64 : (n : ℕ) → n < 2 ^ 64 → residue (2 ^ 64) (wrap64 (pos n)) ≡ n
unfolding residue wrap64 signed
residue-wrap64 n h = ground arith
