-- ===== src/Conn.antt =====
-- A connection: how connection.go turns results of OCI into errors (`getError`, `ociGetError`,
-- `Ping`), and the transactions of connection.go, oci8.go and statement.go (`BeginTx`, `Commit`,
-- `Rollback`, the mode in which `exec` and `query` execute). What OCI returns is a parameter.
pub mod Errors
pub mod Transactions
use go_oci.Prelude.{
  ℕ, Bool, true, false, Option, none, some, List, [], ◌∷◌, ◌++◌, Bytes, ◌==◌, if◌then◌else◌,
  Outcome, ok, fail, panic, ◌>>=◌, map, not,
}
use go_oci.Prelude.Int.{ℤ, pos, negsuc}
use go_oci.Oci.{Sword}
use go_oci.Source.{TransactionMode, readwrite}

-- The errors that the driver returns for a call of OCI.
pub data ConnError : Type 0 where
  bad_conn : ConnError
  oci_invalid_handle oci_success_with_info oci_reserved_for_int_use : ConnError
  oci_no_data oci_need_data oci_still_executing : ConnError
  -- the text that `OCIErrorGet` gives
  ora_error : Bytes → ConnError
  -- "OCIErrorGet failed"
  error_get_failed : ConnError
  -- "received result code"
  result_code : ℤ → ConnError

-- What `OCIErrorGet` returns and leaves in the error code and in the buffer of the text.
pub record Diagnostic : Type 0 where
  pub result : Sword
  pub code : ℤ
  pub text : Bytes

-- `errorText[:bytes.IndexByte(errorText, 0)]`, a panic where there is no byte 0.
unfoldable pub c_text : Bytes → Outcome ConnError Bytes
c_text [] = panic
c_text (c ∷ s) = let rest = c_text s in if c == 0 then ok [] else rest >>= λ t. ok (c ∷ t)

-- What `ociGetError` returns for the result of `OCIErrorGet`, the code and the text.
abbrev pub code_and_text : Sword → ℤ → Outcome ConnError Bytes → Outcome ConnError (ℤ × ConnError)
code_and_text Sword.success n text = text >>= λ t. ok (n, ora_error t)
code_and_text _ n text = ok (pos 3114, error_get_failed)

-- `ociGetError`
unfoldable pub oci_get_error : Diagnostic → Outcome ConnError (ℤ × ConnError)
oci_get_error d = code_and_text d.result d.code (c_text d.text)

-- The codes of a connection that cannot be used any more.
abbrev pub bad_codes : List ℕ
bad_codes = 28 ∷ 1012 ∷ 1033 ∷ 1034 ∷ 1089 ∷ 3113 ∷ 3114 ∷ 3135 ∷ 12528 ∷ 12537 ∷ []

abbrev pub is_one_of : ℕ → List ℕ → Bool
is_one_of n [] = false
is_one_of n (k ∷ ks) = let rest = is_one_of n ks in if n == k then true else rest

abbrev pub is_bad_code : ℤ → Bool
is_bad_code (pos n) = is_one_of n bad_codes
is_bad_code (negsuc n) = false

-- `ErrBadConn` for a code of a lost connection, or the error itself.
abbrev pub lost_or : Bool → ConnError → Outcome ConnError (Unit {0})
lost_or true e = fail bad_conn
lost_or false e = fail e

-- `getError`, where `ok tt` is the error `nil`.
unfoldable pub get_error : Sword → Diagnostic → Outcome ConnError (Unit {0})
unfolding oci_get_error
get_error Sword.success d = ok tt
get_error Sword.invalid_handle d = fail oci_invalid_handle
get_error Sword.success_with_info d = fail oci_success_with_info
get_error Sword.reserved_for_int_use d = fail oci_reserved_for_int_use
get_error Sword.no_data d = fail oci_no_data
get_error Sword.need_data d = fail oci_need_data
get_error Sword.still_executing d = fail oci_still_executing
get_error Sword.oci_error d = oci_get_error d >>= λ (code, e). lost_or (is_bad_code code) e
get_error (Sword.other n) d = fail (result_code n)

-- How a function with a context ends: with the error of the context, or with what OCI says.
pub data Ended : Type 0 where
  context_done : Ended
  answered : Outcome ConnError (Unit {0}) → Ended

-- What `Ping` makes of the code of the error.
abbrev pub after_ping : ℤ → Outcome ConnError (Unit {0})
after_ping (pos n) = if n == 1010 then ok tt else fail bad_conn
after_ping (negsuc n) = fail bad_conn

-- `Ping`, given whether the context is done and what `OCIPing` returns.
unfoldable pub ping : Bool → Sword → Diagnostic → Ended
ping true r d = context_done
ping false Sword.success d = answered (ok tt)
ping false Sword.success_with_info d = answered (ok tt)
ping false r d = answered (oci_get_error d >>= λ (code, e). after_ping code)

-- The part of a `Conn` that transactions use.
pub record Conn : Type 0 where
  pub transaction_mode : TransactionMode
  pub in_transaction : Bool

-- A call of OCI: the start of a transaction, the execution of a statement with whether the mode has
-- `OCI_COMMIT_ON_SUCCESS`, and the ends of a transaction.
pub data Call : Type 0 where
  trans_start : TransactionMode → Call
  stmt_execute : Bool → Call
  trans_commit : Call
  trans_rollback : Call

-- What the driver is asked to do, with whether its context is done, and with what OCI replies to
-- the call that is made.
pub data Op : Type 0 where
  begin_op : Bool → Sword → Diagnostic → Op
  execute_op : Bool → Sword → Diagnostic → Op
  commit_op : Sword → Diagnostic → Op
  rollback_op : Sword → Diagnostic → Op

-- The connection after an operation, the calls of OCI that it made, and how it ended.
pub record Performed : Type 0 where
  pub conn : Conn
  pub calls : List Call
  pub ended : Ended

abbrev pub performed : Conn → List Call → Ended → Performed
performed c calls e = record { conn = c; calls = calls; ended = e }

-- A connection in a transaction, or out of it.
abbrev pub set_in_transaction : Bool → Conn → Conn
set_in_transaction b c = record { transaction_mode = c.transaction_mode; in_transaction = b }

-- The result of `OCITransStart` in `BeginTx`.
abbrev pub after_start : Sword → Conn → Conn
after_start Sword.success c = set_in_transaction true c
after_start r c = c

-- `BeginTx` once the context has been asked, for a mode.
abbrev pub begin_mode : TransactionMode → Sword → Diagnostic → Conn → Performed
begin_mode readwrite r d c = performed (set_in_transaction true c) [] (answered (ok tt))
begin_mode m r d c = performed (after_start r c) (trans_start m ∷ []) (answered (get_error r d))

-- `BeginTx`
unfoldable pub begin_tx : Bool → Sword → Diagnostic → Conn → Performed
begin_tx true r d c = performed c [] context_done
begin_tx false r d c = begin_mode c.transaction_mode r d c

-- `Tx.Commit`
unfoldable pub commit : Sword → Diagnostic → Conn → Performed
commit r d c = performed (set_in_transaction false c) (trans_commit ∷ []) (answered (get_error r d))

-- `Tx.Rollback`
unfoldable pub rollback : Sword → Diagnostic → Conn → Performed
rollback r d c =
    performed (set_in_transaction false c) (trans_rollback ∷ []) (answered (get_error r d))

-- The execution of a statement, which `exec` and `query` share: the mode, the test of the context
-- and `ociStmtExecute`.
unfoldable pub execute : Bool → Sword → Diagnostic → Conn → Performed
execute true r d c = performed c [] context_done
execute false r d c =
    performed c (stmt_execute (not c.in_transaction) ∷ []) (answered (get_error r d))

unfoldable pub perform : Op → Conn → Performed
unfolding begin_tx commit rollback execute
perform (begin_op done r d) c = begin_tx done r d c
perform (execute_op done r d) c = execute done r d c
perform (commit_op r d) c = commit r d c
perform (rollback_op r d) c = rollback r d c

-- A run of operations on a connection, with the calls of OCI that they make.
unfoldable pub run : List Op → Conn → Conn × List Call
unfolding perform
run [] c = (c, [])
run (o ∷ os) c = let p = perform o c in let (c', more) = run os p.conn in (c', p.calls ++ more)
