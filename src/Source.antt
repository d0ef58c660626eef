-- ===== src/Source.antt =====
-- oci8.go: `ParseDSN`, with what it calls of Go's package strconv. Go's time zone database is a
-- parameter: `load_location` returns the location of a name, or `none` for its error.
pub mod Number
pub mod RoundTrip
pub mod Total
pub mod Bounds
pub mod Meaning
pub mod Order
use go_oci.Prelude.{
  ℕ, Bool, true, false, ◌||◌, Option, none, some, List, [], ◌∷◌, Bytes, codes, equal, drop, length,
  if◌then◌else◌, Outcome, ok, fail, panic, ◌>>=◌, map_fail, or_panic,
}
use go_oci.Dsn.Byte.{host}
use go_oci.Dsn.Escape.{EscapeError, unescape}
use go_oci.Dsn.Split.{split_right, parse_authority}
use go_oci.Dsn.Text.{has_prefix}
use go_oci.Dsn.Values.{Table}
use go_oci.Dsn.Query.{Unfinished, Parsed, parse_query}
use go_oci.Source.Number.{parse_bool, parse_uint32}

-- `C.OCI_DEFAULT`, `C.OCI_SYSDBA` and so on.
pub data OperationMode : Type 0 where
  default_mode sysdba sysasm sysoper : OperationMode

-- The zero value of the field, and the constants `C.OCI_TRANS_…`.
pub data TransactionMode : Type 0 where
  unset readonly serializable readwrite : TransactionMode

pub record Dsn (Location : Type 0) : Type 0 where
  pub connect : Bytes
  pub username : Bytes
  pub password : Bytes
  pub prefetch_rows : ℕ
  pub prefetch_memory : ℕ
  pub time_location : Location
  pub transaction_mode : TransactionMode
  pub enable_qm_placeholders : Bool
  pub operation_mode : OperationMode
  pub stmt_cache_size : ℕ

pub data DsnError : Type 0 where
  empty_dsn unfinished : DsnError
  bad_escape : EscapeError → DsnError
  invalid_loc invalid_isolation invalid_questionph invalid_prefetch_rows : Bytes → DsnError
  invalid_prefetch_memory invalid_as invalid_stmt_cache_size : Bytes → DsnError

-- `v[0]`
abbrev pub first : List Bytes → Outcome DsnError Bytes
first [] = panic
first (v ∷ vs) = ok v

-- A parser's error as the error that carries the text.
abbrev pub required {ℓ} : {A : Type ℓ} → (Bytes → DsnError) → Bytes → Option A → Outcome DsnError A
required e v none = fail (e v)
required e v (some a) = ok a

unfoldable pub isolation_mode : Bytes → Option TransactionMode
isolation_mode v =
    if equal v (codes "READONLY")
    then some readonly
    else if equal v (codes "SERIALIZABLE")
    then some serializable
    else if equal v (codes "DEFAULT")
    then some readwrite
    else none

unfoldable pub as_mode : Bytes → Option OperationMode
as_mode v =
    if equal v (codes "SYSDBA") || equal v (codes "sysdba")
    then some sysdba
    else if equal v (codes "SYSASM") || equal v (codes "sysasm")
    then some sysasm
    else if equal v (codes "SYSOPER") || equal v (codes "sysoper")
    then some sysoper
    else none

-- The string behind "oracle://", if it starts so.
abbrev pub trim_scheme : Bytes → Bytes
trim_scheme s = if has_prefix s (codes "oracle://") then drop (length (codes "oracle://")) s else s

module _ {Location : Type 0} (utc : Location) (load_location : Bytes → Option Location) where
  -- `case "loc"`, which alone allows for a key with no value.
  apply_loc : List Bytes → Dsn Location → Outcome DsnError (Dsn Location)
  apply_loc [] dsn = ok dsn
  apply_loc (v ∷ vs) dsn = do
    location ← required invalid_loc v (load_location v)
    ok (record dsn { time_location = location })

  -- The body of the loop over the parameters: one parameter.
  unfoldable pub apply_param : Bytes → List Bytes → Dsn Location → Outcome DsnError (Dsn Location)
  unfolding apply_loc
  apply_param k vs dsn =
      if equal k (codes "loc")
      then apply_loc vs dsn
      else if equal k (codes "isolation")
      then (do
        v ← first vs
        mode ← required invalid_isolation v (isolation_mode v)
        ok (record dsn { transaction_mode = mode }))
      else if equal k (codes "questionph")
      then (do
        v ← first vs
        enabled ← required invalid_questionph v (parse_bool v)
        ok (record dsn { enable_qm_placeholders = enabled }))
      else if equal k (codes "prefetch_rows")
      then (do
        v ← first vs
        z ← required invalid_prefetch_rows v (parse_uint32 v)
        ok (record dsn { prefetch_rows = z }))
      else if equal k (codes "prefetch_memory")
      then (do
        v ← first vs
        z ← required invalid_prefetch_memory v (parse_uint32 v)
        ok (record dsn { prefetch_memory = z }))
      else if equal k (codes "as")
      then (do
        v ← first vs
        mode ← required invalid_as v (as_mode v)
        ok (record dsn { operation_mode = mode }))
      else if equal k (codes "stmt_cache_size")
      then (do
        v ← first vs
        z ← required invalid_stmt_cache_size v (parse_uint32 v)
        ok (record dsn { stmt_cache_size = z }))
      else ok dsn

  -- `for k, v := range qp`, in the order of the entries.
  unfoldable pub apply_params : Table → Dsn Location → Outcome DsnError (Dsn Location)
  apply_params [] dsn = ok dsn
  apply_params ((k, vs) ∷ qp) dsn = do dsn' ← apply_param k vs dsn; apply_params qp dsn'

  unfoldable pub initial : Dsn Location
  initial = record {
    connect = [];
    username = [];
    password = [];
    prefetch_rows = 0;
    prefetch_memory = 4096;
    time_location = utc;
    transaction_mode = unset;
    enable_qm_placeholders = false;
    operation_mode = default_mode;
    stmt_cache_size = 0;
  }

  -- The user and the password, which keep their zero values where there is no authority.
  unfoldable pub parse_account : Bytes → Outcome DsnError (Bytes × Bytes)
  parse_account authority =
      if equal authority []
      then ok (initial.username, initial.password)
      else map_fail bad_escape (parse_authority authority)

  -- The part behind the at sign. `ParseQuery`'s error is not looked at.
  unfoldable pub parse_target : Bytes → Bytes × Bytes → Outcome DsnError (Dsn Location)
  parse_target s account = do
    let rest = split_right s (codes "?")
    connect ← map_fail bad_escape (unescape rest.0 host)
    parsed ← map_fail (λ (e : Unfinished). unfinished) (parse_query rest.1)
    apply_params parsed.0
        (record initial { username = account.0; password = account.1; connect = connect })

  -- Everything behind the test for the empty string.
  unfoldable pub parse_parts : Bytes → Outcome DsnError (Dsn Location)
  parse_parts s = do
    let parts = split_right (trim_scheme s) (codes "@")
    account ← parse_account parts.0
    parse_target parts.1 account

  unfoldable pub parse_dsn : Bytes → Outcome DsnError (Dsn Location)
  parse_dsn s = if equal s [] then fail empty_dsn else parse_parts s
