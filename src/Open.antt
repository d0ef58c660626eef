-- ===== src/Open.antt =====
-- The life of a connection: oci8.go's `DriverStruct.Open`, with the deferred function that cleans
-- up after an error, and connection.go's `Conn.Close`. The constant `useOCISessionBegin` of
-- globals.go is true, so that the branch with `OCILogon` is not reached. The result of each call of
-- OCI is a parameter; it stands for the error that `getError` makes of it.
pub mod Ledger
pub mod Balance
pub mod Steps
pub mod Stages
pub mod Reaching
use go_oci.Prelude.{
  ℕ, Bool, true, false, Option, none, some, List, [], ◌∷◌, ◌++◌, Bytes, length, ltb, if◌then◌else◌,
  Outcome, ok, fail, panic,
}
use go_oci.Oci.{Sword}
use go_oci.Source.{Dsn, DsnError, OperationMode, TransactionMode, parse_dsn}
use Ledger.{Resource, Event}
use go_oci.Open.Steps.{
  OpenError, Opening, Progress, Replies, clean_up, dsn_error, env_create_error, failed, going,
  is_success, is_success_or_info, when, free_strings, no_handles, steps, stmt_cache_size, ◌then◌,
}

-- A connection: its handles, and the fields that `Open` takes from the data source name.
pub record Connection (Location : Type 0) : Type 0 where
  pub handles : Opening
  pub closed : Bool
  pub operation_mode : OperationMode
  pub stmt_cache_size : ℕ
  pub transaction_mode : TransactionMode
  pub prefetch_rows : ℕ
  pub prefetch_memory : ℕ
  pub time_location : Location
  pub enable_qm_placeholders : Bool

-- What `Open` returns, and all the calls that it made.
pub record Opened (Location : Type 0) : Type 0 where
  pub calls : List Event
  pub result : Outcome OpenError (Connection Location)

module _ {Location : Type 0} where
  abbrev pub connection : Dsn Location → Opening → Connection Location
  connection dsn o = record {
    handles = o;
    closed = false;
    operation_mode = dsn.operation_mode;
    stmt_cache_size = dsn.stmt_cache_size;
    transaction_mode = dsn.transaction_mode;
    prefetch_rows = dsn.prefetch_rows;
    prefetch_memory = dsn.prefetch_memory;
    time_location = dsn.time_location;
    enable_qm_placeholders = dsn.enable_qm_placeholders;
  }

  -- The end of `Open`, with what is deferred: the frees of the C strings, then the function that
  -- cleans up after an error.
  abbrev pub finish : Dsn Location → Progress → Opened Location
  finish dsn (going o) =
      let o' = free_strings o in record { calls = o'.log; result = ok (connection dsn o') }
  finish dsn (failed e o) =
      let o' = free_strings o in record { calls = o'.log ++ clean_up o'; result = fail e }

  -- `Open` on a data source name that has been parsed.
  unfoldable pub open_dsn : Replies → Dsn Location → Opened Location
  unfolding steps clean_up
  open_dsn r dsn =
      if is_success r.env_create
      then finish dsn (steps (ltb 0 (length dsn.username)) (ltb 0 dsn.stmt_cache_size) r)
      else record {
        calls = when (is_success_or_info r.env_create) (Event.obtained Resource.env);
        result = fail env_create_error;
      }

  abbrev pub opened_by :
      Outcome DsnError (Dsn Location) → (Dsn Location → Opened Location) → Opened Location
  opened_by (ok dsn) f = f dsn
  opened_by (fail e) f = record { calls = []; result = fail (dsn_error e) }
  opened_by panic f = record { calls = []; result = panic }

  -- `Close`, with the results of `OCISessionEnd` and `OCIServerDetach`: the connection after it, with
  -- its handles nil, the calls, and the result that stands for the error. A call that ends something
  -- is listed as a release whatever it returns, since the code does not try again.
  unfoldable pub close :
      Sword → Sword → Connection Location → Connection Location × List Event × Sword
  close session_end detach c = if c.closed then (c, [], Sword.success) else (
    record c {
      closed = true;
      handles = record c.handles {
        error_handle = false;
        server = false;
        service = false;
        user_session = false;
        tx_handle = false;
      };
    },
    Event.released Resource.begun
        ∷ Event.released Resource.attached
        ∷ Event.released Resource.session
        ∷ Event.released Resource.server
        ∷ Event.released Resource.service
        ∷ Event.released Resource.error
        ∷ Event.released Resource.trans
        ∷ Event.released Resource.env
        ∷ [],
    if is_success detach then session_end else detach,
  )

  -- `Connector.Connect` of connector.go, given whether the context is done and the nil location.
  unfoldable pub connect : Location → Bool → Option (Connection Location)
  connect nil_location true = none
  connect nil_location false = some (record {
    handles = no_handles;
    closed = false;
    operation_mode = OperationMode.default_mode;
    stmt_cache_size = 0;
    transaction_mode = TransactionMode.unset;
    prefetch_rows = 0;
    prefetch_memory = 0;
    time_location = nil_location;
    enable_qm_placeholders = false;
  })

module _ {Location : Type 0} (utc : Location) (load_location : Bytes → Option Location) where
  -- `DriverStruct.Open`
  unfoldable pub open_driver : Replies → Bytes → Opened Location
  unfolding open_dsn
  open_driver r s = opened_by (parse_dsn utc load_location s) (open_dsn r)
