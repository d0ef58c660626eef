-- ===== src/Lib.antt =====
-- A model of go-oci8, the Oracle driver of Go's package database/sql, and what holds of it.
--
-- The driver is a cgo layer over the Oracle Call Interface (OCI). An application gives it a data
-- source name, which oci8.go's `ParseDSN` takes apart with the escapes, cuts and query strings of
-- dsn.go. A connection (connection.go) executes statements (statement.go), which define a buffer for
-- each column; rows (rows.go) fetch into the buffers and turn them into Go values. Large objects
-- are moved through a buffer of the connection, and every result of OCI goes through `getError`.
--
-- Files and what they model:
--   Dsn           dsn.go: `shouldEscape` and the classes of bytes (Byte), `unescape` and `escape`
--                 (Escape), `split`, `splitRight` and `parseAuthority` (Split), the type `Values` and
--                 `Encode` (Values), `parseQuery` (Query), the searches of package strings (Text)
--   Source        oci8.go: `ParseDSN`, with `ParseBool` and `ParseUint` of package strconv (Number)
--   Oci           the names of oci.h that the driver uses
--   Open          oci8.go: `Open`, its calls of OCI in order with the deferred release (Steps);
--                 connection.go: `Close`; connector.go: `Connect`; what may be obtained and released
--                 when (Ledger), and what is held after each call (Stages, Reaching)
--   Memory        c_helpers.go: `cByte`, `cByteN`, `cString`, `cStringN`, `cGoStringN`
--   Column        statement.go: the switch of `makeDefines`; c_helpers.go: `freeBuffer`; rows.go: the
--                 `ColumnType…` functions, and `Next` (Fetch)
--   Blocks        what a define or a bind owns, and the calls that obtain it and give it back
--   Defines       statement.go: `makeDefines`; c_helpers.go: `freeDefines`; rows.go: `Close` and
--                 `Columns`; the defines that the rows of a cursor share with the outer rows
--                 (Shared)
--   Binds         statement.go: `bindValues`, its type switch in Values; c_helpers.go: `freeBinds`
--   Output        statement.go: `outputBoundParameters`; c_helpers.go: `getInt64`, `getUint64`
--   Statement     statement.go: `Query`, `Exec`, `ociStmtExecute`, `Close`; oci8.go: `placeholders`
--                 and connection.go: `PrepareContext` (Prepare)
--   Lob           connection.go: `ociLobWrite` and `ociLobRead`
--   Conn          connection.go: `getError`, `ociGetError`, `Ping`, `BeginTx`; oci8.go: `Commit` and
--                 `Rollback`; statement.go: the mode in which `exec` and `query` execute
--   Session       `BeginTx`, `Exec`, `Query`, `Commit` and `Rollback` in any order on a connection
--   Cancel        connection.go: `ociBreakDone` and `ociBreak`, beside their caller and the context
--   Wrapper       connection.go and statement.go: the functions that make one call of OCI each
--   LastId        oci8.go: `LastInsertId` and `GetLastInsertId`
--   Zone          connection.go: `appendSmallInt`, `timeToOCIDateTime` and `ociDateTimeToTime`
--                 (Stamps); oci8.go: `timezoneToLocation`; globals.go: `init` (Load)
--   Prelude       bytes, outcomes (a value, an error or a panic), integers, lemmas on lists
--   Tests         concrete inputs
--
-- A Go string is the list of its bytes; an index or a slice bound out of range is the outcome
-- `panic`. A map is an association list in the order in which Go happens to range over it. Names of
-- the model are Go's in snake case. Go's `int64` wraps around; `ub4` is a number below 2^32, and the
-- `sb4` of a buffer's size is its bit pattern.
--
-- What is not in the repository is a parameter: what each call of OCI replies, whether a context is
-- done, and the locations of Go's time zone database.
--
-- Loops on fuel: `parse_loop` of Dsn.Query has the length of the query, as each round drops a byte at
-- least; `write_loop` of Lob has a round for each byte and one more, as each round moves past at least
-- one byte; `read_loop` of Lob has a round for each reply, as OCI alone decides how many there are.
--
-- Handles, descriptors and blocks of C memory are followed as the events that obtain them and give
-- them back; replaying the events says what is held, and fails where one is out of order. A run of
-- `Query` or `Exec` keeps the events of its binds apart from those of its defines.
--
-- A call that a context may end runs beside the goroutine that breaks it: Cancel has the two and the
-- context as one system, with a relation of single steps and a function that follows a list of turns.
--
-- Not modelled: the branches with `OCILogon` and `OCILogoff`, which a constant turns off; Go's
-- garbage collector; the character set that `init` looks up; logs; `NumInput`, `CheckNamedValue`,
-- `Prepare` and `Begin`, which return a constant or call one function; the examples and tests.
mod Prelude
pub mod Dsn
pub mod Source
pub mod Oci
pub mod Column
pub mod Lob
pub mod Conn
pub mod Wrapper
pub mod Zone
pub mod Open
pub mod Memory
pub mod Blocks
pub mod Cancel
pub mod Defines
pub mod Binds
pub mod Output
pub mod Statement
pub mod LastId
pub mod Session
pub mod Tests
