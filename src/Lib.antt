-- ===== src/Lib.antt =====
-- A model of dbw (go-dbw), a Go package that wraps gorm for create, update, delete, lookup and search, and
-- theorems about it.
--
-- The program's parts and their files. An operation of `RW` works on a gorm connection, a resource (a pointer to a
-- struct, or a slice of them) and options. It makes its checks, lets the resource vet itself, calls the caller's
-- callbacks, and hands a statement to gorm.
--   Errors         error.go: the sentinels, errors with `%w`, and the outcome of a call
--   Reflect        the part of Go's `reflect` that the code uses, and `isZero` of common.go
--   Contains       `contains` of rw.go
--   Common         common.go: `UpdateFields`, `Intersection`, `BuildUpdatePaths`
--   Clause         clause.go: column values, conflict targets and actions
--   Options        option.go: the options and `GetOpts`
--   Gorm           what gorm, the database and the caller's types are asked for; they are parameters
--   Action         the state of an operation, and the chaining of steps that may fail or panic
--   Guards, Where, Conditions
--                  `raiseErrorOnHooks`, `validateResourcesInterface`, `whereClausesFromOpts`, `primaryKeysWhere` and
--                  `primaryFieldsAreZero` of rw.go
--   Registry       the sets of fields of create.go and update.go, and `filterPaths`
--   Clear          `Clear` and `setFieldsToNil` of create.go
--   Lookup, Search lookup.go, and `LookupWhere`, `SearchWhere` and `clearDefaultNullResourceFields` of rw.go
--   Writing, Conflict, Create
--                  create.go: `Create` and `CreateItems`
--   Update, Delete update.go and delete.go
--   Query          query.go, and `Exec` of rw.go
--   Transactions   transactions.go, and `IsTx` of rw.go
--   Ids            id.go: `NewId`
--   DoTx, Backoffs do_tx.go and backoff.go
--   Db             db.go, and `Dialect` of rw.go
--   Interfaces     reader.go and writer.go: `Reader`, `Writer`, and `RW` as both
--   Testing        testing.go: the options and the set-up of a test, with the SQL of its tables
--   Dbtest         internal/dbtest: the resource types of the tests, and the timestamps
-- Testing and Dbtest are clients of the rest: the set-up opens a database, stores the two sets of fields and creates the
-- tables, and the resources vet themselves.
-- Once, Keeping, Inversion, Steps and Progress carry proofs about whole operations: how often they write, which
-- invariants they keep, what they have checked when they return no error, and how they go on when a check passes.
-- Sessions has the sequences of operations as a step relation, and Locks what a write with a version is. Examples holds a small database and runs.
--
-- State. `Action.State` holds the world (the database and all else that calls may change), the resource, what the pointer
-- of `WithReturnRowsAffected` shows, the count that is returned, and the two registries. An operation gives an outcome
-- (a result, an error or a panic) and the state it leaves, also after an error. The connection is an option: `none` is
-- the nil pointer.
--
-- Bounds and fuel. `DoTx` counts its attempts in a `uint` of 64 bits, with the wrap written out; its loop takes fuel, and
-- fuel above `retries + 1` is enough when `retries + 2` does not overflow. All other loops are over the fields of a
-- value or the elements of a list, by structural recursion. A count of rows is an integer; its narrowing from `int64`
-- to `int` is the identity on 64 bits.
--
-- Parameters. gorm and the database are the record `Gorm.Gorm`, the methods of the caller's types the record
-- `Gorm.Resources`, gorm's dialects and pools the record `Db.Drivers`, the hash and the random strings of identifiers the
-- record `Ids.Randoms`, floating-point numbers and random numbers the record `Backoffs.Floats`, Go's times and protobuf's
-- timestamps the record `Dbtest.Stamps.Clock`, and the environment, urls and clean-up of a test the record
-- `Testing.Harness`. Theorems that need more of them name it in a record of laws: `DoTx.Bounded.Counts`,
-- `DoTx.Atomic.Isolates`, `DoTx.Balanced.Transacts`, `DoTx.Exhausted.KeepsFailing`, `Once.Counting`, `Once.Quiet`,
-- `Once.Vetoed.Vetoes`, `Keeping.Updates.Permits`, `Keeping.Creates.PermitsCreates`, `Sessions.Kept.Serves`,
-- `Locks.Locks`, `Locks.CallbacksSpare`, `DoTx.Kept.TxKeeps`, `Interfaces.Transacted.TxSpares` and
-- `Search.Limited.Limits`.
--
-- Not modelled. Values are trees, so two pointers to one struct are two structs. Case is folded on ASCII letters only.
-- Error texts are kept as format and operands. A map is traversed in the order of its entries. Raw SQL, by `Exec` and
-- `Query`, is no step of a session. The environment of a test does not change while the test is set up. The generated
-- protobuf code of internal/dbtest is not modelled, but for the fields of its messages.
pub mod Prelude
pub mod Errors
pub mod Reflect
pub mod Contains
pub mod Common
pub mod Clause
pub mod Options
pub mod Gorm
pub mod Action
pub mod Backoffs
pub mod Ids
pub mod Dbtest
pub mod Testing
pub mod Guards
pub mod Where
pub mod Registry
pub mod Clear
pub mod Lookup
pub mod Writing
pub mod Conflict
pub mod Conditions
pub mod Create
pub mod Update
pub mod Delete
pub mod Search
pub mod Query
pub mod Transactions
pub mod Db
pub mod DoTx
pub mod Examples
pub mod Keeping
pub mod Sessions
pub mod Locks
pub mod Once
pub mod Inversion
pub mod Steps
pub mod Progress
pub mod Interfaces
