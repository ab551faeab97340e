-- ===== src/Lib.antt =====
-- Verification of Penge, a self-hosted household finance and net-worth program.
--
-- Five parts of the program are modelled. `Tax` has the calculators of src/penge/tax, pure
-- functions over decimal amounts: a lot book that applies buys, sales, splits and mergers, and the
-- yearly taxes that are computed from market values and cash flows. `Ops` has the scheduled
-- refresh of src/penge/ops/net_worth_refresh.py, which syncs bank connections under a lock, keeps
-- a durable marker as long as committed rows are not in the marts, and has dbt build them in
-- shadow schemas that it then promotes. The aktiesparekonto's calculator takes the results of the
-- lager calculator; all calculators share the lot book's Money. `Sim` has the routing of
-- contributions of src/penge/sim/routing.py, which fills the aktiesparekonto up to its cap.
-- `Household` has the ledger of src/penge/household/service.py: categories, merchants and aliases,
-- the classification of bank movements into allocations, rules that are learned from corrections,
-- their previews, undo, and what a bank sync does to all of these. `Api` has the bank connections of
-- src/penge/api/connections: consents that are linked and authorized, and the sync that the refresh
-- runs for each of them; its reports of writes are the ones that Ops/Lock takes.
--
-- Files and what they model:
--   * Decimal, Decimal/*: Python's decimal.Decimal under the default context, as the calculators
--     use it: a signed coefficient over a power of ten, 28 significant digits, half to even. A
--     value is finite, the sign of a zero is dropped, and a positive exponent is written out as
--     zeros, none of which the calculators can tell. The context's traps that matter are
--     InvalidOperation (quantize with too many digits, 0 / 0) and DivisionByZero. The fuel of
--     `excess` and `digits_from` is the number itself, which has fewer digits than that.
--   * Tax/Lots/Events, Tax/Lots/Book: src/penge/tax/lots.py. An event is what a constructor lets
--     through (make_buy and the others); `apply` and its four branches return the book as it was
--     left beside their result, since what was written before a raise stays written. The dict of
--     lots is an association list in insertion order. Tax/Lots/Queries has the
--     snapshots; Invariant, Failures and Movements have the proofs.
--   * Tax/Lager, Tax/Pal, Tax/Aktiesparekonto, Tax/Vorab: lager.py, pal.py, aktiesparekonto.py and
--     de_vorab.py beside it; their child modules compare them with integer arithmetic.
--   * Tax/Dk/Folkepension, Tax/Dk/Topskat: dk/folkepension.py and dk/topskat.py there, with the
--     figures of dk/rates.py.
--   * Ops/Marker: _WriteTracker. The file system is the surroundings: each operation on the marker
--     takes the next entry of a list of faults.
--   * Ops/Refresh: _sync_one_connection and run_refresh, with the sync function and the end of the
--     dbt call as arguments, as in the source; Durable, Counts, Intact and Inspection have the
--     proofs.
--   * Ops/Lock: _ExclusiveLock and _RefreshWriteIntent. The lock on the file has a holder, who is
--     nobody, another process or this one; unlocking and closing the file are taken to work.
--   * Ops/Promotion: DbtRunner, where a database is a function from schema names to contents.
--   * Sim/Routing: routing.py, its two simulations and the stateless replay.
--   * Household/Schemas, Household/Store: the records of src/penge/household/schemas.py and models.py,
--     and the tables as dicts. A UUID is a number, a fresh one the next; the rows of a transaction
--     are a list under its number, in the order of their writing; an amount, Numeric(20, 4), is its
--     number of ten-thousandths. An operation takes the tables and returns those after the commit,
--     or the HouseholdError, upon which the caller rolls back. The advisory lock runs one operation
--     at a time.
--   * Household/Labels, Categories, Merchants, Outs, Rules, Learn, Splits, Links, Classifications,
--     Previews, Approval, Sync, Details: the functions of service.py. Unicode's case folding and
--     `str` are parameters. The fuel of `walk` is one more than the number of categories. Evolution, Frame
--     and Runs say which operations decide what.
--   * Api/Connections: store.py; Link, Pull, Sync: service.py. Enable Banking's answers, the registry
--     of providers, its adapters and the clock are parameters; an adapter answers for an account and
--     a number of days. The time in an error payload is left out. Edges, Calls, Life, Moves, Recovery
--     and Complete have the proofs.
--   * Tests/*: runs on concrete inputs, and the theorems applied to them.
--   * Prelude, Errors: shared helpers (results, dicts, integers over the native numbers, Python's
--     stable `sorted`) and the exceptions.
--
-- Not modelled: logging, text and JSON output, command lines; subprocess and libpq beyond their
-- outcome; the entry that the refresh makes in the store for an unexpected error; the
-- API's routes, list_eligible_connections, the imports, the connectors, the other simulations and the
-- front ends.
pub mod Prelude
pub mod Errors
pub mod Decimal
pub mod Tax
pub mod Ops
pub mod Sim
pub mod Household
pub mod Api
pub mod Tests
