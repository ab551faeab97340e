-- ===== src/Ops/Promotion.antt =====
-- `DbtRunner` (src/penge/ops/net_worth_refresh.py): the shadow schemas and their promotion. A
-- database is a function from schema names to what the schema holds; a statement that PostgreSQL
-- refuses raises, and the transaction around it leaves the database as it was.
pub mod Atomic
pub mod Guard
use penge.Prelude.{
  String, Bool, true, false, List, [], ◌∷◌, Option, none, some, Result, ok, err, ◌>>=◌, ◌>>◌,
  if◌then◌else◌,
}
use penge.Prelude.Eq.{string_eq}

-- What a schema holds is of no concern here.
abbrev pub Database : Type 0 → Type 0
Database A = String → Option A

pub data DbtError : Type 0 where
  dbt_refresh_error database_error : DbtError

-- REFRESH_SCHEMAS, LIVE_SCHEMAS and PREVIOUS_SCHEMAS
abbrev pub refresh_staging : String
refresh_staging = "analytics_refresh_staging"

abbrev pub refresh_marts : String
refresh_marts = "analytics_refresh_marts"

abbrev pub live_staging : String
live_staging = "analytics_staging"

abbrev pub live_marts : String
live_marts = "analytics_marts"

abbrev pub previous_staging : String
previous_staging = "analytics_previous_staging"

abbrev pub previous_marts : String
previous_marts = "analytics_previous_marts"

-- How a call ends, and the database that is left.
abbrev pub Ended : Type 0 → Type 0
Ended A = Result DbtError Unit × Database A

-- The dbt command: its return code is nought or not, and what it made of the database.
abbrev pub Build : Type 0 → Type 0
Build A = Database A → Bool × Database A

module _ {A : Type 0} where
  -- DROP SCHEMA IF EXISTS name CASCADE
  unfoldable pub drop_schema : String → Database A → Database A
  drop_schema name db = λ n. if string_eq.beq n name then none else db n

  -- ALTER SCHEMA old RENAME TO new: refused without `old`, or with `new` there.
  unfoldable pub rename_schema : String → String → Database A → Result DbtError (Database A)
  rename_schema old new db = elim (db old) [
    | none ↦ err database_error
    | some content ↦ elim (db new) [
      | some _ ↦ err database_error
      | none ↦ ok (λ n.
          if string_eq.beq n new then some content else if string_eq.beq n old then none else db n)
    ]
  ]

  abbrev pub has : Database A → String → Bool
  has db name = elim (db name) [ none ↦ false | some _ ↦ true ]

  unfoldable pub drop_shadow_schemas : Database A → Database A
  unfolding drop_schema
  drop_shadow_schemas db = drop_schema refresh_marts (drop_schema refresh_staging db)

  unfoldable pub drop_previous_schemas : Database A → Database A
  unfolding drop_schema
  drop_previous_schemas db = drop_schema previous_marts (drop_schema previous_staging db)

  -- `if live in available`, where `available` was read before the first statement.
  unfoldable pub retire : Bool → String → String → Database A → Result DbtError (Database A)
  unfolding rename_schema
  retire available live previous db = if available then rename_schema live previous db else ok db

  -- The statements of the promotion; the two Booleans say which live schemas there were.
  unfoldable pub swap : Bool → Bool → Database A → Result DbtError (Database A)
  unfolding retire rename_schema drop_previous_schemas
  swap staging marts db = do
    db1 ← retire staging live_staging previous_staging (drop_previous_schemas db)
    db2 ← retire marts live_marts previous_marts db1
    db3 ← rename_schema refresh_staging live_staging db2
    db4 ← rename_schema refresh_marts live_marts db3
    ok (drop_previous_schemas db4)

  unfoldable pub promote : Database A → Result DbtError (Database A)
  unfolding swap
  promote db =
      let changed = swap (has db live_staging) (has db live_marts) db in
      if has db refresh_staging
      then (if has db refresh_marts then changed else err dbt_refresh_error)
      else err dbt_refresh_error

  -- `with self._engine.begin()`: committed, or rolled back.
  abbrev pub transaction : Database A → Result DbtError (Database A) → Ended A
  transaction db (ok changed) = (ok tt, changed)
  transaction db (err e) = (err e, db)

  -- The cleanup that follows whatever happened: its failure is logged and changes no outcome.
  abbrev pub clean_up : Bool → Ended A → Ended A
  clean_up works (r, db) = (r, if works then drop_shadow_schemas db else db)

  -- `refresh`; the two Booleans say that the first drop and the cleanup reach the database.
  unfoldable pub refresh : Build A → (drop_works cleanup_works : Bool) → Database A → Ended A
  unfolding drop_shadow_schemas promote
  refresh build drop_works cleanup_works db =
      let built : Bool × Database A = build (drop_shadow_schemas db) in
      if drop_works
      then clean_up cleanup_works (
          if built.0
          then transaction built.1 (promote built.1)
          else (err dbt_refresh_error, built.1))
      else (err database_error, db)
