-- ===== src/Migrate.antt =====
-- data/migrate/migrate.go: forward-only schema migrations. A database is its table of applied
-- migrations and a schema of any type; SQL and SHA-256 are parameters, and so is a failure of the
-- database at any statement. A transaction works on a copy that only `Commit` publishes.
pub mod Load
pub mod Ordered
pub mod Applied
pub mod Tests
use stumpfworks_framework.Base.{
  ℕ, Bool, true, false, not, ◌||◌, List, [], ◌∷◌, Option, none, some, Bytes, eqb, if◌then◌else◌,
  lookup, insert, ℕ_discrete, Result, ok, err,
}

pub record Migration : Type 0 where
  pub version : ℕ
  pub name : Bytes
  pub sql : Bytes
  pub checksum : Bytes

pub data Error : Type 0 where
  no_pool begin_failed lock_failed table_failed state_unreadable commit_failed : Error
  checksum_changed apply_failed record_failed : ℕ → Error

-- `applied` is the table `swf_schema_migrations`: the checksums by version. Its other columns are
-- never read.
pub record Database (Schema : Type 0) : Type 0 where
  pub schema : Schema
  pub applied : List (ℕ × Bytes)

-- The statements that may fail for a reason of their own.
pub record Faults : Type 0 where
  pub begins : Bool
  pub locks : Bool
  pub creates : Bool
  pub reads : Bool
  pub commits : Bool

-- A version is a primary key, so inserting one that is there fails.
abbrev pub is_taken : ℕ → List (ℕ × Bytes) → Bool
is_taken v table = elim (lookup ℕ_discrete v table) [ none ↦ false | some checksum ↦ true ]

module _ {Schema : Type 0} (execute : Bytes → Schema → Option Schema) (records : ℕ → Bool) where
  -- One pass of the loop for a migration that is not applied yet.
  pub apply_one : Migration → Database Schema → Result Error (Database Schema)
  apply_one m db = elim (execute m.sql db.schema) [
    | none ↦ err (apply_failed m.version)
    | some schema ↦
        if not (records m.version) || is_taken m.version db.applied
        then err (record_failed m.version)
        else ok (record {
          schema = schema;
          applied = insert ℕ_discrete m.version m.checksum db.applied;
        })
  ]

  -- The loop over the migrations. `before` is the map that was read when it began.
  unfoldable pub apply_all :
      List (ℕ × Bytes) → List Migration → Database Schema → Result Error (Database Schema)
  apply_all before [] db = ok db
  apply_all before (m ∷ more) db = elim (lookup ℕ_discrete m.version before) [
    | some checksum ↦
        let rest = apply_all before more db in
        if not (eqb checksum m.checksum) then err (checksum_changed m.version) else rest
    | none ↦ elim (apply_one m db) [ err e ↦ err e | ok next ↦ apply_all before more next ]
  ]

  -- `Apply`: what it returns and the database afterwards.
  unfoldable pub apply :
      Bool → Faults → List Migration → Database Schema → Result Error (Unit {0}) × Database Schema
  apply has_pool f migrations db =
      if not has_pool
      then (err no_pool, db)
      else if not f.begins
      then (err begin_failed, db)
      else if not f.locks
      then (err lock_failed, db)
      else if not f.creates
      then (err table_failed, db)
      else if not f.reads
      then (err state_unreadable, db)
      else elim (apply_all db.applied migrations db) [
        | err e ↦ (err e, db)
        | ok after ↦ if not f.commits then (err commit_failed, db) else (ok tt, after)
      ]
