-- ===== src/Audit/Store.antt =====
-- audit/postgres/store.go and the table of audit/postgres/migrations: the append-only store of events.
-- How the server converts a row, and how an `Exec` ends apart from the table's constraints, are
-- parameters, as JSON is.
pub mod Kept
pub mod Tests
use stumpfworks_framework.Base.{
  ℕ, Bool, true, false, not, List, [], ◌∷◌, Option, none, some, Bytes, Bytes-discrete, lookup,
  insert, Result, ok, err, if◌then◌else◌,
}
use stumpfworks_framework.Audit.{Json, Event, Error, validate, is_result}

pub data StoreError : Type 0 where
  no_pool append_failed not_encoded : StoreError
  not_valid : Error → StoreError

-- `New`: whether there is a pool.
unfoldable pub new : Option ℕ → Result StoreError ℕ
new pool = elim pool [ none ↦ err no_pool | some p ↦ ok p ]

-- A row of `swf_audit_events`, as it is sent and as it is kept: the event with the text of its
-- metadata.
abbrev pub Row : Type 0
Row = Event Bytes

abbrev pub Table : Type 0
Table = List (Bytes × Row)

abbrev pub row_of : {M : Type 0} → Event M → Bytes → Row
row_of e encoded = record {
  id = e.id;
  timestamp = e.timestamp;
  actor = e.actor;
  action = e.action;
  resource = e.resource;
  result = e.result;
  correlation_id = e.correlation_id;
  metadata = encoded;
}

-- How an `Exec` of the `INSERT` ends, the table's constraints aside: its answer comes, the server
-- refuses it, or it is committed and its answer is lost.
pub data Ending : Type 0 where
  acknowledged refused lost : Ending

-- The server, and the driver's encoding of what it is sent: what the columns of type timestamptz and
-- jsonb keep of a time and of a text.
pub record Server : Type 0 where
  pub to_timestamptz : ℕ → ℕ
  pub to_jsonb : Bytes → Option Bytes
  pub ending : Row → Ending

abbrev pub kept_row : Server → Row → Bytes → Row
kept_row server row json = record row {
  timestamp = server.to_timestamptz row.timestamp;
  metadata = json;
}

-- Whether `Exec` returns nil, and the table after it.
abbrev pub ended : Ending → Table → Table → Bool × Table
ended acknowledged before after = (true, after)
ended refused before after = (false, before)
ended lost before after = (false, after)

-- The `INSERT`: the primary key and the constraint on the result come first.
unfoldable pub insert_row : Server → Row → Table → Bool × Table
insert_row server row table = elim (server.to_jsonb row.metadata) [
  | none ↦ (false, table)
  | some json ↦ elim (lookup Bytes-discrete row.id table) [
    | some old ↦ (false, table)
    | none ↦
        if not (is_result row.result)
        then (false, table)
        else ended (server.ending row) table
            (insert Bytes-discrete row.id (kept_row server row json) table)
  ]
]

module _ {M : Type 0} (lower : Bytes → Bytes) (valid_utf8 : Bytes → Bool)
    (marshal : M → Option Bytes) (unmarshal : Bytes → Option Json) (server : Server) where
  -- `Append`
  unfoldable pub append : Event M → Table → Result StoreError (Unit {0}) × Table
  append e table = elim (validate lower valid_utf8 marshal unmarshal e) [
    | err reason ↦ (err (not_valid reason), table)
    | ok u ↦ elim (marshal e.metadata) [
      | none ↦ (err not_encoded, table)
      | some encoded ↦
          let (done, after) = insert_row server (row_of e encoded) table in
          if done then (ok tt, after) else (err append_failed, after)
    ]
  ]

  -- Calls one after the other.
  pub append_all : List (Event M) → Table → Table
  append_all [] table = table
  append_all (e ∷ more) table = append_all more (append e table).1
