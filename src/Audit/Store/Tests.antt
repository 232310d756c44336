-- ===== src/Audit/Store/Tests.antt =====
-- audit/postgres/store_test.go: events that are appended, and a second one with the ID of the first.
-- The metadata is a text that is its own encoding here, and no value of it is an object.
use stumpfworks_framework.Base.{
  ◌≡◌, ◌≢◌, ◌↔◌, ◌⊎◌, ◌/◌, refl, Bool, true, [], ◌∷◌, Option, none, some, Bytes, Bytes-discrete,
  codes, ok, err, lookup, insert,
}
use stumpfworks_framework.Audit.{
  Json, scalar, Event, required, inspect, validate_text, validate_metadata, validate,
}
use stumpfworks_framework.Audit.Store.{
  Table, Ending, acknowledged, lost, Server, no_pool, append_failed, not_valid, new, row_of,
  insert_row, append, append_all,
}
use stumpfworks_framework.Audit.Store.Kept.{find, IsStorable, IsStored, append_iff, append_lasts}

abbrev as_is : Bytes → Bytes
as_is text = text

abbrev always : Bytes → Bool
always text = true

abbrev marshal : Bytes → Option Bytes
marshal text = some text

abbrev unmarshal : Bytes → Option Json
unmarshal text = some scalar

-- A server that counts microseconds; `Exec` ends as given.
abbrev server_with : Ending → Server
server_with ending = record {
  to_timestamptz = λ t. t / 1000;
  to_jsonb = marshal;
  ending = λ row. ending;
}

abbrev server : Server
server = server_with acknowledged

abbrev event : Bytes → Bytes → Event Bytes
event id actor = record {
  id = id;
  timestamp = 5001;
  actor = actor;
  action = codes "login";
  resource = codes "app";
  result = codes "success";
  correlation_id = [];
  metadata = codes "{}";
}

abbrev first : Event Bytes
first = event (codes "1") (codes "alice")

abbrev again : Event Bytes
again = event (codes "1") (codes "bob")

abbrev holding : Table
holding = (codes "1", record (row_of first (codes "{}")) { timestamp = 5 }) ∷ []

code : Unit {0}
unfolding validate validate_text validate_metadata inspect Bytes-discrete lookup insert insert_row
    append append_all new
code = tt

appends : append as_is always marshal unmarshal server first [] ≡ (ok tt, holding)
unfolding code
appends = refl

loses_answer :
    append as_is always marshal unmarshal (server_with lost) first [] ≡ (err append_failed, holding)
unfolding code
loses_answer = refl

rejects_duplicate :
    append as_is always marshal unmarshal server again holding ≡ (err append_failed, holding)
unfolding code
rejects_duplicate = refl

rejects_invalid :
    append as_is always marshal unmarshal server (event (codes "2") []) holding
    ≡ (err (not_valid (required (codes "actor"))), holding)
unfolding code
rejects_invalid = refl

needs_pool : new none ≡ err no_pool
unfolding code
needs_pool = refl

succeeds : (append as_is always marshal unmarshal server first []).0 ≡ ok tt
unfolding code
succeeds = refl

append_iff_example :
    let run = append as_is always marshal unmarshal server first [] in
    ((run.0 ≡ ok tt) ↔ IsStorable as_is always marshal unmarshal server first [])
    × (run.0 ≡ ok tt → IsStored as_is always marshal unmarshal server first [] run.1)
    × (run.0 ≢ ok tt
        → (run.1 ≡ [])
          ⊎ ((h : IsStored as_is always marshal unmarshal server first [] run.1) × (server.ending
                  (row_of first h.acceptable.encoded)
                ≡ lost)))
append_iff_example = append_iff as_is always marshal unmarshal server first []

append_lasts_example :
    (encoded json : Bytes) × (marshal (codes "{}") ≡ some encoded)
    × (server.to_jsonb encoded ≡ some json)
    × (find (codes "1") (
          append_all as_is always marshal unmarshal server
            (again ∷ [])
            (append as_is always marshal unmarshal server first []).1)
        ≡ some (record (row_of first json) { timestamp = server.to_timestamptz 5001 }))
append_lasts_example =
    append_lasts as_is always marshal unmarshal server first [] (again ∷ []) succeeds
