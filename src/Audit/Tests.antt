-- ===== src/Audit/Tests.antt =====
-- audit/event_test.go: an event, and metadata with a sensitive key further in. A text that begins with a
-- capital stands for the metadata here.
use stumpfworks_framework.Base.{
  ◌≡◌, ◌↔◌, refl, Bool, true, [], Option, some, Bytes, Bytes-discrete, codes, ok, err,
}
use stumpfworks_framework.Sensitive.{is_sensitive_key, redact_attr}
use stumpfworks_framework.Audit.{
  Json, scalar, array, object, item, no_items, field, no_fields, Event, sensitive, required,
  inspect, validate_text, validate_metadata, validate,
}
use stumpfworks_framework.Audit.Metadata.{IsAcceptable, validate-IsAcceptable}

abbrev as_is : Bytes → Bytes
as_is text = text

abbrev always : Bytes → Bool
always text = true

-- The metadata is a value here, and its encoding empty.
abbrev nested : Bytes → Json
nested key = object (
    field (codes "request") (array (item (object (field key scalar no_fields)) no_items)) no_fields)

abbrev marshal : Bytes → Option Bytes
marshal key = some key

abbrev unmarshal : Bytes → Option Json
unmarshal key = some (nested key)

abbrev event : Bytes → Event Bytes
event key = record {
  id = codes "1";
  timestamp = 1;
  actor = codes "alice";
  action = codes "login";
  resource = codes "app";
  result = codes "denied";
  correlation_id = [];
  metadata = key;
}

code : Unit {0}
unfolding validate validate_text validate_metadata inspect is_sensitive_key redact_attr
    Bytes-discrete
code = tt

accepts : validate as_is always marshal unmarshal (event (codes "path")) ≡ ok tt
unfolding code
accepts = refl

finds_key : validate as_is always marshal unmarshal (event (codes "db.api-key")) ≡ err sensitive
unfolding code
finds_key = refl

needs_actor :
    validate as_is always marshal unmarshal (record (event []) { actor = [] })
    ≡ err (required (codes "actor"))
unfolding code
needs_actor = refl

redacts :
    redact_attr as_is (record { key = codes "db-password"; value = codes "x" })
    ≡ record { key = codes "db-password"; value = codes "[REDACTED]" }
unfolding code
redacts = refl

validate-IsAcceptable_example :
    (validate as_is always marshal unmarshal (event (codes "path")) ≡ ok tt)
    ↔ IsAcceptable as_is always marshal unmarshal (event (codes "path"))
validate-IsAcceptable_example =
    validate-IsAcceptable as_is always marshal unmarshal (event (codes "path"))
