-- ===== src/Audit.antt =====
-- audit/event.go: the envelope of an audit event. JSON, UTF-8 and `strings.ToLower` are parameters.
pub mod Metadata
pub mod Store
pub mod Tests
use stumpfworks_framework.Base.{
  ℕ, ◌+◌, ◌*◌, Bool, true, false, not, ◌&&◌, Option, ◌==◌, Bytes, any, length, ltb, eqb, is_empty,
  codes, List, [], ◌∷◌, Result, ok, err, ◌>>=◌, ◌>>◌, or_fail, reject_if,
}
use stumpfworks_framework.Sensitive.{is_sensitive_key}

abbrev pub max_metadata_bytes : ℕ
max_metadata_bytes = 16 * 1024

-- What `json.Unmarshal` gives for an `any`: an object is a list of its fields, in the order in which
-- the loop over the map sees them.
mutual
  pub data Json : Type 0 where
    scalar : Json
    array : Items → Json
    object : Fields → Json

  pub data Items : Type 0 where
    no_items : Items
    item : Json → Items → Items

  pub data Fields : Type 0 where
    no_fields : Fields
    field : Bytes → Json → Fields → Fields

-- `M` stands for the type of the metadata; a zero timestamp is 0.
pub record Event (M : Type 0) : Type 0 where
  pub id : Bytes
  pub timestamp : ℕ
  pub actor : Bytes
  pub action : Bytes
  pub resource : Bytes
  pub result : Bytes
  pub correlation_id : Bytes
  pub metadata : M

pub data Error : Type 0 where
  required not_utf8 too_long : Bytes → Error
  no_timestamp bad_result bad_json metadata_too_long too_deep sensitive : Error

-- `success`, `failure` and `denied`.
abbrev pub is_result : Bytes → Bool
is_result r = any (λ t. eqb r t) (codes "success" ∷ codes "failure" ∷ codes "denied" ∷ [])

module _ (lower : Bytes → Bytes) where
  unfoldable mutual
    -- `inspectMetadata`
    pub inspect : ℕ → Json → Result Error (Unit {0})
    inspect depth scalar = reject_if (ltb 16 depth) too_deep
    inspect depth (array items) = do
      reject_if (ltb 16 depth) too_deep
      inspect_items (depth + 1) items
    inspect depth (object fields) = do
      reject_if (ltb 16 depth) too_deep
      inspect_fields (depth + 1) fields

    pub inspect_items : ℕ → Items → Result Error (Unit {0})
    inspect_items depth no_items = ok tt
    inspect_items depth (item child more) = do inspect depth child; inspect_items depth more

    pub inspect_fields : ℕ → Fields → Result Error (Unit {0})
    inspect_fields depth no_fields = ok tt
    inspect_fields depth (field key child more) = do
      reject_if (is_sensitive_key lower key) sensitive
      inspect depth child
      inspect_fields depth more

module _ {M : Type 0} (lower : Bytes → Bytes) (valid_utf8 : Bytes → Bool)
    (marshal : M → Option Bytes) (unmarshal : Bytes → Option Json) where
  -- `validateText`
  pub validate_text : Bytes → Bytes → ℕ → Bool → Result Error (Unit {0})
  validate_text name value maximum is_required = do
    reject_if (is_required && is_empty value) (required name)
    reject_if (not (valid_utf8 value)) (not_utf8 name)
    reject_if (ltb maximum (length value)) (too_long name)

  -- `validateMetadata`
  pub validate_metadata : M → Result Error (Unit {0})
  validate_metadata metadata = do
    encoded ← or_fail (marshal metadata) bad_json
    reject_if (ltb max_metadata_bytes (length encoded)) metadata_too_long
    value ← or_fail (unmarshal encoded) bad_json
    inspect lower 0 value

  -- `Event.Validate`
  unfoldable pub validate : Event M → Result Error (Unit {0})
  validate e = do
    validate_text (codes "event ID") e.id 128 true
    reject_if (e.timestamp == 0) no_timestamp
    validate_text (codes "actor") e.actor 256 true
    validate_text (codes "action") e.action 100 true
    validate_text (codes "resource") e.resource 512 true
    validate_text (codes "correlation ID") e.correlation_id 128 false
    reject_if (not (is_result e.result)) bad_result
    validate_metadata e.metadata
