-- ===== src/Audit/Metadata.antt =====
-- audit/event.go: which metadata, and which event, `Validate` accepts.
use Prim.Native.Nat.{max}
use stumpfworks_framework.Base.{
  ℕ, ◌+◌, ◌≤◌, ◌≡◌, ◌≢◌, ◌↔◌, ◌⊎◌, inl, inr, Bool, true, false, List, [], ◌∷◌, ◌++◌, Option, some,
  Bytes, All, length, ltb, codes, arith, Result, ok, err, ◌>>◌, refl, reject_if-then, Option-cases,
}
use stumpfworks_framework.Sensitive.{is_sensitive_key}
use stumpfworks_framework.Audit.{
  Json, scalar, array, object, Items, no_items, item, Fields, no_fields, field, Event, Error,
  too_deep, sensitive, max_metadata_bytes, inspect, inspect_items, inspect_fields, is_result,
  validate_text, validate_metadata, validate,
}

-- How deep the values in a value are nested.
unfoldable mutual
  pub height : Json → ℕ
  height scalar = 0
  height (array items) = height_items items
  height (object fields) = height_fields fields

  pub height_items : Items → ℕ
  height_items no_items = 0
  height_items (item child more) = max (1 + height child) (height_items more)

  pub height_fields : Fields → ℕ
  height_fields no_fields = 0
  height_fields (field key child more) = max (1 + height child) (height_fields more)

-- The keys of all objects in a value.
unfoldable mutual
  pub keys : Json → List Bytes
  keys scalar = []
  keys (array items) = keys_items items
  keys (object fields) = keys_fields fields

  pub keys_items : Items → List Bytes
  keys_items no_items = []
  keys_items (item child more) = keys child ++ keys_items more

  pub keys_fields : Fields → List Bytes
  keys_fields no_fields = []
  keys_fields (field key child more) = key ∷ (keys child ++ keys_fields more)

-- Two checks one after the other.
both : (a b : Result Error (Unit {0})) → (a >> b) ≡ ok tt → (a ≡ ok tt) × (b ≡ ok tt)
both (ok u) b h = (refl, h)
both (err e) b h = cc

All-append : (P : Bytes → Type 0) (xs ys : List Bytes) → All P xs → All P ys → All P (xs ++ ys)
All-append P [] ys h k = k
All-append P (x ∷ xs) ys (first, h) k = (first, All-append P xs ys h k)

All-split : (P : Bytes → Type 0) (xs ys : List Bytes) → All P (xs ++ ys) → All P xs × All P ys
All-split P [] ys h = (tt, h)
All-split P (x ∷ xs) ys (first, h) = let (a, b) = All-split P xs ys h in ((first, a), b)

module _ (lower : Bytes → Bytes) where
  abbrev pub IsHarmless : Bytes → Type 0
  IsHarmless key = is_sensitive_key lower key ≡ false

  mutual
    unfolding inspect inspect_items inspect_fields height height_items height_fields keys keys_items
        keys_fields

    sound :
        (depth : ℕ) (value : Json)
        → inspect lower depth value ≡ ok tt
        → (depth + height value ≤ 16) × All IsHarmless (keys value)
    sound depth scalar e = (ground arith, tt)
    sound depth (array items) e =
        let (shallow, rest) =
          reject_if-then (ltb 16 depth) too_deep (inspect_items lower (depth + 1) items) e in
        sound_items depth items (ground arith) rest
    sound depth (object fields) e =
        let (shallow, rest) =
          reject_if-then (ltb 16 depth) too_deep (inspect_fields lower (depth + 1) fields) e in
        sound_fields depth fields (ground arith) rest

    sound_items :
        (depth : ℕ) (items : Items)
        → depth ≤ 16
        → inspect_items lower (depth + 1) items ≡ ok tt
        → (depth + height_items items ≤ 16) × All IsHarmless (keys_items items)
    sound_items depth no_items d e = (omega arith, tt)
    sound_items depth (item child more) d e =
        let (first, rest) =
          both (inspect lower (depth + 1) child) (inspect_items lower (depth + 1) more) e in
        let (low, harmless) = sound (depth + 1) child first in
        let (lows, all) = sound_items depth more d rest in
        (omega arith, All-append IsHarmless (keys child) (keys_items more) harmless all)

    sound_fields :
        (depth : ℕ) (fields : Fields)
        → depth ≤ 16
        → inspect_fields lower (depth + 1) fields ≡ ok tt
        → (depth + height_fields fields ≤ 16) × All IsHarmless (keys_fields fields)
    sound_fields depth no_fields d e = (omega arith, tt)
    sound_fields depth (field key child more) d e =
        let (fine, rest) =
          reject_if-then (is_sensitive_key lower key) sensitive
            (inspect lower (depth + 1) child >> inspect_fields lower (depth + 1) more) e in
        let (first, later) =
          both (inspect lower (depth + 1) child) (inspect_fields lower (depth + 1) more) rest in
        let (low, harmless) = sound (depth + 1) child first in
        let (lows, all) = sound_fields depth more d later in
        (omega arith, (fine, All-append IsHarmless (keys child) (keys_fields more) harmless all))

  mutual
    unfolding inspect inspect_items inspect_fields height height_items height_fields keys keys_items
        keys_fields

    complete :
        (depth : ℕ) (value : Json)
        → depth + height value ≤ 16
        → All IsHarmless (keys value)
        → inspect lower depth value ≡ ok tt
    complete depth scalar d h = ground arith
    complete depth (array items) d h = let rest = complete_items depth items d h in ground arith
    complete depth (object fields) d h = let rest = complete_fields depth fields d h in ground arith

    complete_items :
        (depth : ℕ) (items : Items)
        → depth + height_items items ≤ 16
        → All IsHarmless (keys_items items)
        → inspect_items lower (depth + 1) items ≡ ok tt
    complete_items depth no_items d h = refl
    complete_items depth (item child more) d h =
        let (here, later) = All-split IsHarmless (keys child) (keys_items more) h in
        let first = complete (depth + 1) child (omega arith) here in
        rw first (complete_items depth more (omega arith) later)

    complete_fields :
        (depth : ℕ) (fields : Fields)
        → depth + height_fields fields ≤ 16
        → All IsHarmless (keys_fields fields)
        → inspect_fields lower (depth + 1) fields ≡ ok tt
    complete_fields depth no_fields d h = refl
    complete_fields depth (field key child more) d (fine, h) =
        let (here, later) = All-split IsHarmless (keys child) (keys_fields more) h in
        let first = complete (depth + 1) child (omega arith) here in
        rw (fine, first) (complete_fields depth more (omega arith) later)

-- A text in UTF-8 of at most some bytes.
abbrev pub IsText : (Bytes → Bool) → ℕ → Bytes → Type 0
IsText valid_utf8 maximum text = (valid_utf8 text ≡ true) × (length text ≤ maximum)

module _ {M : Type 0} (lower : Bytes → Bytes) (valid_utf8 : Bytes → Bool)
    (marshal : M → Option Bytes) (unmarshal : Bytes → Option Json) where
  -- An event that may be stored.
  pub record IsAcceptable (e : Event M) : Type 0 where
    pub id : (e.id ≢ []) × IsText valid_utf8 128 e.id
    pub dated : e.timestamp ≢ 0
    pub actor : (e.actor ≢ []) × IsText valid_utf8 256 e.actor
    pub action : (e.action ≢ []) × IsText valid_utf8 100 e.action
    pub resource : (e.resource ≢ []) × IsText valid_utf8 512 e.resource
    pub correlation : IsText valid_utf8 128 e.correlation_id
    pub outcome :
        (e.result ≡ codes "success") ⊎ (e.result ≡ codes "failure") ⊎ (e.result ≡ codes "denied")
    pub encoded : Bytes
    pub marshalled : marshal e.metadata ≡ some encoded
    pub short : length encoded ≤ max_metadata_bytes
    pub value : Json
    pub read : unmarshal encoded ≡ some value
    pub shallow : height value ≤ 16
    pub harmless : All (IsHarmless lower) (keys value)

  texts_needed :
      (name value : Bytes) (maximum : ℕ)
      → (validate_text lower valid_utf8 marshal unmarshal name value maximum true ≡ ok tt)
        ↔ ((value ≢ []) × IsText valid_utf8 maximum value)
  unfolding validate_text
  texts_needed name value maximum =
      (λ e. (ground arith, (ground arith, ground arith)), λ (a, (b, c)). ground arith)

  texts_allowed :
      (name value : Bytes) (maximum : ℕ)
      → (validate_text lower valid_utf8 marshal unmarshal name value maximum false ≡ ok tt)
        ↔ IsText valid_utf8 maximum value
  unfolding validate_text
  texts_allowed name value maximum = (λ e. (ground arith, ground arith), λ (b, c). ground arith)

  described :
      (metadata : M)
      → validate_metadata lower valid_utf8 marshal unmarshal metadata ≡ ok tt
      → (encoded : Bytes) × (marshal metadata ≡ some encoded)
        × (length encoded ≤ max_metadata_bytes)
        × ((value : Json) × (unmarshal encoded ≡ some value) × (inspect lower 0 value ≡ ok tt))
  unfolding validate_metadata
  described metadata e = elim (Option-cases (marshal metadata)) [
    | inl lost ↦ absurd (ground arith)
    | inr (encoded, marshalled) ↦ elim (Option-cases (unmarshal encoded)) [
      | inl lost ↦ absurd (ground arith)
      | inr (value, read) ↦ (encoded, marshalled, ground arith, (value, read, ground arith))
    ]
  ]

  validated :
      (e : Event M)
      → validate lower valid_utf8 marshal unmarshal e ≡ ok tt
      → (validate_text lower valid_utf8 marshal unmarshal (codes "event ID") e.id 128 true ≡ ok tt)
        × (e.timestamp ≢ 0)
        × (validate_text lower valid_utf8 marshal unmarshal (codes "actor") e.actor 256 true
            ≡ ok tt)
        × (validate_text lower valid_utf8 marshal unmarshal (codes "action") e.action 100 true
            ≡ ok tt)
        × (validate_text lower valid_utf8 marshal unmarshal (codes "resource") e.resource 512 true
            ≡ ok tt)
        × (validate_text lower valid_utf8 marshal unmarshal
              (codes "correlation ID")
              e.correlation_id
              128
              false
            ≡ ok tt)
        × (is_result e.result ≡ true)
        × (validate_metadata lower valid_utf8 marshal unmarshal e.metadata ≡ ok tt)
  unfolding validate
  validated e h = (
    ground arith,
    ground arith,
    ground arith,
    ground arith,
    ground arith,
    ground arith,
    ground arith,
    ground arith,
  )

  -- `Validate` accepts an event exactly if its ID, actor, action and resource are texts in UTF-8 that
  -- are given and at most 128, 256, 100 and 512 bytes long, the correlation ID is one of at most 128, it
  -- is dated, its result is success, failure or denied, and its metadata is JSON of at most 16 KiB, in
  -- which no value is nested deeper than 16 and no object has a sensitive key at any depth.
  pub validate-IsAcceptable :
      (e : Event M) → (validate lower valid_utf8 marshal unmarshal e ≡ ok tt) ↔ IsAcceptable e
  unfolding validate validate_metadata
  validate-IsAcceptable e = (
    λ valid.
        let (id, dated, actor, action, resource, correlation, outcome, metadata) =
          validated e valid in
        let (encoded, marshalled, short, (value, read, inspected)) =
          described e.metadata metadata in
        let (low, harmless) = sound lower 0 value inspected in
        record {
          id = (texts_needed (codes "event ID") e.id 128).0 id;
          dated = dated;
          actor = (texts_needed (codes "actor") e.actor 256).0 actor;
          action = (texts_needed (codes "action") e.action 100).0 action;
          resource = (texts_needed (codes "resource") e.resource 512).0 resource;
          correlation = (texts_allowed (codes "correlation ID") e.correlation_id 128).0 correlation;
          outcome = ground arith;
          encoded = encoded;
          marshalled = marshalled;
          short = short;
          value = value;
          read = read;
          shallow = omega (arith, low);
          harmless = harmless;
        },
    λ h.
        let id = (texts_needed (codes "event ID") e.id 128).1 h.id in
        let actor = (texts_needed (codes "actor") e.actor 256).1 h.actor in
        let action = (texts_needed (codes "action") e.action 100).1 h.action in
        let resource = (texts_needed (codes "resource") e.resource 512).1 h.resource in
        let correlation =
          (texts_allowed (codes "correlation ID") e.correlation_id 128).1 h.correlation in
        let inspected = complete lower 0 h.value (omega (arith, h.shallow)) h.harmless in
        ground (
          arith, id, actor, action, resource, correlation, inspected, h.dated, h.outcome,
          h.marshalled, h.short, h.read,
        ),
  )
