-- ===== src/Web/Validation.antt =====
-- web/validation/json.go: JSON bodies of a bounded size. The media type and the JSON decoder are
-- parameters: the decoder of a limited body is what its two calls of `Decode` return.
pub mod Bodies
pub mod Tests
use stumpfworks_framework.Base.{
  ℕ, Bool, true, false, not, ◌||◌, Option, none, some, Bytes, eqb, codes, if◌then◌else◌, Result, ok,
  err, ℤ, is_positive,
}
use stumpfworks_framework.Errors.{Error, new, wrap, wrapped, has_kind}

-- The errors that `decodeError` tells apart, and all others.
pub data Kind : Type 0 where
  too_many_bytes syntax unexpected_eof eof type_mismatch other : Kind

abbrev pub is_too_many_bytes : Kind → Bool
is_too_many_bytes k = elim k [ too_many_bytes ↦ true | _ ↦ false ]

abbrev pub is_syntax : Kind → Bool
is_syntax k = elim k [ syntax ↦ true | _ ↦ false ]

abbrev pub is_unexpected_eof : Kind → Bool
is_unexpected_eof k = elim k [ unexpected_eof ↦ true | _ ↦ false ]

abbrev pub is_eof : Kind → Bool
is_eof k = elim k [ eof ↦ true | _ ↦ false ]

abbrev pub is_type_mismatch : Kind → Bool
is_type_mismatch k = elim k [ type_mismatch ↦ true | _ ↦ false ]

-- `decodeError`
unfoldable pub decode_error : Error Kind → Error Kind
decode_error e =
    if has_kind is_too_many_bytes e
    then wrap (codes "request_too_large") (codes "Request body is too large") (some e)
    else if has_kind is_syntax e || has_kind is_unexpected_eof e
    then wrap (codes "malformed_json") (codes "Request body contains malformed JSON") (some e)
    else if has_kind is_eof e
    then wrap (codes "empty_body") (codes "Request body must not be empty") (some e)
    else if has_kind is_type_mismatch e
    then wrap (codes "invalid_json_type") (codes "Request body contains an invalid value type")
        (some e)
    else wrap (codes "invalid_json") (codes "Request body is invalid")
        (some (wrapped (codes "decode JSON") e))

-- What a decoder's calls of `Decode` return, into the destination and then into an empty struct; nil
-- is `none`.
pub record Decoder : Type 0 where
  pub first : Option (Error Kind)
  pub second : Option (Error Kind)

-- `DecodeJSON`, from the first `Decode` on.
unfoldable pub decode_body : Decoder → Option (Error Kind)
decode_body d = elim d.first [
  | some e ↦ some (decode_error e)
  | none ↦ elim d.second [
    | none ↦
        some
          (new (codes "malformed_json") (codes "Request body must contain exactly one JSON value"))
    | some e ↦ if has_kind is_eof e then none else some (decode_error e)
  ]
]

module _ (parse_media_type : Bytes → Result (Error Kind) Bytes) where
  -- `DecodeJSON`, for a destination that is there or nil, the `Content-Type` and the body: the decoder
  -- of at most so many bytes of it.
  unfoldable pub decode_json : Bool → ℤ → Bytes → (ℤ → Decoder) → Option (Error Kind)
  decode_json has_destination max_bytes content_type body =
      if not has_destination
      then some
          (new (codes "invalid_decoder_target") (codes "The server could not process the request"))
      else if not (is_positive max_bytes)
      then some
          (new (codes "invalid_body_limit") (codes "The server could not process the request"))
      else elim (parse_media_type content_type) [
        | err e ↦ some (
            wrap (codes "unsupported_media_type") (codes "Content-Type must be application/json")
              (some e))
        | ok media_type ↦
            if not (eqb media_type (codes "application/json"))
            then some (
                wrap (codes "unsupported_media_type")
                  (codes "Content-Type must be application/json") none)
            else decode_body (body max_bytes)
      ]
