-- ===== src/Web/Validation/Tests.antt =====
-- web/validation/json_test.go: one value, two values, a body over the limit and a wrong media type.
use stumpfworks_framework.Base.{
  ◌≡◌, refl, true, Option, none, some, Bytes, Bytes-discrete, codes, Result, ok, ℤ, pos,
}
use stumpfworks_framework.Errors.{
  Error, plain, wrapped, caused, coded, new, wrap, has_kind, as_coded,
}
use stumpfworks_framework.Web.Problem.{Details}
use stumpfworks_framework.Web.Validation.{
  Kind, too_many_bytes, eof, Decoder, decode_error, decode_body, decode_json,
}
use stumpfworks_framework.Web.Validation.Bodies.{IsJson, IsAnswered, decode_json-IsAnswered}

abbrev parse_media_type : Bytes → Result (Error Kind) Bytes
parse_media_type text = ok text

abbrev json : Bytes
json = codes "application/json"

abbrev at_end : Error Kind
at_end = plain eof (codes "EOF")

abbrev too_long : Error Kind
too_long = plain too_many_bytes (codes "http: request body too large")

abbrev body : Option (Error Kind) → Option (Error Kind) → ℤ → Decoder
body first second limit = record { first = first; second = second }

code : Unit {0}
unfolding new wrap has_kind as_coded decode_error decode_body decode_json Bytes-discrete
code = tt

accepts : decode_json parse_media_type true (pos 64) json (body none (some at_end)) ≡ none
unfolding code
accepts = refl

wants_one :
    decode_json parse_media_type true (pos 64) json (body none none)
    ≡ some (
        coded (record {
          code = codes "malformed_json";
          public_message = codes "Request body must contain exactly one JSON value";
        }))
unfolding code
wants_one = refl

reports_limit :
    decode_json parse_media_type true
      (pos 64)
      json
      (body (some (wrapped (codes "read") too_long)) none)
    ≡ some (
        caused
          (record {
            code = codes "request_too_large";
            public_message = codes "Request body is too large";
          })
          (wrapped (codes "read") too_long))
unfolding code
reports_limit = refl

wants_media_type :
    decode_json parse_media_type true (pos 64) (codes "text/plain") (body none (some at_end))
    ≡ some (
        coded (record {
          code = codes "unsupported_media_type";
          public_message = codes "Content-Type must be application/json";
        }))
unfolding code
wants_media_type = refl

decode_json-IsAnswered_example :
    IsAnswered
      (IsJson parse_media_type true (pos 64) json (body none (some at_end)))
      (decode_json parse_media_type true (pos 64) json (body none (some at_end)))
decode_json-IsAnswered_example =
    decode_json-IsAnswered parse_media_type true (pos 64) json (body none (some at_end))

abbrev encode : Details → Bytes
encode d = d.title
