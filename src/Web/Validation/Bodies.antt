-- ===== src/Web/Validation/Bodies.antt =====
-- web/validation/json.go, `DecodeJSON`: which bodies it accepts, and what its errors show.
use stumpfworks_framework.Base.{
  ℕ, ◌<◌, get_elem?, ◌≡◌, ◌↔◌, inl, inr, refl, sym, ap, ◌∙◌, Bool, true, false, ◌||◌, List, [], ◌∷◌,
  Option, none, some, Bytes, eqb, codes, Result, ok, ℤ, is_positive, IsPositive, is_positive_iff,
  arith, Bool-cases, Option-cases, Result-cases,
}
use stumpfworks_framework.Errors.{CodedError, Error, new, wrap, has_kind, as_coded}
use stumpfworks_framework.Web.Validation.{
  Kind, is_eof, is_too_many_bytes, is_syntax, is_unexpected_eof, is_type_mismatch, decode_error,
  Decoder, decode_body, decode_json,
}

abbrev text : Bytes → Bytes → CodedError
text code public_message = record { code = code; public_message = public_message }

-- The codes and messages that an answer may show.
abbrev pub public_errors : List CodedError
public_errors =
    text (codes "invalid_decoder_target") (codes "The server could not process the request")
    ∷ text (codes "invalid_body_limit") (codes "The server could not process the request")
    ∷ text (codes "unsupported_media_type") (codes "Content-Type must be application/json")
    ∷ text (codes "request_too_large") (codes "Request body is too large")
    ∷ text (codes "malformed_json") (codes "Request body contains malformed JSON")
    ∷ text (codes "malformed_json") (codes "Request body must contain exactly one JSON value")
    ∷ text (codes "empty_body") (codes "Request body must not be empty")
    ∷ text (codes "invalid_json_type") (codes "Request body contains an invalid value type")
    ∷ text (codes "invalid_json") (codes "Request body is invalid")
    ∷ []

-- The coded error that is found in the chain is one of them.
abbrev pub IsPublic : Error Kind → Type 0
IsPublic e = (n : ℕ) × (n < 9) × (as_coded e ≡ get_elem? public_errors n)

decode_error-IsPublic : (e : Error Kind) → IsPublic (decode_error e)
unfolding decode_error wrap as_coded
decode_error-IsPublic e = elim (Bool-cases (has_kind is_too_many_bytes e)) [
  | inl a ↦ rw a (3, omega arith, refl)
  | inr a ↦ elim (Bool-cases (has_kind is_syntax e || has_kind is_unexpected_eof e)) [
    | inl b ↦ rw (a, b) (4, omega arith, refl)
    | inr b ↦ elim (Bool-cases (has_kind is_eof e)) [
      | inl c ↦ rw (a, b, c) (6, omega arith, refl)
      | inr c ↦ elim (Bool-cases (has_kind is_type_mismatch e)) [
        | inl d ↦ rw (a, b, c, d) (7, omega arith, refl)
        | inr d ↦ rw (a, b, c, d) (8, omega arith, refl)
      ]
    ]
  ]
]

-- One JSON value and nothing behind it.
pub record IsOneValue (d : Decoder) : Type 0 where
  pub decoded : d.first ≡ none
  pub rest : Error Kind
  pub ends : d.second ≡ some rest
  pub is_end : has_kind is_eof rest ≡ true

pub record IsAnswered (accepted : Type 0) (result : Option (Error Kind)) : Type 0 where
  pub accepts : (result ≡ none) ↔ accepted
  pub shows : (e : Error Kind) → result ≡ some e → IsPublic e

decode_body-IsAnswered : (d : Decoder) → IsAnswered (IsOneValue d) (decode_body d)
unfolding decode_body
decode_body-IsAnswered d = elim (Option-cases d.first) [
  | inr (e, failed) ↦
      rw (decode_body, failed)
        (record {
          accepts = (λ h. cc, λ h. absurd (let i = h.decoded in cc));
          shows = λ f i. let j : decode_error e ≡ f = cc in rw (sym j) (decode_error-IsPublic e);
        })
  | inl decoded ↦ elim (Option-cases d.second) [
    | inl more ↦
        rw (decode_body, decoded, more)
          (record {
            accepts = (λ h. cc, λ h. absurd (let i = h.ends in cc));
            shows = λ f i.
                let j : new {K = Kind} (codes "malformed_json")
                      (codes "Request body must contain exactly one JSON value")
                    ≡ f =
                  cc in
                rw (sym j) (5, omega arith, unfold new as_coded in refl);
          })
    | inr (e, ends) ↦ elim (Bool-cases (has_kind is_eof e)) [
      | inl is_end ↦
          rw (decode_body, decoded, ends, is_end)
            (record {
              accepts = (
                λ h. record { decoded = refl; rest = e; ends = refl; is_end = is_end },
                λ h. refl,
              );
              shows = λ f i. cc;
            })
      | inr trailing ↦
          rw (decode_body, decoded, ends, trailing)
            (record {
              accepts = (λ h. cc, λ h. absurd (let i = h.ends in let j = h.is_end in cc));
              shows =
                  λ f i. let j : decode_error e ≡ f = cc in rw (sym j) (decode_error-IsPublic e);
            })
    ]
  ]
]

-- A literal error of `DecodeJSON`.
refused :
    {accepted : Type 0} (e : Error Kind)
    → IsPublic e
    → (accepted → ⊥)
    → IsAnswered accepted (some e)
refused e shown unmet = record {
  accepts = (λ h. cc, λ h. absurd (unmet h));
  shows = λ f i. let j : e ≡ f = cc in rw (sym j) shown;
}

module _ (parse_media_type : Bytes → Result (Error Kind) Bytes) where
  pub record IsJson (has_destination : Bool) (max_bytes : ℤ) (content_type : Bytes)
      (body : ℤ → Decoder) : Type 0 where
    pub destination : has_destination ≡ true
    pub bounded : IsPositive max_bytes
    pub media_type : parse_media_type content_type ≡ ok (codes "application/json")
    pub one_value : IsOneValue (body max_bytes)

  -- `DecodeJSON` returns nil exactly for a destination that is there, a positive limit, the media type
  -- of JSON, and a body that, cut at that limit, holds one value that decodes and nothing behind it.
  -- Every error that it returns shows one of nine fixed codes and messages.
  pub decode_json-IsAnswered :
      (has_destination : Bool) (max_bytes : ℤ) (content_type : Bytes) (body : ℤ → Decoder)
      → IsAnswered
          (IsJson has_destination max_bytes content_type body)
          (decode_json parse_media_type has_destination max_bytes content_type body)
  unfolding decode_json new wrap as_coded
  decode_json-IsAnswered false max_bytes content_type body =
      refused _ (0, omega arith, refl) (λ h. let i = h.destination in cc)
  decode_json-IsAnswered true max_bytes content_type body =
      elim (Bool-cases (is_positive max_bytes)) [
        | inr small ↦
            rw (decode_json, small)
              (refused _ (1, omega arith, refl)
                (λ h. let i = (is_positive_iff max_bytes).1 h.bounded in cc))
        | inl positive ↦ elim (Result-cases (parse_media_type content_type)) [
          | inr (e, unread) ↦
              rw (decode_json, positive, unread)
                (refused _ (2, omega arith, refl) (λ h. let i = h.media_type in cc))
          | inl (media_type, read) ↦ elim (Bool-cases (eqb media_type (codes "application/json"))) [
            | inr other ↦
                rw (decode_json, positive, read, other)
                  (refused _ (2, omega arith, refl) (λ h. let i = h.media_type in ground arith))
            | inl same ↦
                let json : media_type ≡ codes "application/json" = ground arith in
                let inner = decode_body-IsAnswered (body max_bytes) in
                rw (decode_json, positive, read, same)
                  (record {
                    accepts = (
                      λ h. record {
                        destination = refl;
                        bounded = (is_positive_iff max_bytes).0 positive;
                        media_type = read ∙ ap ok json;
                        one_value = inner.accepts.0 h;
                      },
                      λ h. inner.accepts.1 h.one_value,
                    );
                    shows = inner.shows;
                  })
          ]
        ]
      ]
