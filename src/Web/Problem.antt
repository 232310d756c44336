-- ===== src/Web/Problem.antt =====
-- web/problem/problem.go: problem details of RFC 9457. The JSON encoder and `http.StatusText` are
-- parameters.
pub mod Causes
use stumpfworks_framework.Base.{
  ℕ, Bool, true, false, ◌||◌, List, [], ◌∷◌, Option, none, some, Bytes, ltb, is_empty, codes,
  if◌then◌else◌,
}
use stumpfworks_framework.Errors.{CodedError, Error, as_coded}
use stumpfworks_framework.Web.Http.{
  Headers, Action, set_header, write_header, write, get, x_request_id, content_type, cache_control,
}

pub record FieldError : Type 0 where
  pub field : Bytes
  pub code : Bytes
  pub message : Bytes

pub record Details : Type 0 where
  pub kind : Bytes
  pub title : Bytes
  pub status : ℕ
  pub code : Bytes
  pub correlation_id : Bytes
  pub errors : List FieldError

module _ (encode : Details → Bytes) (status_text : ℕ → Bytes) where
  abbrev pub is_error_status : ℕ → Bool
  is_error_status s = if ltb s 400 || ltb 599 s then false else true

  -- The details that `Write` sends, for the headers that are set.
  unfoldable pub completed : Headers → Details → Details
  completed h d =
      let e = if is_error_status d.status then d else record {
        kind = codes "about:blank";
        title = status_text 500;
        status = 500;
        code = codes "internal_error";
        correlation_id = d.correlation_id;
        errors = [];
      } in
      record {
        kind = if is_empty e.kind then codes "about:blank" else e.kind;
        title = if is_empty e.title then status_text e.status else e.title;
        status = e.status;
        code = e.code;
        correlation_id = if is_empty e.correlation_id then get x_request_id h else e.correlation_id;
        errors = e.errors;
      }

  -- `Write`
  unfoldable pub write_problem : Headers → Details → List Action
  write_problem h d =
      let sent = completed h d in
      set_header content_type (codes "application/problem+json")
      ∷ set_header cache_control (codes "no-store")
      ∷ write_header sent.status
      ∷ write (encode sent)
      ∷ []

  -- `WriteError`
  unfoldable pub write_error : {K : Type 0} → Headers → ℕ → Error K → List Action
  write_error h status e =
      let details : Details = record {
        kind = [];
        title = [];
        status = status;
        code = [];
        correlation_id = [];
        errors = [];
      } in
      write_problem h (elim (as_coded e) [
        | none ↦ details
        | some c ↦ record details { code = c.code; title = c.public_message }
      ])
