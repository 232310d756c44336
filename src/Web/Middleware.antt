-- ===== src/Web/Middleware.antt =====
-- web/middleware/middleware.go: request IDs, security headers, the access log and panic recovery. The
-- ID that core/id makes, and the durations that are logged, are left to the caller: `fresh_id` is what
-- `New` returned, the empty text where it failed.
pub mod Answers
pub mod Tests
use stumpfworks_framework.Base.{
  ℕ, Bool, false, not, ◌&&◌, ◌||◌, List, [], ◌∷◌, ◌++◌, Bytes, length, all, ltb, ◌==◌, is_empty,
  codes, is_lower, is_upper, is_digit, if◌then◌else◌,
}
use stumpfworks_framework.Web.Http.{
  Handler, Action, set_header, add_header, write_header, write, request_completed, request_panic,
  after, get, headers_after, x_request_id, content_type_options, frame_options, referrer_policy,
  security_policy, permissions_policy, transport_security,
}
use stumpfworks_framework.Web.Problem.{Details, write_problem}

-- `validRequestID`; a byte beyond ASCII belongs to no character that the code allows.
unfoldable pub valid_request_id : Bytes → Bool
valid_request_id id =
    not (is_empty id)
    && not (ltb 128 (length id))
    && all (λ c. is_lower c || is_upper c || is_digit c || c == b'-' || c == b'_') id

-- `requestID`
unfoldable pub with_request_id : Bytes → Handler → Handler
with_request_id fresh_id next r h =
    let given = get x_request_id r.headers in
    let id = if valid_request_id given then given else fresh_id in
    if is_empty id
    then next r h
    else after (set_header x_request_id id ∷ []) next (record r { request_id = id }) h

-- `securityHeaders`
abbrev pub security_actions : Bool → List Action
security_actions is_tls =
    set_header content_type_options (codes "nosniff")
    ∷ set_header frame_options (codes "DENY")
    ∷ set_header referrer_policy (codes "no-referrer")
    ∷ set_header security_policy (codes "default-src 'none'; frame-ancestors 'none'")
    ∷ set_header permissions_policy (codes "camera=(), microphone=(), geolocation=()")
    ∷ (if is_tls then set_header transport_security (codes "max-age=31536000") ∷ [] else [])

unfoldable pub security_headers : Handler → Handler
security_headers next r h = after (security_actions r.is_tls) next r h

-- The status that a `responseWriter` keeps: that of the first `WriteHeader`, or 200 for a `Write`.
pub status_of : List Action → ℕ
status_of [] = 0
status_of (set_header name value ∷ more) = status_of more
status_of (add_header name value ∷ more) = status_of more
status_of (write_header status ∷ more) =
    let later = status_of more in if status == 0 then later else status
status_of (write body ∷ more) = 200

-- `accessLog`. A panic of `next` passes through before the entry is logged.
unfoldable pub access_log : Handler → Handler
access_log next r h =
    let run = next r h in
    let status = status_of run.actions in
    let entry =
      request_completed r.request_id r.method
        (if is_empty r.pattern then codes "unmatched" else r.pattern)
        (if status == 0 then 200 else status) in
    if run.panicked then run else record run { logged = run.logged ++ entry ∷ [] }

-- What is sent for a panic.
abbrev pub internal : Details
internal = record {
  kind = codes "https://docs.stumpfworks.de/problems/internal";
  title = codes "Internal server error";
  status = 500;
  code = codes "internal_error";
  correlation_id = [];
  errors = [];
}

module _ (encode : Details → Bytes) (status_text : ℕ → Bytes) where
  -- `recoverer`
  unfoldable pub recoverer : Handler → Handler
  recoverer next r h =
      let run = next r h in
      let seen = headers_after run.actions h in
      if not run.panicked then run else record {
        actions = run.actions ++ write_problem encode status_text seen internal;
        panicked = false;
        logged = run.logged ++ request_panic (get x_request_id seen) ∷ [];
      }

  -- `Chain`
  unfoldable pub chain : Bytes → Handler → Handler
  chain fresh_id next = with_request_id fresh_id (security_headers (access_log (recoverer next)))
