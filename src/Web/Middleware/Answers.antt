-- ===== src/Web/Middleware/Answers.antt =====
-- web/middleware/middleware.go, `Chain`: what a client, the handler behind it and the log are given.
use stumpfworks_framework.Base.{
  ℕ, ◌≡◌, ◌≢◌, inl, inr, refl, sym, ap, ◌∙◌, Bool, true, false, List, [], ◌∷◌, ◌++◌, Bytes,
  Bytes-discrete, is_empty, ◌==◌, codes, arith, if◌then◌else◌, lookup-insert, Bool-cases, holds,
}
use mathlib.Core.List.{append-nil, append_assoc}
use stumpfworks_framework.Web.Http.{
  Field, Field-discrete, Headers, get, set, headers_after, Action, set_header, add_header,
  write_header, write, Request, Run, Handler, LogEntry, request_completed, request_panic,
  x_request_id, content_type_options, frame_options, referrer_policy, security_policy,
  permissions_policy, transport_security,
}
use stumpfworks_framework.Web.Problem.{Details, write_problem, completed}
use stumpfworks_framework.Web.Middleware.{
  valid_request_id, with_request_id, security_actions, security_headers, status_of, access_log,
  recoverer, chain, internal,
}

-- The correlation ID of a request: its own where that is valid, and a fresh one else.
abbrev pub id_of : Bytes → Request → Bytes
id_of fresh_id r =
    let given = get x_request_id r.headers in if valid_request_id given then given else fresh_id

-- The headers of a response that restrict browsers.
pub record IsHardened (is_tls : Bool) (h : Headers) : Type 0 where
  pub nosniff : get content_type_options h ≡ codes "nosniff"
  pub unframed : get frame_options h ≡ codes "DENY"
  pub no_referrer : get referrer_policy h ≡ codes "no-referrer"
  pub policy : get security_policy h ≡ codes "default-src 'none'; frame-ancestors 'none'"
  pub permissions : get permissions_policy h ≡ codes "camera=(), microphone=(), geolocation=()"
  pub transport : is_tls ≡ true → get transport_security h ≡ codes "max-age=31536000"

get-set :
    (n m : Field) (v : Bytes) (h : Headers)
    → get n (set m v h) ≡ (if holds (Field-discrete m n) then v else get n h)
unfolding get
get-set n m v h = ground (arith, lookup-insert Field-discrete n m (v ∷ []) h)

status_of-append :
    (xs ys : List Action)
    → status_of (xs ++ ys) ≡ (if status_of xs == 0 then status_of ys else status_of xs)
unfolding status_of
status_of-append [] ys = refl
status_of-append (set_header n v ∷ xs) ys = status_of-append xs ys
status_of-append (add_header n v ∷ xs) ys = status_of-append xs ys
status_of-append (write_header s ∷ xs) ys = ground (arith, status_of-append xs ys)
status_of-append (write b ∷ xs) ys = refl

-- What the next handler finds set, and what it does not overwrite stays.
hardened :
    (is_tls : Bool) (h : Headers) → IsHardened is_tls (headers_after (security_actions is_tls) h)
unfolding headers_after Field-discrete Bytes-discrete
hardened true h = record {
  nosniff = simp get-set;
  unframed = simp get-set;
  no_referrer = simp get-set;
  policy = simp get-set;
  permissions = simp get-set;
  transport = λ e. simp get-set;
}
hardened false h = record {
  nosniff = simp get-set;
  unframed = simp get-set;
  no_referrer = simp get-set;
  policy = simp get-set;
  permissions = simp get-set;
  transport = λ e. absurd (ground arith);
}

identified :
    (is_tls : Bool) (id : Bytes) (h : Headers)
    → get x_request_id (headers_after (set_header x_request_id id ∷ security_actions is_tls) h) ≡ id
unfolding headers_after Field-discrete Bytes-discrete
identified true id h = simp get-set
identified false id h = simp get-set

-- The headers that are set when the next handler begins, and what it does.
abbrev pub before_next : Bytes → Request → Headers → Headers
before_next fresh_id r h =
    headers_after (set_header x_request_id (id_of fresh_id r) ∷ security_actions r.is_tls) h

abbrev pub inner : Bytes → Handler → Request → Headers → Run
inner fresh_id next r h =
    next (record r { request_id = id_of fresh_id r }) (before_next fresh_id r h)

abbrev pub or_200 : ℕ → ℕ
or_200 s = if s == 0 then 200 else s

module _ (encode : Details → Bytes) (status_text : ℕ → Bytes) where
  -- The status of the whole run: 500 where the next handler panics before it has answered.
  abbrev pub answered : Run → ℕ
  answered run =
      if run.panicked
      then (if status_of run.actions == 0 then 500 else status_of run.actions)
      else status_of run.actions

  abbrev pub panic_entries : Run → Headers → List LogEntry
  panic_entries run h =
      if run.panicked
      then request_panic (get x_request_id (headers_after run.actions h)) ∷ []
      else []

  pub record IsAnswered (fresh_id : Bytes) (next : Handler) (r : Request) (h : Headers) (run : Run)
      : Type 0 where
    pub returns : run.panicked ≡ false
    pub status : status_of run.actions ≡ answered (inner fresh_id next r h)
    pub logged :
        run.logged
        ≡ (inner fresh_id next r h).logged
          ++ (panic_entries (inner fresh_id next r h) (before_next fresh_id r h)
              ++ request_completed
                  (id_of fresh_id r)
                  r.method
                  (if is_empty r.pattern then codes "unmatched" else r.pattern)
                  (or_200 (answered (inner fresh_id next r h)))
                ∷ [])

  status_of-internal : (h : Headers) → status_of (write_problem encode status_text h internal) ≡ 500
  unfolding status_of write_problem completed
  status_of-internal h = ground arith

  recovered :
      (next : Handler) (r : Request) (h : Headers)
      → let run = recoverer encode status_text next r h in
        (run.panicked ≡ false)
        × (status_of run.actions ≡ answered (next r h))
        × (run.logged ≡ (next r h).logged ++ panic_entries (next r h) h)
  unfolding recoverer
  recovered next r h = elim (Bool-cases (next r h).panicked) [
    | inl panics ↦ rw panics (
      refl,
      status_of-append (next r h).actions
            (write_problem encode status_text (headers_after (next r h).actions h) internal)
          ∙ rw (status_of-internal (headers_after (next r h).actions h)) refl,
      refl,
    )
    | inr returns ↦ rw returns (refl, refl, sym (append-nil (next r h).logged))
  ]

  accessed :
      (next : Handler) (r : Request) (h : Headers)
      → (next r h).panicked ≡ false
      → let run = access_log next r h in
        (run.panicked ≡ false)
        × (run.actions ≡ (next r h).actions)
        × (run.logged
            ≡ (next r h).logged
              ++ request_completed r.request_id r.method
                  (if is_empty r.pattern then codes "unmatched" else r.pattern)
                  (or_200 (status_of (next r h).actions))
                ∷ [])
  unfolding access_log
  accessed next r h e = rw e (refl, refl, refl)

  guarded :
      (is_tls : Bool) (id : Bytes) (ys : List Action)
      → status_of (set_header x_request_id id ∷ (security_actions is_tls ++ ys)) ≡ status_of ys
  unfolding status_of
  guarded true id ys = refl
  guarded false id ys = refl

  id_of-ne-nil :
      (fresh_id : Bytes) (r : Request) → fresh_id ≢ [] → is_empty (id_of fresh_id r) ≡ false
  unfolding valid_request_id
  id_of-ne-nil fresh_id r made = ground arith

  -- What stands inside the request ID and the security headers.
  abbrev logged_run : Bytes → Handler → Request → Headers → Run
  logged_run fresh_id next r h =
      access_log (recoverer encode status_text next) (record r { request_id = id_of fresh_id r })
        (before_next fresh_id r h)

  unwrapped :
      (fresh_id : Bytes) (next : Handler) (r : Request) (h : Headers)
      → fresh_id ≢ []
      → chain encode status_text fresh_id next r h ≡ record (logged_run fresh_id next r h) {
        actions =
            set_header x_request_id (id_of fresh_id r)
            ∷ (security_actions r.is_tls ++ (logged_run fresh_id next r h).actions);
      }
  unfolding chain with_request_id security_headers headers_after
  unwrapped fresh_id next r h made = let named = id_of-ne-nil fresh_id r made in rw named refl

  -- Whatever the handler behind `Chain` does, a panic included, the run returns, with a status of its
  -- own or 500 where it panicked before it had answered, and the last entry of the log is the one for
  -- this request. The handler begins with the request's correlation ID, a valid one of the client or a
  -- fresh one, in its context and in the response, and with the security headers set.
  pub chain_answers :
      (fresh_id : Bytes) (next : Handler) (r : Request) (h : Headers)
      → fresh_id ≢ []
      → IsAnswered fresh_id next r h (chain encode status_text fresh_id next r h)
        × IsHardened r.is_tls (before_next fresh_id r h)
        × (get x_request_id (before_next fresh_id r h) ≡ id_of fresh_id r)
  unfolding headers_after
  chain_answers fresh_id next r h made =
      let s = record r { request_id = id_of fresh_id r } in
      let seen = before_next fresh_id r h in
      let whole = unwrapped fresh_id next r h made in
      let (returns, status, entries) = recovered next s seen in
      let (left, actions, logged) = accessed (recoverer encode status_text next) s seen returns in
      (
        rw whole (record {
          returns = left;
          status =
              guarded r.is_tls (id_of fresh_id r) (logged_run fresh_id next r h).actions
              ∙ ap status_of actions
              ∙ status;
          logged =
              logged
              ∙ rw (entries, status)
                  (append_assoc (next s seen).logged (panic_entries (next s seen) seen) _);
        }),
        hardened r.is_tls (headers_after (set_header x_request_id (id_of fresh_id r) ∷ []) h),
        identified r.is_tls (id_of fresh_id r) h,
      )
