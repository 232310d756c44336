-- ===== src/Web/Middleware/Tests.antt =====
-- web/middleware/middleware_test.go: a handler that panics after it has set a header, and one whose
-- client sends a correlation ID of its own.
use stumpfworks_framework.Base.{
  ℕ, ◌≡◌, ◌≢◌, refl, true, false, [], ◌∷◌, Bytes, Bytes-discrete, codes, lookup, insert,
}
use stumpfworks_framework.Web.Http.{
  Field-discrete, Handler, Request, get, headers_after, set_header, write_header, request_completed,
  request_panic, x_request_id,
}
use stumpfworks_framework.Web.Problem.{Details, write_problem, completed}
use stumpfworks_framework.Web.Middleware.{
  valid_request_id, with_request_id, security_headers, status_of, access_log, recoverer, chain,
}
use stumpfworks_framework.Web.Middleware.Answers.{
  id_of, IsHardened, before_next, IsAnswered, chain_answers,
}

abbrev encode : Details → Bytes
encode d = d.correlation_id

abbrev status_text : ℕ → Bytes
status_text s = []

abbrev panics : Handler
panics r h = record {
  actions = set_header x_request_id (codes "other") ∷ [];
  panicked = true;
  logged = [];
}

abbrev creates : Handler
creates r h = record { actions = write_header 201 ∷ []; panicked = false; logged = [] }

abbrev request : Bytes → Request
request id = record {
  method = codes "GET";
  headers = (x_request_id, id ∷ []) ∷ [];
  is_tls = false;
  pattern = [];
  request_id = [];
}

code : Unit {0}
unfolding Bytes-discrete Field-discrete lookup insert get headers_after valid_request_id
    with_request_id security_headers status_of access_log recoverer chain write_problem completed
code = tt

answers_500 : status_of (chain encode status_text (codes "f") panics (request []) []).actions ≡ 500
unfolding code
answers_500 = refl

logs_panic :
    (chain encode status_text (codes "f") panics (request (codes "a b")) []).logged
    ≡ request_panic (codes "other")
      ∷ request_completed (codes "f") (codes "GET") (codes "unmatched") 500
      ∷ []
unfolding code
logs_panic = refl

keeps_id :
    (chain encode status_text (codes "f") creates (request (codes "a-1")) []).logged
    ≡ request_completed (codes "a-1") (codes "GET") (codes "unmatched") 201 ∷ []
unfolding code
keeps_id = refl

made : codes "f" ≢ []
made = cc

chain_answers_example :
    IsAnswered encode status_text
      (codes "f")
      panics
      (request [])
      []
      (chain encode status_text (codes "f") panics (request []) [])
    × IsHardened false (before_next (codes "f") (request []) [])
    × (get x_request_id (before_next (codes "f") (request []) []) ≡ id_of (codes "f") (request []))
chain_answers_example = chain_answers encode status_text (codes "f") panics (request []) [] made
