-- ===== src/Web/Metrics/Auth/Tests.antt =====
-- web/metrics/auth_test.go: a token of 32 characters, the same with another prefix, and a short one.
-- The hash is the identity here.
use stumpfworks_framework.Base.{
  ℕ, ◌≡◌, ◌⊎◌, refl, false, [], ◌∷◌, ◌++◌, List, some, Bytes, Bytes-discrete, codes, ok, err,
  lookup, insert,
}
use stumpfworks_framework.Web.Http.{
  Field-discrete, Handler, Action, set_header, write_header, write, get, set, headers_after, reply,
  cache_control, authorization, Request,
}
use stumpfworks_framework.Web.Metrics.Auth.{
  bad_token, bearer, valid_bearer_token, cut_prefix, accepts, unauthorized, guard, protect_bearer,
}
use stumpfworks_framework.Web.Metrics.Auth.Bearer.{IsToken, IsGranted, protect_bearer-IsGranted}

abbrev sha256 : Bytes → Bytes
sha256 b = b

abbrev http_error : Bytes → ℕ → List Action
http_error text status = write_header status ∷ write text ∷ []

abbrev token : Bytes
token = codes "0123456789abcdef0123456789abcdef"

abbrev metrics : Handler
metrics r h = reply (write (codes "m") ∷ [])

abbrev request : Bytes → Request
request value = record {
  method = codes "GET";
  headers = (authorization, value ∷ []) ∷ [];
  is_tls = false;
  pattern = [];
  request_id = [];
}

abbrev guarded : Handler
guarded = guard sha256 http_error token metrics

code : Unit {0}
unfolding Bytes-discrete Field-discrete lookup insert get headers_after valid_bearer_token
    cut_prefix accepts guard protect_bearer
code = tt

lets_in :
    guarded (request (bearer ++ token)) []
    ≡ reply (set_header cache_control (codes "no-store") ∷ write (codes "m") ∷ [])
unfolding code
lets_in = refl

keeps_out :
    guarded (request (codes "bearer " ++ token)) []
    ≡ reply (set_header cache_control (codes "no-store") ∷ unauthorized sha256 http_error)
unfolding code
keeps_out = refl

wants_length : protect_bearer sha256 http_error (some metrics) (codes "short") ≡ err bad_token
unfolding code
wants_length = refl

protects : protect_bearer sha256 http_error (some metrics) token ≡ ok guarded
unfolding code
protects = refl

protect_bearer-IsGranted_example :
    let r = request (bearer ++ token) in
    let seen = set cache_control (codes "no-store") [] in
    let no_store = set_header cache_control (codes "no-store") in
    IsToken token
    × ((IsGranted sha256 token r
          × (guarded r []
              ≡ record (metrics r seen) { actions = no_store ∷ (metrics r seen).actions }))
        ⊎ ((IsGranted sha256 token r → ⊥)
            × (guarded r [] ≡ reply (no_store ∷ unauthorized sha256 http_error))))
protect_bearer-IsGranted_example =
    protect_bearer-IsGranted sha256 http_error metrics token guarded (request (bearer ++ token)) []
      protects
