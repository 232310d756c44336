-- ===== src/Web/Cors/Tests.antt =====
-- web/middleware/cors_test.go: a policy with one origin, and a preflight request to it. The origin is
-- the only URL that parses here.
use stumpfworks_framework.Base.{
  ℕ, ◌*◌, ◌^◌, ◌≡◌, ◌⊎◌, inl, refl, true, false, [], ◌∷◌, Option, some, none, arith, Bytes,
  Bytes-discrete, codes, lookup, insert, eqb, All, ok, err, pos, if◌then◌else◌,
}
use stumpfworks_framework.Oidc.Urls.{Url}
use stumpfworks_framework.Web.Http.{
  Field-discrete, origin, request_method, request_headers, allow_origin, allow_credentials, get,
  Request,
}
use stumpfworks_framework.Web.Cors.{
  CorsOptions, Policy, new_policy, credentials_for_all, read_origins, origin_ok, valid_token,
  is_preflight, preflight_ok, split, join, decide,
}
use stumpfworks_framework.Web.Cors.Grants.{
  IsIn, IsListed, IsAllowedName, Sets, Answers, actions_of, cors_grants, cors_preflight,
}

abbrev app : Bytes
app = codes "https://app.example"

abbrev url : Url
url = record {
  scheme = codes "https";
  host = codes "app.example";
  has_user = false;
  path = [];
  raw_query = [];
  force_query = false;
  fragment = [];
  opaque = [];
  text = app;
}

abbrev parse_url : Bytes → Option Url
parse_url text = if eqb text app then some url else none

abbrev as_is : Bytes → Bytes
as_is text = text

abbrev decimal : ℕ → Bytes
decimal n = n ∷ []

abbrev options : CorsOptions
options = record {
  allowed_origins = app ∷ [];
  allowed_methods = codes "PUT" ∷ [];
  allowed_headers = codes "x-a" ∷ [];
  exposed_headers = [];
  allows_credentials = true;
  age = pos (60 * 10 ^ 9);
}

abbrev policy : Policy
policy = record {
  options = options;
  origins = app ∷ [];
  wildcard = false;
  methods = codes "PUT" ∷ [];
  headers = codes "x-a" ∷ [];
}

abbrev request : Request
request = record {
  method = codes "OPTIONS";
  headers =
      (origin, app ∷ [])
      ∷ (request_method, codes "PUT" ∷ [])
      ∷ (request_headers, codes "x-a" ∷ [])
      ∷ [];
  is_tls = true;
  pattern = [];
  request_id = [];
}

code : Unit {0}
unfolding new_policy read_origins origin_ok valid_token Bytes-discrete Field-discrete lookup insert
    decide is_preflight preflight_ok split join get
code = tt

builds : new_policy parse_url as_is as_is as_is decimal options ≡ ok policy
unfolding code
builds = refl

refuses_credentials :
    new_policy parse_url as_is as_is as_is decimal
      (record options { allowed_origins = codes "*" ∷ [] })
    ≡ err credentials_for_all
unfolding code
refuses_credentials = refl

grants :
    Sets allow_origin app
      (actions_of (decide parse_url as_is as_is as_is decimal policy request app))
unfolding code
grants = inl (refl, refl)

answers : Answers 204 (actions_of (decide parse_url as_is as_is as_is decimal policy request app))
unfolding code
answers = ground arith

cors_grants_example :
    let actions = actions_of (decide parse_url as_is as_is as_is decimal policy request app) in
    (IsListed parse_url as_is as_is as_is decimal options.allowed_origins app × (app ≡ app))
    ⊎ (IsIn (codes "*") options.allowed_origins
        × (app ≡ codes "*")
        × ((w : Bytes) → ¬ Sets allow_credentials w actions))
cors_grants_example =
    cors_grants parse_url as_is as_is as_is decimal options policy request app app builds grants

cors_preflight_example :
    (IsIn app options.allowed_origins ⊎ IsIn (codes "*") options.allowed_origins)
    × IsIn (get request_method request.headers) options.allowed_methods
    × All
        (IsAllowedName parse_url as_is as_is as_is decimal options.allowed_headers)
        (split [] (get request_headers request.headers))
cors_preflight_example =
    cors_preflight parse_url as_is as_is as_is decimal options policy request app builds answers
