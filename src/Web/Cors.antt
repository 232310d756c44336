-- ===== src/Web/Cors.antt =====
-- web/middleware/cors.go: a cross-origin policy from an exact list of origins. `url.Parse` and the
-- text functions of strings and strconv are parameters. Durations count nanoseconds.
pub mod Grants
pub mod Tests
use stumpfworks_framework.Base.{
  ℕ, ◌*◌, ◌/◌, ◌^◌, Bool, true, false, not, ◌&&◌, ◌||◌, List, [], ◌∷◌, ◌++◌, map, Option, none,
  some, Bytes, all, any, eqb, ltb, ◌==◌, is_empty, codes, is_lower, is_upper, is_digit,
  if◌then◌else◌, Result, ok, err, ◌>>=◌, ◌>>◌, reject_if, ℤ, pos, negsuc, is_negative, is_positive,
  exceeds,
}
use stumpfworks_framework.Oidc.Urls.{Url}
use stumpfworks_framework.Web.Http.{
  Field, origin, vary, cache_control, request_method, request_headers, allow_origin,
  allow_credentials, allow_methods, allow_headers, expose_headers, max_age, get, Action, set_header,
  add_header, write_header, Request, Handler, reply, after,
}

abbrev pub day : ℕ
day = 24 * 3600 * 10 ^ 9

pub record CorsOptions : Type 0 where
  pub allowed_origins : List Bytes
  pub allowed_methods : List Bytes
  pub allowed_headers : List Bytes
  pub exposed_headers : List Bytes
  pub allows_credentials : Bool
  pub age : ℤ

-- What the closure of `CORS` holds; the keys of its maps are lists.
pub record Policy : Type 0 where
  pub options : CorsOptions
  pub origins : List Bytes
  pub wildcard : Bool
  pub methods : List Bytes
  pub headers : List Bytes

pub data Error : Type 0 where
  bad_origin credentials_for_all bad_method bad_header bad_exposed_header bad_age : Error

abbrev pub contains : List Bytes → Bytes → Bool
contains texts t = any (λ a. eqb a t) texts

abbrev pub is_mark : ℕ → Bool
is_mark c = any (λ m. m == c) (codes "!#$%&'*+-.^_`|~")

-- `validToken`; a byte beyond ASCII belongs to no character that the code allows.
pub valid_token : Bytes → Bool
valid_token value =
    not (is_empty value) && all (λ c. is_lower c || is_upper c || is_digit c || is_mark c) value

-- `strings.Join(texts, ", ")`
pub join : List Bytes → Bytes
join [] = []
join (t ∷ []) = t
join (t ∷ u ∷ more) = t ++ (codes ", " ++ join (u ∷ more))

-- `strings.Split(text, ",")`: the part that is read, and those behind it.
pub split : Bytes → Bytes → List Bytes
split part [] = part ∷ []
split part (c ∷ text) =
    let rest = split [] text in
    let longer = split (part ++ c ∷ []) text in if c == b',' then part ∷ rest else longer

-- Actions, and then the next handler or none.
pub data Decision : Type 0 where
  pass stop : List Action → Decision

abbrev pub is_none : List Bytes → Bool
is_none [] = true
is_none (t ∷ more) = false

pub is_preflight : Request → Bool
is_preflight r = eqb r.method (codes "OPTIONS") && not (is_empty (get request_method r.headers))

abbrev pub is_allowed : Policy → Bytes → Bool
is_allowed p o = contains p.origins o || p.wildcard

-- The headers of each answer to an allowed origin.
abbrev pub grant : Policy → Bytes → List Action
grant p o =
    add_header vary (codes "Origin")
    ∷ set_header allow_origin (if p.wildcard then codes "*" else o)
    ∷ (if p.options.allows_credentials
        then set_header allow_credentials (codes "true") ∷ []
        else [])

abbrev pub seconds : ℤ → ℕ
seconds (pos n) = n / 10 ^ 9
seconds (negsuc n) = 0

abbrev pub varying : List Action
varying =
    add_header vary (codes "Access-Control-Request-Method")
    ∷ add_header vary (codes "Access-Control-Request-Headers")
    ∷ []

abbrev pub exposure : Policy → List Action
exposure p =
    if is_none p.options.exposed_headers
    then []
    else set_header expose_headers (join p.options.exposed_headers) ∷ []

module _ (parse_url : Bytes → Option Url) (upper lower trimmed : Bytes → Bytes)
    (decimal : ℕ → Bytes) where
  pub origin_ok : Bytes → Bool
  origin_ok text = elim (parse_url text) [
    | none ↦ false
    | some u ↦
        (eqb u.scheme (codes "http") || eqb u.scheme (codes "https"))
        && not (is_empty u.host)
        && not u.has_user
        && is_empty u.path
        && is_empty u.raw_query
        && is_empty u.fragment
  ]

  -- The loop over the origins: the exact ones, and whether one is `*`.
  pub read_origins : List Bytes → Result Error (List Bytes × Bool)
  read_origins [] = ok ([], false)
  read_origins (text ∷ more) =
      let rest = read_origins more in
      if eqb text (codes "*")
      then (do (origins, wildcard) ← rest; ok (origins, true))
      else if not (origin_ok text)
      then err bad_origin
      else (do (origins, wildcard) ← rest; ok (text ∷ origins, wildcard))

  -- `CORS`, up to the handler.
  unfoldable pub new_policy : CorsOptions → Result Error Policy
  new_policy o = do
    read ← read_origins o.allowed_origins
    reject_if (read.1 && o.allows_credentials) credentials_for_all
    reject_if (not (all valid_token (map upper o.allowed_methods))) bad_method
    reject_if (not (all valid_token o.allowed_headers)) bad_header
    reject_if (not (all valid_token o.exposed_headers)) bad_exposed_header
    reject_if (is_negative o.age || exceeds o.age (pos day)) bad_age
    ok (record {
      options = o;
      origins = read.0;
      wildcard = read.1;
      methods = map upper o.allowed_methods;
      headers = map lower o.allowed_headers;
    })

  abbrev pub header_ok : Policy → Bytes → Bool
  header_ok p text = let name = trimmed (lower text) in is_empty name || contains p.headers name

  -- The tests of a preflight request.
  pub preflight_ok : Policy → Request → Bool
  preflight_ok p r =
      contains p.methods (upper (get request_method r.headers))
      && all (header_ok p) (split [] (get request_headers r.headers))

  abbrev pub permissions : Policy → List Action
  permissions p =
      set_header allow_methods (join p.methods)
      ∷ ((if is_none p.options.allowed_headers
            then []
            else set_header allow_headers (join p.options.allowed_headers) ∷ [])
          ++ (if is_positive p.options.age
              then set_header max_age (decimal (seconds p.options.age)) ∷ []
              else []))

  -- What the middleware does with a request that names an origin.
  pub decide : Policy → Request → Bytes → Decision
  decide p r o =
      if not (is_allowed p o)
      then (if is_preflight r
          then stop (
              add_header vary (codes "Origin")
              ∷ set_header cache_control (codes "no-store")
              ∷ write_header 403
              ∷ [])
          else pass (add_header vary (codes "Origin") ∷ []))
      else if not (is_preflight r)
      then pass (grant p o ++ exposure p)
      else if not (preflight_ok p r)
      then stop (grant p o ++ (varying ++ write_header 403 ∷ []))
      else stop (grant p o ++ (varying ++ (permissions p ++ write_header 204 ∷ [])))

  -- The handler.
  unfoldable pub cors : Policy → Handler → Handler
  cors p next r h =
      let o = get origin r.headers in
      if is_empty o then next r h else elim (decide p r o) [
        | pass actions ↦ after actions next r h
        | stop actions ↦ reply actions
      ]
