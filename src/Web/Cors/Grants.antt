-- ===== src/Web/Cors/Grants.antt =====
-- web/middleware/cors.go: to which origins, methods and headers a policy grants access.
use stumpfworks_framework.Base.{
  ℕ, ◌≡◌, ◌≢◌, ◌⊎◌, inl, inr, ap, Bool, true, false, ◌&&◌, List, [], ◌∷◌, map, Option, some, Bytes,
  Bytes-discrete, All, all, is_empty, codes, arith, if◌then◌else◌, ok, Bool-cases, Option-cases,
  Result-cases, ◌≡◌,
}
use stumpfworks_framework.Oidc.Urls.{Url}
use stumpfworks_framework.Web.Http.{
  Field, allow_origin, allow_credentials, Action, set_header, add_header, write_header, write,
  Request, request_method, request_headers, get,
}
use stumpfworks_framework.Web.Cors.{
  CorsOptions, Policy, contains, origin_ok, read_origins, new_policy, is_allowed, header_ok,
  preflight_ok, Decision, pass, stop, decide, split,
}

abbrev pub actions_of : Decision → List Action
actions_of (pass actions) = actions
actions_of (stop actions) = actions

abbrev pub IsIn : Bytes → List Bytes → Type 0
IsIn t [] = ⊥
IsIn t (u ∷ more) = (u ≡ t) ⊎ IsIn t more

-- The actions set a header to a value.
abbrev pub Sets : Field → Bytes → List Action → Type 0
Sets name value [] = ⊥
Sets name value (set_header field v ∷ more) = ((field ≡ name) × (v ≡ value)) ⊎ Sets name value more
Sets name value (add_header field v ∷ more) = Sets name value more
Sets name value (write_header status ∷ more) = Sets name value more
Sets name value (write body ∷ more) = Sets name value more

-- The actions answer with a status.
abbrev pub Answers : ℕ → List Action → Type 0
Answers status [] = ⊥
Answers status (set_header field v ∷ more) = Answers status more
Answers status (add_header field v ∷ more) = Answers status more
Answers status (write_header code ∷ more) = (code ≡ status) ⊎ Answers status more
Answers status (write body ∷ more) = Answers status more

contains-IsIn : (texts : List Bytes) (t : Bytes) → contains texts t ≡ true → IsIn t texts
contains-IsIn [] t h = cc
contains-IsIn (u ∷ more) t h = ground (arith, contains-IsIn more t)

-- An origin: an HTTP or HTTPS URL of a host alone, with its port.
pub record IsOrigin (parse_url : Bytes → Option Url) (text : Bytes) : Type 0 where
  pub url : Url
  pub parsed : parse_url text ≡ some url
  pub web : (url.scheme ≡ codes "http") ⊎ (url.scheme ≡ codes "https")
  pub some_host : url.host ≢ []
  pub no_user : url.has_user ≡ false
  pub no_path : url.path ≡ []
  pub no_query : url.raw_query ≡ []
  pub no_fragment : url.fragment ≡ []

module _ (parse_url : Bytes → Option Url) (upper lower trimmed : Bytes → Bytes)
    (decimal : ℕ → Bytes) where
  origin_ok-IsOrigin :
      (text : Bytes)
      → origin_ok parse_url upper lower trimmed decimal text ≡ true
      → IsOrigin parse_url text
  unfolding origin_ok
  origin_ok-IsOrigin text e = elim (Option-cases (parse_url text)) [
    | inl bad ↦ absurd (ground arith)
    | inr (u, parsed) ↦ record {
      url = u;
      parsed = parsed;
      web = ground arith;
      some_host = ground arith;
      no_user = ground arith;
      no_path = ground arith;
      no_query = ground arith;
      no_fragment = ground arith;
    }
  ]

  -- A listed origin that is not the wildcard.
  abbrev pub IsListed : List Bytes → Bytes → Type 0
  IsListed texts t = IsIn t texts × (t ≢ codes "*") × IsOrigin parse_url t

  -- What one round of the loop has read, in front of what the later ones read.
  data Round (u : Bytes) (rest r : List Bytes × Bool) : Type 0 where
    star : u ≡ codes "*" → r.0 ≡ rest.0 → Round u rest r
    exact :
        u ≢ codes "*"
        → origin_ok parse_url upper lower trimmed decimal u ≡ true
        → r ≡ (u ∷ rest.0, rest.1)
        → Round u rest r

  round :
      (u : Bytes) (more : List Bytes) (r : List Bytes × Bool)
      → read_origins parse_url upper lower trimmed decimal (u ∷ more) ≡ ok r
      → (rest : List Bytes × Bool) × (read_origins parse_url upper lower trimmed decimal more
          ≡ ok rest)
        × Round u rest r
  unfolding read_origins
  round u more r e = elim (Result-cases (read_origins parse_url upper lower trimmed decimal more)) [
    | inr (error, failed) ↦ absurd (ground arith)
    | inl (rest, done) ↦ elim (Bytes-discrete u (codes "*")) [
      | yes all ↦ (rest, done, star all (ground arith))
      | no other ↦ (rest, done, exact other (ground arith) (ground arith))
    ]
  ]

  read_exact :
      (texts : List Bytes) (r : List Bytes × Bool) (t : Bytes)
      → read_origins parse_url upper lower trimmed decimal texts ≡ ok r
      → IsIn t r.0
      → IsListed texts t
  unfolding read_origins
  read_exact [] r t e m = let nothing : r.0 ≡ [] = ground arith in absurd (rw nothing at m)
  read_exact (u ∷ more) r t e m =
      let (rest, done, step) = round u more r e in
      elim step [
        | star all same ↦
            let (later, other, valid) = read_exact more rest t done (rw same at m) in
            (inr later, other, valid)
        | exact other valid same ↦
            let kept : r.0 ≡ u ∷ rest.0 = ap (λ p. p.0) same in
            let place : IsIn t (u ∷ rest.0) = rw kept at m in
            elim place [
              | inl here ↦ (inl here, rw here at other, origin_ok-IsOrigin t (rw here at valid))
              | inr there ↦
                  let (later, named, good) = read_exact more rest t done there in
                  (inr later, named, good)
            ]
      ]

  read_wildcard :
      (texts : List Bytes) (r : List Bytes × Bool)
      → read_origins parse_url upper lower trimmed decimal texts ≡ ok r
      → r.1 ≡ true
      → IsIn (codes "*") texts
  read_wildcard [] r e w = unfold read_origins in ground arith
  read_wildcard (u ∷ more) r e w =
      let (rest, done, step) = round u more r e in
      elim step [
        | star all same ↦ inl all
        | exact other valid same ↦ inr (read_wildcard more rest done (ground arith))
      ]

  built :
      (o : CorsOptions) (p : Policy)
      → new_policy parse_url upper lower trimmed decimal o ≡ ok p
      → (r : List Bytes × Bool) × (read_origins parse_url upper lower trimmed decimal
            o.allowed_origins
          ≡ ok r)
        × (p.origins ≡ r.0)
        × (p.wildcard ≡ r.1)
        × (p.options ≡ o)
        × (p.methods ≡ map upper o.allowed_methods)
        × (p.headers ≡ map lower o.allowed_headers)
        × (p.wildcard && o.allows_credentials ≡ false)
  unfolding new_policy
  built o p e =
      elim (Result-cases (read_origins parse_url upper lower trimmed decimal o.allowed_origins)) [
        | inr (error, failed) ↦ absurd (ground arith)
        | inl (r, done) ↦ (
          r,
          done,
          ground arith,
          ground arith,
          ground arith,
          ground arith,
          ground arith,
          ground arith,
        )
      ]

  -- Nothing but the grant sets these two headers.
  granted :
      (p : Policy) (r : Request) (t v : Bytes)
      → Sets allow_origin v (actions_of (decide parse_url upper lower trimmed decimal p r t))
      → (is_allowed p t ≡ true) × (v ≡ (if p.wildcard then codes "*" else t))
  unfolding decide
  granted p r t v h = ground arith

  credentials :
      (p : Policy) (r : Request) (t v : Bytes)
      → Sets allow_credentials v (actions_of (decide parse_url upper lower trimmed decimal p r t))
      → p.options.allows_credentials ≡ true
  unfolding decide
  credentials p r t v h = ground arith

  -- A policy that `CORS` has built lets an origin read an answer only if the options list the wildcard or
  -- that origin, which is then an HTTP or HTTPS URL of a host alone. It answers the wildcard only where it is listed, and then
  -- allows no credentials.
  pub cors_grants :
      (o : CorsOptions) (p : Policy) (r : Request) (t v : Bytes)
      → new_policy parse_url upper lower trimmed decimal o ≡ ok p
      → let actions = actions_of (decide parse_url upper lower trimmed decimal p r t) in
        Sets allow_origin v actions
        → (IsListed o.allowed_origins t × (v ≡ t))
          ⊎ (IsIn (codes "*") o.allowed_origins
              × (v ≡ codes "*")
              × ((w : Bytes) → ¬ Sets allow_credentials w actions))
  cors_grants o p r t v e h =
      let (read, done, origins, wildcard, options, methods, headers, safe) = built o p e in
      let (allowed, sent) = granted p r t v h in
      elim (Bool-cases p.wildcard) [
        | inl all ↦ inr (
          read_wildcard o.allowed_origins read done (ground arith),
          ground arith,
          λ w c. let allows = credentials p r t w c in ground arith,
        )
        | inr single ↦
            let listed : contains p.origins t ≡ true = ground arith in
            inl (
              read_exact o.allowed_origins read t done
                  (rw origins at (contains-IsIn p.origins t listed)),
              ground arith,
            )
      ]

  -- A part of the requested headers is blank, or names a header that is allowed, in lower case.
  abbrev pub IsAllowedName : List Bytes → Bytes → Type 0
  IsAllowedName allowed part =
      (trimmed (lower part) ≡ []) ⊎ IsIn (trimmed (lower part)) (map lower allowed)

  names_allowed :
      (p : Policy) (allowed parts : List Bytes)
      → p.headers ≡ map lower allowed
      → all (header_ok parse_url upper lower trimmed decimal p) parts ≡ true
      → All (IsAllowedName allowed) parts
  names_allowed p allowed [] e h = tt
  names_allowed p allowed (part ∷ more) e h = (
    elim (Bool-cases (is_empty (trimmed (lower part)))) [
      | inl blank ↦ inl (ground arith)
      | inr named ↦
          let known : contains p.headers (trimmed (lower part)) ≡ true = ground arith in
          inr (rw e at (contains-IsIn p.headers (trimmed (lower part)) known))
    ],
    names_allowed p allowed more e (ground arith),
  )

  accepted :
      (p : Policy) (r : Request) (t : Bytes)
      → Answers 204 (actions_of (decide parse_url upper lower trimmed decimal p r t))
      → (is_allowed p t ≡ true) × (preflight_ok parse_url upper lower trimmed decimal p r ≡ true)
  unfolding decide
  accepted p r t h = ground arith

  -- A policy that `CORS` has built answers a preflight request with 204 only if the options list its
  -- origin or the wildcard, its method in upper case, and each header that it asks for.
  pub cors_preflight :
      (o : CorsOptions) (p : Policy) (r : Request) (t : Bytes)
      → new_policy parse_url upper lower trimmed decimal o ≡ ok p
      → Answers 204 (actions_of (decide parse_url upper lower trimmed decimal p r t))
      → (IsIn t o.allowed_origins ⊎ IsIn (codes "*") o.allowed_origins)
        × IsIn (upper (get request_method r.headers)) (map upper o.allowed_methods)
        × All (IsAllowedName o.allowed_headers) (split [] (get request_headers r.headers))
  unfolding preflight_ok
  cors_preflight o p r t e h =
      let (read, done, origins, wildcard, options, methods, headers, safe) = built o p e in
      let (allowed, fine) = accepted p r t h in
      let method : contains p.methods (upper (get request_method r.headers)) ≡ true =
        ground arith in
      (
        elim (Bool-cases p.wildcard) [
          | inl all ↦ inr (read_wildcard o.allowed_origins read done (ground arith))
          | inr single ↦
              let listed : contains p.origins t ≡ true = ground arith in
              inl (
                (read_exact o.allowed_origins read t done
                  (rw origins at (contains-IsIn p.origins t listed))).0)
        ],
        rw methods at (contains-IsIn p.methods (upper (get request_method r.headers)) method),
        names_allowed p o.allowed_headers (split [] (get request_headers r.headers)) headers
            (ground arith),
      )
