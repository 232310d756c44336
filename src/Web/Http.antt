-- ===== src/Web/Http.antt =====
-- net/http, as the middleware uses it: a handler reads a request and the headers that are set so far,
-- and then sets headers and writes. A run is the list of what it did, whether it ended in a panic, and
-- what was logged.
use stumpfworks_framework.Base.{
  ℕ, Bool, false, List, [], ◌∷◌, ◌++◌, none, some, Bytes, Bytes-discrete, lookup, insert,
}

-- The canonical names of the headers that the framework uses, and any other.
pub data Field : Type 0 where
  origin vary cache_control content_type retry_after x_request_id : Field
  request_method request_headers allow_origin allow_credentials allow_methods : Field
  allow_headers expose_headers max_age content_type_options frame_options referrer_policy : Field
  security_policy permissions_policy transport_security authorization www_authenticate : Field
  other : Bytes → Field

unfoldable pub Field-discrete : Discrete Field
unfolding Bytes-discrete
Field-discrete = hlevel Bytes-discrete

abbrev pub Headers : Type 0
Headers = List (Field × List Bytes)

abbrev pub first : List Bytes → Bytes
first [] = []
first (value ∷ more) = value

-- `Header.Get`: the first value, or the empty text.
unfoldable pub get : Field → Headers → Bytes
get name h = elim (lookup Field-discrete name h) [ none ↦ [] | some values ↦ first values ]

-- `Header.Set`
abbrev pub set : Field → Bytes → Headers → Headers
set name value h = insert Field-discrete name (value ∷ []) h

-- `Header.Add`
unfoldable pub add : Field → Bytes → Headers → Headers
add name value h = elim (lookup Field-discrete name h) [
  | none ↦ insert Field-discrete name (value ∷ []) h
  | some values ↦ insert Field-discrete name (values ++ value ∷ []) h
]

-- What a handler does to its `http.ResponseWriter`.
pub data Action : Type 0 where
  set_header add_header : Field → Bytes → Action
  write_header : ℕ → Action
  write : Bytes → Action

-- The headers after some actions.
unfoldable pub headers_after : List Action → Headers → Headers
headers_after [] h = h
headers_after (set_header name value ∷ more) h = headers_after more (set name value h)
headers_after (add_header name value ∷ more) h = headers_after more (add name value h)
headers_after (write_header status ∷ more) h = headers_after more h
headers_after (write body ∷ more) h = headers_after more h

-- `request_id` is the value in the context; `pattern` is set by the router.
pub record Request : Type 0 where
  pub method : Bytes
  pub headers : Headers
  pub is_tls : Bool
  pub pattern : Bytes
  pub request_id : Bytes

pub data LogEntry : Type 0 where
  -- The ID, method, route and status.
  request_completed : Bytes → Bytes → Bytes → ℕ → LogEntry
  request_panic : Bytes → LogEntry

pub record Run : Type 0 where
  pub actions : List Action
  pub panicked : Bool
  pub logged : List LogEntry

abbrev pub Handler : Type 0
Handler = Request → Headers → Run

-- A handler that does this and returns.
abbrev pub reply : List Action → Run
reply actions = record { actions = actions; panicked = false; logged = [] }

-- `next` after some actions.
abbrev pub after : List Action → Handler → Handler
after actions next r h =
    let run = next r (headers_after actions h) in record run { actions = actions ++ run.actions }
