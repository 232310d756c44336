-- ===== src/App.antt =====
-- core/app/app.go: an HTTP application, its middleware and the resources that it owns. The router is
-- a handler, a resource is a number, and what net/http and the context do in a run is an argument.
pub mod Lifecycle
pub mod Tests
use stumpfworks_framework.Base.{
  ℕ, Bool, true, not, ◌||◌, List, [], ◌∷◌, ◌++◌, Option, none, some, Bytes, map, is_empty,
  if◌then◌else◌, Result, ok, err, ◌>>=◌, ◌>>◌, or_fail, reject_if, ℤ, is_positive,
}
use stumpfworks_framework.Web.Http.{Handler}

-- `Options`; whether there is a logger.
pub record Options : Type 0 where
  pub name : Bytes
  pub version : Bytes
  pub address : Bytes
  pub read_timeout : ℤ
  pub read_header_timeout : ℤ
  pub write_timeout : ℤ
  pub idle_timeout : ℤ
  pub shutdown_timeout : ℤ
  pub max_header_bytes : ℤ
  pub has_logger : Bool

pub record App : Type 0 where
  pub options : Options
  pub middleware : List (Handler → Handler)
  pub resources : List ℕ

pub data Error : Type 0 where
  no_name no_address no_logger bad_timeout bad_header_bytes no_resource no_middleware : Error

-- `New`
unfoldable pub new : Options → Result Error App
new o = do
  reject_if (is_empty o.name) no_name
  reject_if (is_empty o.address) no_address
  reject_if (not o.has_logger) no_logger
  reject_if
      (not (is_positive o.read_timeout)
        || not (is_positive o.read_header_timeout)
        || not (is_positive o.write_timeout)
        || not (is_positive o.idle_timeout)
        || not (is_positive o.shutdown_timeout))
      bad_timeout
  reject_if (not (is_positive o.max_header_bytes)) bad_header_bytes
  ok (record { options = o; middleware = []; resources = [] })

-- `Use`; a resource that is nil, in an interface or not, is `none`.
unfoldable pub use_resource : Option ℕ → App → Result Error App
use_resource resource a = do
  r ← or_fail resource no_resource
  ok (record a { resources = a.resources ++ r ∷ [] })

-- `UseHTTP`
unfoldable pub use_http : Option (Handler → Handler) → App → Result Error App
use_http middleware a = do
  m ← or_fail middleware no_middleware
  ok (record a { middleware = a.middleware ++ m ∷ [] })

-- The indices of the loops run down, so they see this list.
unfoldable pub backwards {ℓ} : {A : Type ℓ} → List A → List A
backwards [] = []
backwards (x ∷ more) = backwards more ++ x ∷ []

-- The loop of `handler`.
unfoldable pub wrap : List (Handler → Handler) → Handler → Handler
wrap [] h = h
wrap (m ∷ more) h = wrap more (m h)

-- `handler`, for the router.
unfoldable pub handler : App → Handler → Handler
handler a mux = wrap (backwards a.middleware) mux

-- How `server.Serve` ends: with `ErrServerClosed`, or with an error of its own.
pub data ServeEnd : Type 0 where
  server_closed serve_failed : ServeEnd

-- One run: whether listening succeeds, how serving ends where it does so before the context is
-- cancelled, and else whether the shutdown is in time, and how serving ends then.
pub record World : Type 0 where
  pub listens : Bool
  pub ends_first : Option ServeEnd
  pub shuts_down : Bool
  pub ends : ServeEnd

pub data RunError : Type 0 where
  no_context listen_failed failed shutdown_failed : RunError

pub data Effect : Type 0 where
  log_started log_stopping shutdown force_close log_stopped : Effect
  close : ℕ → Effect

pub record Ran : Type 0 where
  pub result : Result RunError (Unit {0})
  pub effects : List Effect

abbrev pub verdict : ServeEnd → Result RunError (Unit {0})
verdict server_closed = ok tt
verdict serve_failed = err failed

-- `serve`, on a listener.
unfoldable pub serve : World → Ran
serve w = elim w.ends_first [
  | some end ↦ record { result = verdict end; effects = log_started ∷ [] }
  | none ↦
      if not w.shuts_down
      then record {
        result = err shutdown_failed;
        effects = log_started ∷ log_stopping ∷ shutdown ∷ force_close ∷ [];
      }
      else elim w.ends [
        | server_closed ↦ record {
          result = ok tt;
          effects = log_started ∷ log_stopping ∷ shutdown ∷ log_stopped ∷ [];
        }
        | serve_failed ↦ record {
          result = err failed;
          effects = log_started ∷ log_stopping ∷ shutdown ∷ [];
        }
      ]
]

-- `closeResources`
unfoldable pub close_resources : App → List Effect
unfolding backwards
close_resources a = map (λ r. close r) (backwards a.resources)

-- `Run`, with the deferred call at its end.
unfoldable pub run : Bool → World → App → Ran
run has_context w a =
    if not has_context
    then record { result = err no_context; effects = [] }
    else if not w.listens
    then record { result = err listen_failed; effects = close_resources a }
    else record { result = (serve w).result; effects = (serve w).effects ++ close_resources a }
