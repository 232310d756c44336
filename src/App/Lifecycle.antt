-- ===== src/App/Lifecycle.antt =====
-- core/app/app.go: the order of the middleware, and what `Run` closes.
use stumpfworks_framework.Base.{
  ℕ, ◌≡◌, ◌↔◌, ◌⊎◌, inl, inr, refl, sym, ap, ◌∙◌, true, List, [], ◌∷◌, ◌++◌, map, none, some, arith,
  ok, Result, ◌>>=◌, All, Option-cases, Bool-cases,
}
use mathlib.Core.List.{append_assoc, append-nil}
use stumpfworks_framework.Web.Http.{Handler}
use stumpfworks_framework.App.{
  Options, new, App, Error, World, Effect, close, log_started, log_stopping, log_stopped, shutdown,
  force_close, ServeEnd, server_closed, serve_failed, use_resource, use_http, backwards, wrap,
  handler, serve, close_resources, run,
}

-- `Use` for each resource, and `UseHTTP` for each middleware, one after the other.
unfoldable pub use_all : List ℕ → App → Result Error App
use_all [] a = ok a
use_all (r ∷ more) a = do b ← use_resource (some r) a; use_all more b

unfoldable pub use_all_http : List (Handler → Handler) → App → Result Error App
use_all_http [] a = ok a
use_all_http (m ∷ more) a = do b ← use_http (some m) a; use_all_http more b

-- The first middleware is outermost.
abbrev pub nest : List (Handler → Handler) → Handler → Handler
nest [] mux = mux
nest (m ∷ more) mux = m (nest more mux)

abbrev pub IsNoClose : Effect → Type 0
IsNoClose (close r) = ⊥
IsNoClose log_started = Unit {0}
IsNoClose log_stopping = Unit {0}
IsNoClose shutdown = Unit {0}
IsNoClose force_close = Unit {0}
IsNoClose log_stopped = Unit {0}

-- The run listens, and serving ends by `ErrServerClosed`: by itself, or after a shutdown in time.
abbrev pub IsGraceful : World → Type 0
IsGraceful w =
    (w.listens ≡ true)
    × ((w.ends_first ≡ some server_closed)
        ⊎ ((w.ends_first ≡ none) × (w.shuts_down ≡ true) × (w.ends ≡ server_closed)))

used :
    (rs : List ℕ) (a b : App)
    → use_all rs a ≡ ok b
    → (b.resources ≡ a.resources ++ rs) × (b.middleware ≡ a.middleware)
unfolding use_all use_resource
used [] a b e =
    let same : a ≡ b = ground arith in
    (
      ap (λ (c : App). c.resources) (sym same) ∙ sym (append-nil a.resources),
      ap (λ (c : App). c.middleware) (sym same),
    )
used (r ∷ rs) a b e =
    let rest = used rs (record a { resources = a.resources ++ r ∷ [] }) b e in
    (rest.0 ∙ append_assoc a.resources (r ∷ []) rs, rest.1)

used_http :
    (ms : List (Handler → Handler)) (a b : App)
    → use_all_http ms a ≡ ok b
    → (b.middleware ≡ a.middleware ++ ms) × (b.resources ≡ a.resources)
unfolding use_all_http use_http
used_http [] a b e =
    let same : a ≡ b = ground arith in
    (
      ap (λ (c : App). c.middleware) (sym same) ∙ sym (append-nil a.middleware),
      ap (λ (c : App). c.resources) (sym same),
    )
used_http (m ∷ ms) a b e =
    let rest = used_http ms (record a { middleware = a.middleware ++ m ∷ [] }) b e in
    (rest.0 ∙ append_assoc a.middleware (m ∷ []) ms, rest.1)

created : (o : Options) (a : App) → new o ≡ ok a → (a.resources ≡ []) × (a.middleware ≡ [])
unfolding new
created o a e = (ground arith, ground arith)

ServeEnd-cases : (e : ServeEnd) → (e ≡ server_closed) ⊎ (e ≡ serve_failed)
ServeEnd-cases server_closed = inl refl
ServeEnd-cases serve_failed = inr refl

served_closes_none : (w : World) → All IsNoClose (serve w).effects
unfolding serve
served_closes_none w = elim (Option-cases w.ends_first) [
  | inr (end, first) ↦ rw first (tt, tt)
  | inl canceled ↦ elim (Bool-cases w.shuts_down) [
    | inr late ↦ rw (canceled, late) (tt, (tt, (tt, (tt, tt))))
    | inl shut ↦ elim (ServeEnd-cases w.ends) [
      | inl closed ↦ rw (canceled, shut, closed) (tt, (tt, (tt, (tt, tt))))
      | inr bad ↦ rw (canceled, shut, bad) (tt, (tt, (tt, tt)))
    ]
  ]
]

closes :
    (w : World) (c : App) (rs : List ℕ)
    → c.resources ≡ rs
    → (served : List Effect) × All IsNoClose served
      × ((run true w c).effects ≡ served ++ map (λ r. close r) (backwards rs))
unfolding run close_resources
closes w c rs e = elim (Bool-cases w.listens) [
  | inl listening ↦ ((serve w).effects, served_closes_none w, rw (listening, e) refl)
  | inr deaf ↦ ([], tt, rw (deaf, e) refl)
]

wrap-append :
    (xs ys : List (Handler → Handler)) (h : Handler) → wrap (xs ++ ys) h ≡ wrap ys (wrap xs h)
unfolding wrap
wrap-append [] ys h = refl
wrap-append (m ∷ xs) ys h = wrap-append xs ys (m h)

wrap-backwards :
    (ms : List (Handler → Handler)) (mux : Handler) → wrap (backwards ms) mux ≡ nest ms mux
unfolding backwards wrap
wrap-backwards [] mux = refl
wrap-backwards (m ∷ ms) mux = wrap-append (backwards ms) (m ∷ []) mux ∙ ap m (wrap-backwards ms mux)

succeeds_iff : (w : World) (a : App) → ((run true w a).result ≡ ok tt) ↔ IsGraceful w
unfolding run serve
succeeds_iff w a = (λ e. ground arith, λ h. ground arith)

handled :
    (c : App) (ms : List (Handler → Handler)) (mux : Handler)
    → c.middleware ≡ ms
    → handler c mux ≡ nest ms mux
unfolding handler
handled c ms mux e = rw e (wrap-backwards ms mux)

-- A run that has a context closes each resource that `Use` was given once, the last one first, and
-- nothing before it has ended to serve, however it ends. It succeeds exactly if it could listen, and
-- serving ended with `ErrServerClosed`, by itself or after a shutdown in time. The first middleware
-- that `UseHTTP` was given is the first to see a request.
pub run_closes :
    (rs : List ℕ) (ms : List (Handler → Handler)) (o : Options) (a b c : App) (w : World)
    (mux : Handler)
    → new o ≡ ok a
    → use_all rs a ≡ ok b
    → use_all_http ms b ≡ ok c
    → ((served : List Effect) × All IsNoClose served
        × ((run true w c).effects ≡ served ++ map (λ r. close r) (backwards rs)))
      × (((run true w c).result ≡ ok tt) ↔ IsGraceful w)
      × (handler c mux ≡ nest ms mux)
run_closes rs ms o a b c w mux new_app with_resources with_middleware =
    let (no_resources, no_middleware) = created o a new_app in
    let (resources, untouched) = used rs a b with_resources in
    let (middleware, kept) = used_http ms b c with_middleware in
    let all : c.resources ≡ rs = rw no_resources at (kept ∙ resources) in
    let layers : c.middleware ≡ ms = rw no_middleware at (rw untouched at middleware) in
    (closes w c rs all, succeeds_iff w c, handled c ms mux layers)
