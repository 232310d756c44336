-- ===== src/App/Tests.antt =====
-- core/app/app_test.go: an application with two resources and one middleware.
use stumpfworks_framework.Base.{
  ◌≡◌, ◌↔◌, refl, true, false, List, [], ◌∷◌, ◌++◌, map, none, Bytes-discrete, codes, All, ok, err,
  pos,
}
use stumpfworks_framework.Web.Http.{Handler, reply, after, set_header, write, vary}
use stumpfworks_framework.App.{
  Options, App, World, Effect, log_started, log_stopping, shutdown, force_close, log_stopped, close,
  bad_timeout, no_resource, shutdown_failed, server_closed, new, use_resource, use_http, backwards,
  wrap, handler, serve, close_resources, run,
}
use stumpfworks_framework.App.Lifecycle.{
  IsNoClose, IsGraceful, nest, use_all, use_all_http, run_closes,
}

abbrev options : Options
options = record {
  name = codes "x";
  version = [];
  address = codes ":1";
  read_timeout = pos 1;
  read_header_timeout = pos 1;
  write_timeout = pos 1;
  idle_timeout = pos 1;
  shutdown_timeout = pos 1;
  max_header_bytes = pos 1;
  has_logger = true;
}

abbrev fresh : App
fresh = record { options = options; middleware = []; resources = [] }

abbrev owner : App
owner = record fresh { resources = 3 ∷ 4 ∷ [] }

abbrev marking : Handler → Handler
marking next = after (set_header vary (codes "a") ∷ []) next

abbrev whole : App
whole = record owner { middleware = marking ∷ [] }

abbrev mux : Handler
mux r h = reply (write (codes "b") ∷ [])

abbrev world : World
world = record { listens = true; ends_first = none; shuts_down = true; ends = server_closed }

code : Unit {0}
unfolding new use_resource use_http backwards wrap handler serve close_resources run use_all
    use_all_http Bytes-discrete
code = tt

builds : new options ≡ ok fresh
unfolding code
builds = refl

needs_timeout : new (record options { idle_timeout = pos 0 }) ≡ err bad_timeout
unfolding code
needs_timeout = refl

needs_resource : use_resource none fresh ≡ err no_resource
unfolding code
needs_resource = refl

owns : use_all (3 ∷ 4 ∷ []) fresh ≡ ok owner
unfolding code
owns = refl

wraps : use_all_http (marking ∷ []) owner ≡ ok whole
unfolding code
wraps = refl

ends : run true world whole ≡ record {
  result = ok tt;
  effects = log_started ∷ log_stopping ∷ shutdown ∷ log_stopped ∷ close 4 ∷ close 3 ∷ [];
}
unfolding code
ends = refl

is_forced : run true (record world { shuts_down = false }) whole ≡ record {
  result = err shutdown_failed;
  effects = log_started ∷ log_stopping ∷ shutdown ∷ force_close ∷ close 4 ∷ close 3 ∷ [];
}
unfolding code
is_forced = refl

run_closes_example :
    ((served : List Effect) × All IsNoClose served
      × ((run true world whole).effects ≡ served ++ map (λ r. close r) (backwards (3 ∷ 4 ∷ []))))
    × (((run true world whole).result ≡ ok tt) ↔ IsGraceful world)
    × (handler whole mux ≡ nest (marking ∷ []) mux)
run_closes_example =
    run_closes (3 ∷ 4 ∷ []) (marking ∷ []) options fresh owner whole world mux builds owns wraps
