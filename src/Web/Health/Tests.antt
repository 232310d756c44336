-- ===== src/Web/Health/Tests.antt =====
-- web/health/health_test.go: one check succeeds, one fails, and one is late.
use stumpfworks_framework.Base.{
  ◌*◌, ◌^◌, ◌≡◌, refl, true, false, not, ◌&&◌, List, [], ◌∷◌, ◌++◌, some, none, Bytes,
  Bytes-discrete, codes, insert, ok, err, pos, sort_by, insert_sorted, text_lt,
}
use stumpfworks_framework.Web.Health.{
  Checks, Answer, no_name, bad_timeout, register, new, new_with_timeout, Event, finished, deadline,
  remove, collect, down, live, ready,
}
use stumpfworks_framework.Web.Health.Ready.{IsAnswer, contains, names_of, succeeded, ready_answers}

abbrev checks : Checks
checks = record {
  checks = (codes "db", 1) ∷ (codes "ldap", 2) ∷ (codes "queue", 3) ∷ [];
  timeout = pos (2 * 10 ^ 9);
}

abbrev events : List Event
events = finished (codes "ldap") true ∷ finished (codes "queue") false ∷ []

code : Unit {0}
unfolding ready collect remove Bytes-discrete insert sort_by insert_sorted text_lt register
    succeeded new_with_timeout
code = tt

registers : register (codes "db") (some 1) new ≡ ok (record new { checks = (codes "db", 1) ∷ [] })
unfolding code
registers = refl

needs_name : register [] (some 1) new ≡ err no_name
unfolding code
needs_name = refl

needs_time : new_with_timeout (pos 0) ≡ err bad_timeout
unfolding code
needs_time = refl

is_down :
    ready (events ++ deadline ∷ []) checks
    ≡ some (record { status = 503; body = down (codes "db" ∷ codes "queue" ∷ []) })
unfolding code
is_down = refl

is_up : ready [] new ≡ some live
unfolding code
is_up = refl

waits : ready events checks ≡ none
unfolding code
waits = refl

ready_answers_example :
    (answer : Answer) × (failed : List Bytes) × (ready (events ++ deadline ∷ []) checks
      ≡ some answer)
    × IsAnswer answer failed
    × ((name : Bytes)
        → contains failed name ≡ contains (names_of checks) name && not (succeeded name events))
unfolding code
ready_answers_example = ready_answers checks events (refl, (refl, tt))
