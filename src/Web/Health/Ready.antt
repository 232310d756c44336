-- ===== src/Web/Health/Ready.antt =====
-- web/health/health.go, `Ready`: which checks an answer names.
use stumpfworks_framework.Base.{
  ℕ, ◌≡◌, ◌≢◌, ◌⊎◌, inl, inr, refl, ap, ◌∙◌, Bool, true, false, not, ◌&&◌, ◌||◌, List, [], ◌∷◌,
  ◌++◌, map, some, Bytes, Bytes-discrete, eqb, any, arith, if◌then◌else◌, sort_by, insert_sorted,
  text_lt,
}
use stumpfworks_framework.Web.Health.{
  Checks, Answer, up, down, Event, finished, deadline, remove, collect, answer_of, ready,
}

abbrev pub contains : List Bytes → Bytes → Bool
contains l name = any (λ n. eqb n name) l

abbrev pub names_of : Checks → List Bytes
names_of h = map (λ (c : Bytes × ℕ). c.0) h.checks

-- The check has reported success before the deadline.
unfoldable pub succeeded : Bytes → List Event → Bool
succeeded name [] = false
succeeded name (deadline ∷ events) = false
succeeded name (finished n good ∷ events) =
    let later = succeeded name events in if eqb n name then good else later

-- The answer for the failed checks `failed`.
abbrev pub IsAnswer : Answer → List Bytes → Type 0
IsAnswer a failed =
    ((failed ≡ []) × (a.status ≡ 200) × (a.body ≡ up))
    ⊎ ((failed ≢ []) × (a.status ≡ 503) × (a.body ≡ down failed))

answer_of-IsAnswer : (failed : List Bytes) → IsAnswer (answer_of failed) failed
answer_of-IsAnswer [] = inl (refl, refl, refl)
answer_of-IsAnswer (f ∷ more) = inr (λ e. cc, refl, refl)

-- Results come of the checks that are pending, one of each.
abbrev pub IsSchedule : List Bytes → List Event → Type 0
IsSchedule pending [] = Unit {0}
IsSchedule pending (deadline ∷ events) = Unit {0}
IsSchedule pending (finished name good ∷ events) =
    (contains pending name ≡ true) × IsSchedule (remove name pending) events

contains-append :
    (xs ys : List Bytes) (name : Bytes)
    → contains (xs ++ ys) name ≡ contains xs name || contains ys name
contains-append [] ys name = refl
contains-append (x ∷ xs) ys name = ground (arith, contains-append xs ys name)

contains-remove :
    (n : Bytes) (l : List Bytes) (name : Bytes)
    → contains (remove n l) name ≡ contains l name && not (eqb n name)
unfolding remove
contains-remove n [] name = refl
contains-remove n (x ∷ l) name = ground (arith, contains-remove n l name)

contains-insert_sorted :
    (a : Bytes) (l : List Bytes) (name : Bytes)
    → contains (insert_sorted text_lt a l) name ≡ eqb a name || contains l name
unfolding insert_sorted
contains-insert_sorted a [] name = refl
contains-insert_sorted a (b ∷ l) name = ground (arith, contains-insert_sorted a l name)

contains-sort_by :
    (l : List Bytes) (name : Bytes) → contains (sort_by text_lt l) name ≡ contains l name
unfolding sort_by
contains-sort_by [] name = refl
contains-sort_by (a ∷ l) name =
    ground (arith, contains-insert_sorted a (sort_by text_lt l) name, contains-sort_by l name)

contains-eqb :
    (n name : Bytes) (l : List Bytes) → eqb n name ≡ true → contains l n ≡ contains l name
contains-eqb n name l same = elim (Bytes-discrete n name) [
  | yes p ↦ ap (contains l) p
  | no q ↦ absurd (ground arith)
]

-- One result more.
contains-failed :
    (good : Bool) (failed : List Bytes) (n name : Bytes)
    → contains (if good then failed else failed ++ n ∷ []) name
      ≡ contains failed name || (eqb n name && not good)
contains-failed true failed n name = ground arith
contains-failed false failed n name = ground (arith, contains-append failed (n ∷ []) name)

-- What the loop ends with, when the deadline comes after the events.
collected :
    (events : List Event) (pending failed : List Bytes)
    → IsSchedule pending events
    → (all : List Bytes) × (collect (events ++ deadline ∷ []) pending failed ≡ some all)
      × ((name : Bytes)
          → contains all name
            ≡ contains failed name || (contains pending name && not (succeeded name events)))
unfolding collect succeeded
collected [] [] failed h = (failed, refl, λ name. ground arith)
collected [] (p ∷ pending) failed h =
    (failed ++ p ∷ pending, refl, λ name. ground (arith, contains-append failed (p ∷ pending) name))
collected (deadline ∷ events) [] failed h = (failed, refl, λ name. ground arith)
collected (deadline ∷ events) (p ∷ pending) failed h =
    (failed ++ p ∷ pending, refl, λ name. ground (arith, contains-append failed (p ∷ pending) name))
collected (finished n good ∷ events) [] failed h = absurd (ground (arith, h.0))
collected (finished n good ∷ events) (p ∷ pending) failed h =
    let rest =
      collected events (remove n (p ∷ pending)) (if good then failed else failed ++ n ∷ []) h.1 in
    (
      rest.0,
      rest.1,
      λ name. ground (
        arith,
        rest.2 name,
        contains-failed good failed n name,
        contains-remove n (p ∷ pending) name,
        contains-eqb n name (p ∷ pending),
        h.0,
      ),
    )

-- `Ready` answers at the latest when its deadline comes, whatever results of the registered checks
-- came before: with status 200 and "up" if no check failed, else with status 503 and the list of the
-- failed ones. A name is among them exactly if a check is registered under it and did not report
-- success before the deadline.
pub ready_answers :
    (h : Checks) (events : List Event)
    → IsSchedule (names_of h) events
    → (answer : Answer) × (failed : List Bytes) × (ready (events ++ deadline ∷ []) h ≡ some answer)
      × IsAnswer answer failed
      × ((name : Bytes)
          → contains failed name ≡ contains (names_of h) name && not (succeeded name events))
unfolding ready
ready_answers h events valid =
    let r = collected events (names_of h) [] valid in
    let failed = sort_by text_lt r.0 in
    (
      answer_of failed,
      failed,
      rw (r.1, ready),
      answer_of-IsAnswer failed,
      λ name. contains-sort_by r.0 name ∙ r.2 name,
    )
