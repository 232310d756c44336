-- ===== src/Web/Concurrency/Slots.antt =====
-- web/middleware/concurrency.go: who holds the slots.
use stumpfworks_framework.Base.{ℕ, ◌+◌, ◌≤◌, ◌≡◌, refl, ap, List, [], ◌∷◌, ◌++◌, arith}
use stumpfworks_framework.Web.Concurrency.{
  Limiter, Phase, arrived, waiting, serving, refused, canceled, finished, Move, enqueue, enter_now,
  turn_away, enter, expire, cancel, leave, Server, Step, arrive, move, Steps, here, next, start,
}

abbrev pub weight : Phase → ℕ
weight serving = 1
weight arrived = 0
weight waiting = 0
weight refused = 0
weight canceled = 0
weight finished = 0

-- The number of requests that are being served.
abbrev pub in_service : List Phase → ℕ
in_service [] = 0
in_service (a ∷ more) = weight a + in_service more

-- Each slot is held by a request that is being served, and there are no more than the maximum.
pub record IsSound (l : Limiter) (s : Server) : Type 0 where
  pub held : s.slots ≡ in_service s.requests
  pub bounded : s.slots ≤ l.maximum

pub in_service-append : (xs ys : List Phase) → in_service (xs ++ ys) ≡ in_service xs + in_service ys
in_service-append [] ys = omega arith
in_service-append (a ∷ xs) ys = omega (arith, in_service-append xs ys)

Move-weight :
    {l : Limiter} {a b : Phase} {n m : ℕ}
    → Move l a n b m
    → n ≤ l.maximum
    → (m + weight a ≡ n + weight b) × (m ≤ l.maximum)
Move-weight (enqueue timed ea eb em) h = rw (ea, eb, em) (ground arith)
Move-weight (enter_now timed ea room eb em) h = rw (ea, eb, em) (ground arith)
Move-weight (turn_away timed ea full eb em) h = rw (ea, eb, em) (ground arith)
Move-weight (enter ea room eb em) h = rw (ea, eb, em) (ground arith)
Move-weight (expire ea eb em) h = rw (ea, eb, em) (ground arith)
Move-weight (cancel ea eb em) h = rw (ea, eb, em) (ground arith)
Move-weight (leave ea eb en) h = rw (ea, eb) (ground arith)

pub Step-IsSound : {l : Limiter} {s t : Server} → Step l s t → IsSound l s → IsSound l t
Step-IsSound (arrive es er) h = record {
  held = omega (arith, h.held, ap in_service er);
  bounded = omega (arith, h.bounded);
}
Step-IsSound {s} {t} (move before later a b es et mv) h =
    let (kept, bounded) = Move-weight mv h.bounded in
    let old = in_service-append before (a ∷ later) in
    let new = in_service-append before (b ∷ later) in
    let held = h.held in
    let was : in_service s.requests ≡ in_service (before ++ a ∷ later) = ap in_service es in
    let is : in_service t.requests ≡ in_service (before ++ b ∷ later) = ap in_service et in
    record { held = omega arith; bounded = bounded }

-- Whatever the order of arrivals, timeouts, cancellations and returns, the values in the channel are
-- the requests that are being served, and they are at most the maximum.
pub Steps-IsSound : {l : Limiter} {s : Server} → Steps l start s → IsSound l s
Steps-IsSound here = record { held = refl; bounded = omega arith }
Steps-IsSound (next steps step) = Step-IsSound step (Steps-IsSound steps)
