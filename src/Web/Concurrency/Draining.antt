-- ===== src/Web/Concurrency/Draining.antt =====
-- web/middleware/concurrency.go: no request is stuck, and no slot is lost.
use stumpfworks_framework.Base.{
  ℕ, ◌+◌, ◌≡◌, inl, inr, refl, List, [], ◌∷◌, ◌++◌, All, arith, Bool-cases, ltb,
}
use mathlib.Core.List.{append_assoc, append-nil}
use stumpfworks_framework.Web.Concurrency.{
  Limiter, Phase, arrived, waiting, serving, refused, canceled, finished, Move, enqueue, enter_now,
  turn_away, expire, leave, Server, move, Steps, here, next, start,
}
use stumpfworks_framework.Web.Concurrency.Slots.{weight, in_service, Steps-IsSound}

-- The request has its answer, or needs none.
abbrev pub IsOver : Phase → Type 0
IsOver refused = Unit {0}
IsOver canceled = Unit {0}
IsOver finished = Unit {0}
IsOver arrived = ⊥
IsOver waiting = ⊥
IsOver serving = ⊥

Steps-append : {l : Limiter} {s t u : Server} → Steps l s t → Steps l t u → Steps l s u
Steps-append first here = first
Steps-append first (next more step) = next (Steps-append first more) step

abbrev server : ℕ → List Phase → Server
server n requests = record { slots = n; requests = requests }

All-snoc : (xs : List Phase) (b : Phase) → All IsOver xs → IsOver b → All IsOver (xs ++ b ∷ [])
All-snoc [] b h over = (over, tt)
All-snoc (a ∷ xs) b h over = (h.0, All-snoc xs b h.1 over)

one_step :
    {l : Limiter} (before later : List Phase) (a b : Phase) (n m : ℕ)
    → Move l a n b m
    → Steps l (server n (before ++ a ∷ later)) (server m (before ++ b ∷ later))
one_step before later a b n m mv = next here (move before later a b refl refl mv)

-- One request can come to its end; a slot that it holds becomes free.
end_one :
    (l : Limiter) (before later : List Phase) (a : Phase) (n m : ℕ)
    → n ≡ m + weight a
    → (b : Phase) × IsOver b
      × Steps l (server n (before ++ a ∷ later)) (server m (before ++ b ∷ later))
end_one l before later refused n m e = let same : n ≡ m = omega arith in (refused, tt, rw same here)
end_one l before later canceled n m e =
    let same : n ≡ m = omega arith in (canceled, tt, rw same here)
end_one l before later finished n m e =
    let same : n ≡ m = omega arith in (finished, tt, rw same here)
end_one l before later waiting n m e =
    (refused, tt, one_step before later waiting refused n m (expire refl refl (omega arith)))
end_one l before later serving n m e =
    (finished, tt, one_step before later serving finished n m (leave refl refl (omega arith)))
end_one l before later arrived n m e = elim (Bool-cases l.timed) [
  | inl timed ↦ (
    refused,
    tt,
    Steps-append (one_step before later arrived waiting n n (enqueue timed refl refl refl))
        (one_step before later waiting refused n m (expire refl refl (omega arith))),
  )
  | inr untimed ↦ elim (Bool-cases (ltb n l.maximum)) [
    | inl room ↦ (
      finished,
      tt,
      Steps-append
          (one_step before later arrived serving n (n + 1)
            (enter_now untimed refl (ground arith) refl refl))
          (one_step before later serving finished (n + 1) m (leave refl refl (omega arith))),
    )
    | inr full ↦ (
      refused,
      tt,
      one_step before later arrived refused n m
          (turn_away untimed refl (ground arith) refl (omega arith)),
    )
  ]
]

-- The requests behind those that are over can come to their ends one after the other.
end-All :
    (l : Limiter) (before later : List Phase) (n : ℕ)
    → All IsOver before
    → n ≡ in_service later
    → (over : List Phase) × All IsOver over × Steps l (server n (before ++ later)) (server 0 over)
end-All l before [] n h e =
    let none_left : n ≡ 0 = e in (before, h, rw (none_left, append-nil before) here)
end-All l before (a ∷ later) n h e =
    let (b, over, first) = end_one l before later a n (in_service later) (omega arith) in
    let (all, done, rest) =
      end-All l (before ++ b ∷ []) later (in_service later) (All-snoc before b h over) refl in
    (all, done, Steps-append first (rw (append_assoc before (b ∷ []) later) at rest))

-- From each state that a server can come to, some steps bring every request to its end, and then
-- the channel is empty: no request is stuck, and no slot is lost.
pub Steps_drain :
    {l : Limiter} {s : Server}
    → Steps l start s
    → (over : List Phase) × All IsOver over × Steps l s (record { slots = 0; requests = over })
Steps_drain {l} {s} steps = end-All l [] s.requests s.slots tt (Steps-IsSound steps).held
