-- ===== src/Web/Concurrency/Tests.antt =====
-- web/middleware/concurrency_test.go: one slot for two requests.
use stumpfworks_framework.Base.{
  ℕ, ◌≡◌, refl, false, List, [], ◌∷◌, arith, All, ok, err, pos, negsuc,
}
use stumpfworks_framework.Web.Concurrency.{
  Limiter, new_limiter, bad_maximum, bad_timeout, Phase, arrived, serving, refused, Server, Steps,
  arrive, move, enter_now, turn_away, here, next, start,
}
use stumpfworks_framework.Web.Concurrency.Slots.{IsSound, Steps-IsSound}
use stumpfworks_framework.Web.Concurrency.Draining.{IsOver, Steps_drain}

abbrev single : Limiter
single = record { maximum = 1; timed = false }

builds : new_limiter (pos 1) (pos 0) ≡ ok single
unfolding new_limiter
builds = refl

needs_slot : new_limiter (pos 0) (pos 0) ≡ err bad_maximum
unfolding new_limiter
needs_slot = refl

needs_timeout : new_limiter (pos 1) (negsuc 0) ≡ err bad_timeout
unfolding new_limiter
needs_timeout = refl

abbrev state : ℕ → List Phase → Server
state n l = record { slots = n; requests = l }

abbrev full : Server
full = state 1 (refused ∷ serving ∷ [])

-- The second request finds the one slot taken.
abbrev steps : Steps single start full
steps =
    next {t = state 1 (arrived ∷ serving ∷ [])}
      (next {t = state 1 (serving ∷ [])}
        (next {t = state 0 (arrived ∷ [])} (next {t = start} here (arrive refl refl))
          (move [] [] arrived serving refl refl (enter_now refl refl (omega arith) refl refl)))
        (arrive refl refl))
      (move [] (serving ∷ []) arrived refused refl refl
        (turn_away refl refl (omega arith) refl refl))

Steps-IsSound_example : IsSound single full
Steps-IsSound_example = Steps-IsSound {l = single} {s = full} steps

Steps_drain_example :
    (over : List Phase) × All IsOver over
    × Steps single full (record { slots = 0; requests = over })
Steps_drain_example = Steps_drain {l = single} {s = full} steps
