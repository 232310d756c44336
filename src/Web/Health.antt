-- ===== src/Web/Health.antt =====
-- web/health/health.go: liveness and readiness. A check runs in a goroutine of its own, so its result
-- is an event: the list of events is the order in which the results and the deadline come. A check
-- that panics is one that fails.
pub mod Ready
pub mod Tests
use stumpfworks_framework.Base.{
  ℕ, ◌*◌, ◌^◌, Bool, true, false, not, List, [], ◌∷◌, ◌++◌, map, Option, none, some, Bytes,
  Bytes-discrete, eqb, any, is_empty, codes, if◌then◌else◌, insert, Result, ok, err, ◌>>=◌, ◌>>◌,
  or_fail, reject_if, ℤ, pos, is_positive, sort_by, text_lt,
}
use stumpfworks_framework.Web.Http.{
  Action, set_header, write_header, write, content_type, cache_control,
}

pub data Error : Type 0 where
  bad_timeout no_name no_check : Error

-- `Handler`; a check is a number here.
pub record Checks : Type 0 where
  pub checks : List (Bytes × ℕ)
  pub timeout : ℤ

-- `New`
abbrev pub new : Checks
new = record { checks = []; timeout = pos (2 * 10 ^ 9) }

-- `NewWithTimeout`
unfoldable pub new_with_timeout : ℤ → Result Error Checks
new_with_timeout timeout = do
  reject_if (not (is_positive timeout)) bad_timeout
  ok (record { checks = []; timeout = timeout })

-- `Register`; a check that is nil is `none`.
unfoldable pub register : Bytes → Option ℕ → Checks → Result Error Checks
register name check h = do
  reject_if (is_empty name) no_name
  c ← or_fail check no_check
  ok (record h { checks = insert Bytes-discrete name c h.checks })

pub data Event : Type 0 where
  finished : Bytes → Bool → Event
  deadline : Event

pub remove : Bytes → List Bytes → List Bytes
remove name [] = []
remove name (n ∷ more) = let rest = remove name more in if eqb n name then rest else n ∷ rest

-- The loop over `pending`, which ends when it is empty; `none` while results are awaited.
unfoldable pub collect : List Event → List Bytes → List Bytes → Option (List Bytes)
unfolding remove
collect events [] failed = some failed
collect [] (p ∷ pending) failed = none
collect (finished name good ∷ events) (p ∷ pending) failed =
    collect events (remove name (p ∷ pending)) (if good then failed else failed ++ name ∷ [])
collect (deadline ∷ events) (p ∷ pending) failed = some (failed ++ p ∷ pending)

-- The body of an answer: its status text, and the failed checks of one that is down.
pub data Body : Type 0 where
  up : Body
  down : List Bytes → Body

pub record Answer : Type 0 where
  pub status : ℕ
  pub body : Body

-- `Live`
abbrev pub live : Answer
live = record { status = 200; body = up }

abbrev pub answer_of : List Bytes → Answer
answer_of [] = live
answer_of (f ∷ more) = record { status = 503; body = down (f ∷ more) }

-- `Ready`
unfoldable pub ready : List Event → Checks → Option Answer
ready events h = elim (collect events (map (λ (c : Bytes × ℕ). c.0) h.checks) []) [
  | none ↦ none
  | some failed ↦ some (answer_of (sort_by text_lt failed))
]

-- `respond`, for a JSON encoder.
abbrev pub respond : (Body → Bytes) → Answer → List Action
respond encode a =
    set_header content_type (codes "application/json")
    ∷ set_header cache_control (codes "no-store")
    ∷ write_header a.status
    ∷ write (encode a.body)
    ∷ []
