-- ===== src/Web/Concurrency.antt =====
-- web/middleware/concurrency.go: the semaphore in front of a handler. The channel is the number of
-- values in it, each request is in a phase, and the scheduler, the timers and the clients choose the
-- steps.
pub mod Slots
pub mod Draining
pub mod Tests
use stumpfworks_framework.Base.{
  ℕ, ◌+◌, ◌≤◌, ◌<◌, ◌≡◌, Bool, true, false, not, List, [], ◌∷◌, ◌++◌, Bytes, codes, Result, ok, err,
  ◌>>=◌, ◌>>◌, reject_if, ℤ, pos, negsuc, is_positive, is_negative,
}
use stumpfworks_framework.Web.Http.{
  Headers, Handler, Action, set_header, retry_after, reply, headers_after,
}
use stumpfworks_framework.Web.Problem.{Details, write_problem}

pub data Error : Type 0 where
  bad_maximum bad_timeout : Error

-- What the closure holds, besides the channel: `timed` is a positive queue timeout.
pub record Limiter : Type 0 where
  pub maximum : ℕ
  pub timed : Bool

abbrev pub to_nat : ℤ → ℕ
to_nat (pos n) = n
to_nat (negsuc n) = 0

-- `LimitConcurrency`, up to the handler.
unfoldable pub new_limiter : ℤ → ℤ → Result Error Limiter
new_limiter maximum queue_timeout = do
  reject_if (not (is_positive maximum)) bad_maximum
  reject_if (is_negative queue_timeout) bad_timeout
  ok (record { maximum = to_nat maximum; timed = is_positive queue_timeout })

-- `unavailable`
pub unavailable : (Details → Bytes) → (ℕ → Bytes) → Headers → List Action
unavailable encode status_text h =
    let first = set_header retry_after (codes "1") ∷ [] in
    first
    ++ write_problem encode status_text (headers_after first h) (record {
      kind = codes "https://docs.stumpfworks.de/problems/overloaded";
      title = codes "Service temporarily unavailable";
      status = 503;
      code = codes "service_overloaded";
      correlation_id = [];
      errors = [];
    })

-- `arrived` is before the first `select`, `finished` behind the deferred receive.
pub data Phase : Type 0 where
  arrived waiting serving refused canceled finished : Phase

-- What is done for a request that has come to `serving`, `refused` or `canceled`.
unfoldable pub limited : (Details → Bytes) → (ℕ → Bytes) → Phase → Handler → Handler
limited encode status_text refused next r h = reply (unavailable encode status_text h)
limited encode status_text canceled next r h = reply []
limited encode status_text phase next r h = next r h

-- A step of one request, from a phase and a number of values in the channel to those after it. A send
-- needs room, and `default` is taken only without.
pub data Move (l : Limiter) (a : Phase) (n : ℕ) (b : Phase) (m : ℕ) : Type 0 where
  enqueue : l.timed ≡ true → a ≡ arrived → b ≡ waiting → m ≡ n → Move l a n b m
  enter_now :
      l.timed ≡ false → a ≡ arrived → n < l.maximum → b ≡ serving → m ≡ n + 1 → Move l a n b m
  turn_away : l.timed ≡ false → a ≡ arrived → l.maximum ≤ n → b ≡ refused → m ≡ n → Move l a n b m
  enter : a ≡ waiting → n < l.maximum → b ≡ serving → m ≡ n + 1 → Move l a n b m
  expire : a ≡ waiting → b ≡ refused → m ≡ n → Move l a n b m
  cancel : a ≡ waiting → b ≡ canceled → m ≡ n → Move l a n b m
  leave : a ≡ serving → b ≡ finished → n ≡ m + 1 → Move l a n b m

pub record Server : Type 0 where
  pub slots : ℕ
  pub requests : List Phase

pub data Step (l : Limiter) (s t : Server) : Type 0 where
  arrive : t.slots ≡ s.slots → t.requests ≡ arrived ∷ s.requests → Step l s t
  move :
      (before later : List Phase) (a b : Phase)
      → s.requests ≡ before ++ a ∷ later
      → t.requests ≡ before ++ b ∷ later
      → Move l a s.slots b t.slots
      → Step l s t

pub data Steps (l : Limiter) (s : Server) : Server → Type 0 where
  here : Steps l s s
  next : {t u : Server} → Steps l s t → Step l t u → Steps l s u

-- No request yet, and an empty channel.
abbrev pub start : Server
start = record { slots = 0; requests = [] }
