-- ===== src/Oidc/Transactions.antt =====
-- auth/oidc/login.go, `Transaction`, and the clock that the package reads.
-- An instant is the number of nanoseconds since Go's zero time, which is 0, so `IsZero` is a test for
-- 0. A duration that the code compares is nonnegative, so `t.Sub(u) > d` is `ltb d (t - u)`: where `u`
-- is later the difference is 0 here and negative there, and a saturated one is beyond each bound.
-- Transactions are shared through pointers: a pointer is an address in a heap, and nil is `none`.
use stumpfworks_framework.Base.{
  ℕ, ◌+◌, ◌-◌, ◌*◌, ◌^◌, Bool, true, false, Option, none, some, Bytes, ltb, ◌==◌, if◌then◌else◌,
}

abbrev pub second : ℕ
second = 10 ^ 9

abbrev pub minute : ℕ
minute = 60 * second

abbrev pub hour : ℕ
hour = 60 * minute

abbrev pub clock_skew : ℕ
clock_skew = minute

abbrev pub transaction_lifetime : ℕ
transaction_lifetime = 5 * minute

-- `owner` is the address of the client that began the login.
pub record Transaction : Type 0 where
  pub owner : Option ℕ
  pub state : Bytes
  pub nonce : Bytes
  pub verifier : Bytes
  pub created_at : ℕ
  pub used : Bool

abbrev pub Heap : Type 0
Heap = ℕ → Transaction

-- A write through a pointer.
abbrev pub update : Heap → ℕ → Transaction → Heap
update heap a t b = if a == b then t else heap b

-- `transaction.used.Store(true)`, the write of `used.Swap(true)`.
abbrev pub mark_used : Heap → ℕ → Heap
mark_used heap a = update heap a (record (heap a) { used = true })

abbrev pub has_expired : ℕ → Transaction → Bool
has_expired now t = ltb transaction_lifetime (now - t.created_at)

-- `transaction.createdAt.After(now.Add(clockSkew))`
abbrev pub is_future : ℕ → Transaction → Bool
is_future now t = ltb (now + clock_skew) t.created_at

abbrev pub is_nil {ℓ} : {A : Type ℓ} → Option A → Bool
is_nil none = true
is_nil (some a) = false
