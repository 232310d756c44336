-- ===== src/Errors.antt =====
-- core/errors/errors.go: errors with a stable code and a public message. An error of another package is
-- its text, of a kind `K` that `errors.Is` and `errors.As` can tell, or one that wraps another.
pub mod Chains
pub mod Tests
use stumpfworks_framework.Base.{Bool, false, ◌++◌, Option, none, some, Bytes, codes}

-- A coded error without its cause.
pub record CodedError : Type 0 where
  pub code : Bytes
  pub public_message : Bytes

pub data Error (K : Type 0) : Type 0 where
  plain : K → Bytes → Error K
  -- `fmt.Errorf("…: %w", …)`
  wrapped : Bytes → Error K → Error K
  -- `Error`, without a cause and with one.
  coded : CodedError → Error K
  caused : CodedError → Error K → Error K

module _ {K : Type 0} where
  -- `New`
  unfoldable pub new : Bytes → Bytes → Error K
  new code public_message = coded (record { code = code; public_message = public_message })

  -- `Wrap`; the cause may be nil.
  unfoldable pub wrap : Bytes → Bytes → Option (Error K) → Error K
  wrap code public_message cause =
      let c : CodedError = record { code = code; public_message = public_message } in
      elim cause [ none ↦ coded c | some e ↦ caused c e ]

  -- `Unwrap`
  unfoldable pub unwrap : Error K → Option (Error K)
  unwrap (plain kind text) = none
  unwrap (wrapped text e) = some e
  unwrap (coded c) = none
  unwrap (caused c e) = some e

  -- `Error`
  unfoldable pub message : Error K → Bytes
  message (plain kind text) = text
  message (wrapped text e) = text ++ (codes ": " ++ message e)
  message (coded c) = c.code
  message (caused c e) = c.code ++ (codes ": " ++ message e)

  -- `As`
  unfoldable pub as_coded : Error K → Option CodedError
  as_coded (plain kind text) = none
  as_coded (wrapped text e) = as_coded e
  as_coded (coded c) = some c
  as_coded (caused c e) = some c

  -- `errors.Is` and `errors.As`, for kinds.
  unfoldable pub has_kind : (K → Bool) → Error K → Bool
  has_kind is_kind (plain kind text) = is_kind kind
  has_kind is_kind (wrapped text e) = has_kind is_kind e
  has_kind is_kind (coded c) = false
  has_kind is_kind (caused c e) = has_kind is_kind e
