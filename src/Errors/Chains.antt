-- ===== src/Errors/Chains.antt =====
-- core/errors/errors.go: what `As` and `Unwrap` find in the chain of an error.
use stumpfworks_framework.Base.{◌≡◌, refl, Bool, List, [], ◌∷◌, Option, none, some, Bytes}
use stumpfworks_framework.Errors.{Error, wrapped, wrap, unwrap, as_coded, has_kind}

module _ {K : Type 0} where
  -- An error that callers have wrapped with texts, the outermost first.
  abbrev pub within : List Bytes → Error K → Error K
  within [] e = e
  within (text ∷ more) e = wrapped text (within more e)

  -- `As` finds a coded error through any texts around it, with its code and public message.
  pub as_coded-within :
      (texts : List Bytes) (code public_message : Bytes) (cause : Option (Error K))
      → as_coded (within texts (wrap code public_message cause))
        ≡ some (record { code = code; public_message = public_message })
  unfolding as_coded wrap
  as_coded-within [] code public_message none = refl
  as_coded-within [] code public_message (some e) = refl
  as_coded-within (text ∷ more) code public_message cause =
      as_coded-within more code public_message cause

  -- Wrapping an error hides neither the error nor its kind from `errors.Is`.
  pub wrap_keeps_cause :
      (is_kind : K → Bool) (texts : List Bytes) (code public_message : Bytes) (cause : Error K)
      → let e = wrap code public_message (some cause) in
        (unwrap e ≡ some cause) × (has_kind is_kind (within texts e) ≡ has_kind is_kind cause)
  unfolding has_kind wrap unwrap
  wrap_keeps_cause is_kind [] code public_message cause = (refl, refl)
  wrap_keeps_cause is_kind (text ∷ more) code public_message cause =
      (refl, (wrap_keeps_cause is_kind more code public_message cause).1)
