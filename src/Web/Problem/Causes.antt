-- ===== src/Web/Problem/Causes.antt =====
-- web/problem/problem.go, `WriteError`: causes stay private.
use stumpfworks_framework.Base.{ℕ, ◌≡◌, refl, List, [], Option, none, Bytes}
use stumpfworks_framework.Errors.{Error, wrap}
use stumpfworks_framework.Errors.Chains.{within, as_coded-within}
use stumpfworks_framework.Web.Http.{Headers}
use stumpfworks_framework.Web.Problem.{Details, write_error}

-- The response to a coded error is the one to the same error without its cause, whatever the cause is
-- and whatever texts callers have wrapped around it.
write_error_hides_causes :
    {K : Type 0} (encode : Details → Bytes) (status_text : ℕ → Bytes) (h : Headers) (status : ℕ)
    (texts : List Bytes) (code public_message : Bytes) (cause : Option (Error K))
    → write_error encode status_text h status (within texts (wrap code public_message cause))
      ≡ write_error encode status_text h status (wrap {K = K} code public_message none)
unfolding write_error
write_error_hides_causes encode status_text h status texts code public_message cause =
    rw
      (as_coded-within texts code public_message cause, as_coded-within [] code public_message none)
      refl
