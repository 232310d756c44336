-- ===== src/Oidc/Fetch.antt =====
-- auth/oidc: what the package does with the answer to an HTTP request (login.go, introspection.go,
-- and `fetchJSON` of discovery.go). Sending a request is a parameter, given the bound of the
-- `io.LimitReader` that reads the body.
use stumpfworks_framework.Base.{
  ℕ, ◌≤◌, ◌≡◌, refl, inl, inr, not, Option, none, some, Bytes, length, ltb, ◌==◌, arith,
  Option-cases, if◌then◌else◌,
}

-- `CheckRedirect` of an HTTP client: nil, which follows redirects; the one that returns
-- `ErrUseLastResponse`, which never does; or any other.
pub data CheckRedirect : Type 0 where
  unset use_last_response : CheckRedirect
  other : ℕ → CheckRedirect

-- `http.Client`; the number stands for its transport, cookie jar and timeout.
pub record Client : Type 0 where
  pub check_redirect : CheckRedirect
  pub transport : ℕ

-- `contents` is what is read of the body, `none` where reading failed.
pub record Response : Type 0 where
  pub status : ℕ
  pub contents : Option Bytes

-- The body of a response with status 200 that is read whole within the limit.
unfoldable pub body_of : ℕ → Option Response → Option Bytes
body_of limit none = none
body_of limit (some r) = if not (r.status == 200) then none else elim r.contents [
  | none ↦ none
  | some contents ↦ if ltb limit (length contents) then none else some contents
]

-- What a body that was taken says of the response.
pub body_of-eq-some :
    (limit : ℕ) (response : Option Response) (body : Bytes)
    → body_of limit response ≡ some body
    → (r : Response) × (response ≡ some r)
      × (r.status ≡ 200)
      × (r.contents ≡ some body)
      × (length body ≤ limit)
unfolding body_of
body_of-eq-some limit none body e = cc
body_of-eq-some limit (some r) body e = elim (Option-cases r.contents) [
  | inl unread ↦ absurd (ground arith)
  | inr (contents, read) ↦ (r, refl, ground arith, ground arith, ground arith)
]
