-- ===== src/Oidc/Cookies/Tests.antt =====
-- auth/oidc/store_test.go: a cookie for a fresh secret, and one without the prefix.
use stumpfworks_framework.Base.{
  ℕ, zero, suc, ◌≡◌, refl, true, Bool, [], ◌∷◌, some, Bytes, Bytes-discrete, codes, ok, err, pos,
}
use stumpfworks_framework.Oidc.Base64.{encode, decode, decode_binding, random_url_string}
use stumpfworks_framework.Oidc.Cookies.{
  Cookie, has_prefix, no_host_prefix, login_failed, new_browser_binding, cookie_of,
  validate_binding_cookie, binding_cookie, clear_binding_cookie,
}

abbrev bytes_of : ℕ → Bytes
bytes_of zero = []
bytes_of (suc n) = 7 ∷ bytes_of n

abbrev secret : Bytes
secret = encode (bytes_of 32)

abbrev name : Bytes
name = codes "__Host-login"

abbrev valid : Cookie → Bool
valid c = true

abbrev cookie : Cookie
cookie = cookie_of name secret (pos 300)

code : Unit {0}
unfolding Bytes-discrete encode decode decode_binding random_url_string validate_binding_cookie
    binding_cookie clear_binding_cookie
code = tt

binds : binding_cookie valid name secret ≡ ok cookie
unfolding code
binds = refl

wants_prefix : binding_cookie valid (codes "login") secret ≡ err no_host_prefix
unfolding code
wants_prefix = refl

wants_secret : binding_cookie valid name (codes "short") ≡ err login_failed
unfolding code
wants_secret = refl

made : new_browser_binding (some (bytes_of 32)) ≡ some secret
unfolding code
made = refl

prefixed : has_prefix name (codes "__Host-") ≡ true
unfolding code
prefixed = refl
