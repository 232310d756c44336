-- ===== src/Oidc/Cookies.antt =====
-- auth/oidc/store.go: the cookie that binds a login to its browser. `valid` is `http.Cookie.Valid`, and
-- random bytes are an argument.
pub mod Scope
pub mod Tests
use stumpfworks_framework.Base.{
  ℕ, ◌/◌, Bool, true, false, not, ◌&&◌, List, [], ◌∷◌, Option, none, some, Bytes, length, take, eqb,
  is_empty, codes, Result, ok, err, ◌>>=◌, ◌>>◌, or_fail, reject_if, ℤ, pos, negsuc,
}
use stumpfworks_framework.Oidc.Transactions.{second, transaction_lifetime}
use stumpfworks_framework.Oidc.Base64.{decode_binding, random_url_string}

pub data SameSite : Type 0 where
  lax_mode other_mode : SameSite

-- The fields of `http.Cookie` that the code sets. A negative age deletes the cookie.
pub record Cookie : Type 0 where
  pub name : Bytes
  pub value : Bytes
  pub path : Bytes
  pub max_age : ℤ
  pub secure : Bool
  pub http_only : Bool
  pub same_site : SameSite

pub data Error : Type 0 where
  login_failed no_host_prefix invalid_name : Error

-- `strings.HasPrefix`
abbrev pub has_prefix : Bytes → Bytes → Bool
has_prefix text prefix = eqb (take (length prefix) text) prefix

-- `NewBrowserBinding`
abbrev pub new_browser_binding : Option Bytes → Option Bytes
new_browser_binding drawn = random_url_string drawn

abbrev pub cookie_of : Bytes → Bytes → ℤ → Cookie
cookie_of name value max_age = record {
  name = name;
  value = value;
  path = codes "/";
  max_age = max_age;
  secure = true;
  http_only = true;
  same_site = lax_mode;
}

module _ (valid : Cookie → Bool) where
  -- `validateBindingCookie`
  unfoldable pub validate_binding_cookie : Cookie → Result Error (Unit {0})
  validate_binding_cookie c = do
    reject_if (not (has_prefix c.name (codes "__Host-"))) no_host_prefix
    reject_if (not (valid c)) invalid_name

  -- `BindingCookie`
  unfoldable pub binding_cookie : Bytes → Bytes → Result Error Cookie
  binding_cookie name binding = do
    decoded ← or_fail (decode_binding binding) login_failed
    validate_binding_cookie (cookie_of name binding (pos (transaction_lifetime / second)))
    ok (cookie_of name binding (pos (transaction_lifetime / second)))

  -- `ClearBindingCookie`
  unfoldable pub clear_binding_cookie : Bytes → Result Error Cookie
  clear_binding_cookie name = do
    validate_binding_cookie (cookie_of name [] (negsuc 0))
    ok (cookie_of name [] (negsuc 0))
