-- ===== src/Oidc/Cookies/Scope.antt =====
-- auth/oidc/store.go: the cookie is hardened, lives as long as the login, and is cleared under the
-- scope under which it was set.
use stumpfworks_framework.Base.{
  ◌*◌, ◌/◌, is_negative, Result-cases, ◌≡◌, inl, inr, refl, sym, ap, ◌∙◌, Bool, true, [], ◌++◌,
  some, Bytes, length, take, drop, take-append-drop, codes, ok, ℤ, pos, negsuc, arith, Option-cases,
}
use stumpfworks_framework.Oidc.Transactions.{second, transaction_lifetime}
use stumpfworks_framework.Oidc.Base64.{decode_binding}
use stumpfworks_framework.Oidc.Base64.RoundTrip.{AreBytes, random_url_string_accepted}
use stumpfworks_framework.Oidc.Cookies.{
  lax_mode, Cookie, has_prefix, new_browser_binding, cookie_of, validate_binding_cookie,
  binding_cookie, clear_binding_cookie,
}

-- Only the host that set it gets the cookie, over TLS alone, and no script reads it.
pub record IsHardened (c : Cookie) : Type 0 where
  pub host_only : (rest : Bytes) × (c.name ≡ codes "__Host-" ++ rest)
  pub path : c.path ≡ codes "/"
  pub secure : c.secure ≡ true
  pub http_only : c.http_only ≡ true
  pub same_site : c.same_site ≡ lax_mode

-- The browser forgets `c` when it gets `d`.
pub record IsCleared (c d : Cookie) : Type 0 where
  pub name : d.name ≡ c.name
  pub path : d.path ≡ c.path
  pub empty : d.value ≡ []
  pub expired : is_negative d.max_age ≡ true
  pub hardened : IsHardened d

has_prefix_sound :
    (text prefix : Bytes)
    → has_prefix text prefix ≡ true
    → text ≡ prefix ++ drop (length prefix) text
has_prefix_sound text prefix h =
    let same : take (length prefix) text ≡ prefix = ground arith in
    sym (take-append-drop (length prefix) text) ∙ ap (λ p. p ++ drop (length prefix) text) same

module _ (valid : Cookie → Bool) where
  validated :
      (c : Cookie)
      → validate_binding_cookie valid c ≡ ok tt
      → (has_prefix c.name (codes "__Host-") ≡ true) × (valid c ≡ true)
  unfolding validate_binding_cookie
  validated c e = (ground arith, ground arith)

  pub record IsBound (name binding : Bytes) (c : Cookie) : Type 0 where
    pub hardened : IsHardened c
    pub named : c.name ≡ name
    pub carries : c.value ≡ binding
    pub secret : (decoded : Bytes) × (decode_binding binding ≡ some decoded)
    pub age : c.max_age ≡ pos (5 * 60)
    pub accepted : valid c ≡ true

  hardened :
      (name value : Bytes) (age : ℤ)
      → has_prefix name (codes "__Host-") ≡ true
      → IsHardened (cookie_of name value age)
  hardened name value age h = record {
    host_only = (drop 7 name, has_prefix_sound name (codes "__Host-") h);
    path = refl;
    secure = refl;
    http_only = refl;
    same_site = refl;
  }

  bound :
      (name binding : Bytes) (c : Cookie)
      → binding_cookie valid name binding ≡ ok c
      → IsBound name binding c
  unfolding binding_cookie
  bound name binding c e =
      let cookie = cookie_of name binding (pos (transaction_lifetime / second)) in
      elim (Option-cases (decode_binding binding)) [
        | inl bad ↦ absurd (ground arith)
        | inr (decoded, good) ↦ elim (Result-cases (validate_binding_cookie valid cookie)) [
          | inr (reason, refused) ↦ absurd (ground arith)
          | inl (u, fine) ↦
              let same : cookie ≡ c = ground arith in
              let (prefixed, accepted) = validated cookie fine in
              rw (sym same) (record {
                hardened = hardened name binding _ prefixed;
                named = refl;
                carries = refl;
                secret = (decoded, good);
                age = refl;
                accepted = accepted;
              })
        ]
      ]

  cleared :
      (name binding : Bytes) (c d : Cookie)
      → IsBound name binding c
      → clear_binding_cookie valid name ≡ ok d
      → IsCleared c d
  unfolding clear_binding_cookie
  cleared name binding c d b e =
      elim (Result-cases (validate_binding_cookie valid (cookie_of name [] (negsuc 0)))) [
        | inr (reason, refused) ↦ absurd (ground arith)
        | inl (u, fine) ↦
            let same : cookie_of name [] (negsuc 0) ≡ d = ground arith in
            let (prefixed, accepted) = validated _ fine in
            rw (sym same) (record {
              name = sym b.named;
              path = sym b.hardened.path;
              empty = refl;
              expired = refl;
              hardened = hardened name [] _ prefixed;
            })
      ]

  -- The cookie that `BindingCookie` returns carries the secret that it is given, one that `Put` and
  -- `Take` decode, for the five minutes that a login lives. It goes to one host over TLS, its path is
  -- everything, no script reads it, and the SameSite mode is lax. The cookie that `ClearBindingCookie`
  -- returns for the same name deletes it, as it has its name and path.
  binding_cookie-IsBound :
      (name binding : Bytes) (c : Cookie)
      → binding_cookie valid name binding ≡ ok c
      → IsBound name binding c
        × ((d : Cookie) → clear_binding_cookie valid name ≡ ok d → IsCleared c d)
  binding_cookie-IsBound name binding c e =
      let b = bound name binding c e in (b, λ d f. cleared name binding c d b f)

  -- A fresh secret makes a cookie under each name that has the prefix and that net/http accepts.
  fresh_cookie :
      (name bytes binding : Bytes)
      → length bytes ≡ 32
      → AreBytes bytes
      → new_browser_binding (some bytes) ≡ some binding
      → has_prefix name (codes "__Host-") ≡ true
      → ((c : Cookie) → c.name ≡ name → c.value ≡ binding → valid c ≡ true)
      → ((c : Cookie) × (binding_cookie valid name binding ≡ ok c))
        × (decode_binding binding ≡ some bytes)
  unfolding binding_cookie validate_binding_cookie
  fresh_cookie name bytes binding size all made prefixed accepted =
      let (good, _) = random_url_string_accepted bytes binding size all made in
      let cookie = cookie_of name binding (pos (transaction_lifetime / second)) in
      ((cookie, rw (good, prefixed, accepted cookie refl refl) refl), good)
