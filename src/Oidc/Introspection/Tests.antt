-- ===== src/Oidc/Introspection/Tests.antt =====
-- auth/oidc/introspection_test.go: an active token, one that has ended, and one that the issuer does not
-- know.
use stumpfworks_framework.Base.{
  ℕ, ◌+◌, ◌*◌, ◌≤◌, ◌≡◌, ◌≢◌, ◌⊎◌, ◌↔◌, refl, true, false, [], ◌∷◌, some, none, Option, Bytes,
  Bytes-discrete, codes, eqb, length, ok, err, pos,
}
use stumpfworks_framework.Oidc.Transactions.{second}
use stumpfworks_framework.Oidc.Fetch.{Response, body_of}
use stumpfworks_framework.Oidc.Login.{max_code_bytes}
use stumpfworks_framework.Oidc.Verify.{epoch_seconds}
use stumpfworks_framework.Oidc.Verify.Tests.{now}
use stumpfworks_framework.Oidc.Introspection.{
  TokenStatus, TokenIntrospector, Answer, IntrospectionRequest, introspection_failed, inactive,
  dates_ok, subject_ok, judge, ask, introspect,
}
use stumpfworks_framework.Oidc.Introspection.Active.{IsActive, introspect_iff}

abbrev introspector : TokenIntrospector
introspector = record {
  endpoint = codes "https://id.example/introspect";
  client_id = codes "access";
  secret = codes "s";
}

abbrev answer : Answer
answer = record {
  active = true;
  client_id = codes "access";
  subject = codes "alice";
  session_id = codes "1";
  scope = [];
  token_type = codes "Bearer";
  issued_at = pos 1000;
  expires_at = pos 1300;
}

abbrev send : IntrospectionRequest → ℕ → Option Response
send request limit = some (record { status = 200; contents = some request.token })

-- The token says here what the issuer answers.
abbrev decode : Bytes → Option Answer
decode [] = none
decode (c ∷ []) = some answer
decode (c ∷ d ∷ []) = some (record answer { expires_at = pos 1001 })
decode (c ∷ d ∷ e ∷ more) = some (record answer { active = false })

abbrev status : TokenStatus
status = record {
  active = true;
  subject = codes "alice";
  session_id = codes "1";
  scope = [];
  issued_at = (epoch_seconds + 1000) * second;
  expires_at = (epoch_seconds + 1300) * second;
}

code : Unit {0}
unfolding introspect ask judge subject_ok dates_ok body_of Bytes-discrete
code = tt

is_active : introspect send decode eqb now (some introspector) true (codes "t") ≡ ok status
unfolding code
is_active = refl

has_ended :
    introspect send decode eqb now (some introspector) true (codes "tt") ≡ err introspection_failed
unfolding code
has_ended = refl

is_unknown : introspect send decode eqb now (some introspector) true (codes "ttt") ≡ ok inactive
unfolding code
is_unknown = refl

introspect_iff_example :
    (introspect send decode eqb now (some introspector) true (codes "t") ≡ ok status) ↔ (
      (true ≡ true)
      × (codes "t" ≢ [])
      × (length (codes "t") ≤ max_code_bytes)
      × ((a : Answer) × (ask send decode eqb introspector (codes "t") ≡ some a)
          × (((a.active ≡ false) × (status ≡ inactive))
              ⊎ IsActive send decode eqb now introspector a status)))
introspect_iff_example = introspect_iff send decode eqb now introspector true (codes "t") status
