-- ===== src/Oidc/Begin/Tests.antt =====
-- auth/oidc/login_test.go: a client, a login that it begins, and the callback of that login.
use stumpfworks_framework.Base.{
  ℕ, zero, suc, lookup, ◌≡◌, refl, arith, true, false, List, [], ◌∷◌, some, none, Bytes,
  Bytes-discrete, codes, ok, err,
}
use stumpfworks_framework.Oidc.Transactions.{Transaction, Heap}
use stumpfworks_framework.Oidc.Base64.{encode, random_url_string}
use stumpfworks_framework.Oidc.Urls.{valid_issuer, same_origin_endpoint}
use stumpfworks_framework.Oidc.Verify.Tests.{jose, now, client_id, as_is}
use stumpfworks_framework.Oidc.Discovery.Tests.{parse_url, configuration, endpoint}
use stumpfworks_framework.Oidc.Login.{LoginClient, request_of, complete}
use stumpfworks_framework.Oidc.Login.Tests.{web, clock}
use stumpfworks_framework.Oidc.Begin.{
  Client, Draws, bad_configuration, stale, no_random, settings_ok, new_login_client, login_client,
  begin,
}
use stumpfworks_framework.Oidc.Begin.Pkce.{callback_with}
use stumpfworks_framework.Oidc.Begin.Flow.{HasRoom, begin-put-take-complete}
use stumpfworks_framework.Oidc.Store.{TransactionStore, put, take, remove}

abbrev client : Client ℕ
client = record {
  configuration = configuration;
  client_id = client_id;
  secret = codes "s";
  redirect_uri = endpoint;
}

abbrev draws : Draws
draws = record {
  state = some (1 ∷ []);
  nonce = some (2 ∷ []);
  verifier = some (3 ∷ []);
  checked_at = now;
  created_at = now;
}

abbrev with_query : Bytes → List (Bytes × Bytes) → Bytes
with_query address query = address

abbrev begun : Transaction
begun = record {
  owner = some 0;
  state = encode (1 ∷ []);
  nonce = encode (2 ∷ []);
  verifier = encode (3 ∷ []);
  created_at = now;
  used = false;
}

abbrev heap : Heap
heap a = begun

abbrev clients : ℕ → LoginClient ℕ
clients p = login_client client

code : Unit {0}
unfolding new_login_client settings_ok valid_issuer same_origin_endpoint begin random_url_string
    Bytes-discrete
code = tt

builds : new_login_client parse_url (some configuration) client_id (codes "s") endpoint ≡ ok client
unfolding code
builds = refl

refuses_client :
    new_login_client parse_url (some configuration) (codes "other") (codes "s") endpoint
    ≡ err bad_configuration
unfolding code
refuses_client = refl

begins : begin as_is with_query 0 client draws ≡ ok (endpoint, begun)
unfolding code
begins = refl

is_stale :
    begin as_is with_query 0 client (record draws { checked_at = configuration.valid_until })
    ≡ err stale
unfolding code
is_stale = refl

needs_random : begin as_is with_query 0 client (record draws { verifier = none }) ≡ err no_random
unfolding code
needs_random = refl

abbrev bytes_of : ℕ → Bytes
bytes_of zero = []
bytes_of (suc n) = n ∷ bytes_of n

abbrev long_draws : Draws
long_draws = record draws { state = some (bytes_of 32) }

abbrev started : Transaction
started = record begun { state = encode (bytes_of 32) }

abbrev started_heap : Heap
started_heap a = started

abbrev empty_store : TransactionStore
empty_store = record { capacity = 1; entries = [] }

starts : begin as_is with_query 0 client long_draws ≡ ok (endpoint, started)
unfolding code
starts = refl

made : random_url_string (some (bytes_of 32)) ≡ some (encode (bytes_of 32))
unfolding code
made = refl

room : HasRoom now started empty_store
unfolding lookup
room = record { free = refl; room = omega arith; begun = omega arith; young = omega arith }

begin-put-take-complete_example :
    (kept : TransactionStore) × (put as_is now now started_heap
        (some 5)
        (encode (bytes_of 32))
        empty_store
      ≡ (ok tt, kept))
    × (take as_is now started_heap started_heap started.state (encode (bytes_of 32)) kept
        ≡ (ok 5, remove kept started.state))
    × ((complete jose web clock clients started_heap
          (some 0)
          true
          (some 5)
          (callback_with started.state (codes "c"))
          true).sent
        ≡ some (request_of (login_client client) (callback_with started.state (codes "c")) started))
begin-put-take-complete_example =
    begin-put-take-complete jose web clock as_is with_query 0 5 client long_draws endpoint
      (codes "c") started_heap clients (bytes_of 32) (bytes_of 32) (encode (bytes_of 32)) now now
      now empty_store true starts refl refl (omega arith) made refl (omega arith) room (omega arith)
      refl (omega arith) (omega arith) (λ e. cc) (omega arith) refl
