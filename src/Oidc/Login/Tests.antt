-- ===== src/Oidc/Login/Tests.antt =====
-- auth/oidc/login_test.go: a login that succeeds, and its transaction a second time.
use stumpfworks_framework.Base.{
  ℕ, ◌+◌, ◌*◌, ◌≡◌, refl, true, false, [], ◌∷◌, none, some, codes, ok, err, pos,
}
use stumpfworks_framework.Oidc.Transactions.{Transaction, Heap, second}
use stumpfworks_framework.Oidc.Fetch.{body_of}
use stumpfworks_framework.Oidc.Verify.Tests.{jose, verifier, now, alice, verified}
use stumpfworks_framework.Oidc.Login.{
  LoginClient, Callback, Token, LoginResult, Clock, Web, login_failed, complete, exchange, finish,
  token_of, access_token_ok, callback_ok,
}
use stumpfworks_framework.Oidc.Login.Complete.{IsLogin, complete-IsLogin}
use stumpfworks_framework.Oidc.Login.Once.{Call, outcome, outcome_all, complete_once}

abbrev login : Transaction
login = record {
  owner = some 0;
  state = codes "s";
  nonce = codes "n";
  verifier = codes "v";
  created_at = now;
  used = false;
}

abbrev heap : Heap
heap a = login

abbrev clients : ℕ → LoginClient ℕ
clients p = record {
  verifier = verifier;
  token_endpoint = codes "https://id.example/token";
  client_id = codes "access";
  secret = codes "secret";
  redirect_uri = codes "https://app.example/callback";
}

abbrev callback : Callback
callback = record { states = codes "s" ∷ []; codes_given = codes "c" ∷ []; errors = [] }

abbrev token : Token
token = record {
  id_token = codes "t";
  access_token = codes "a";
  token_type = codes "bearer";
  expires_in = pos 60;
}

abbrev pub web : Web
web = record {
  builds = λ r. true;
  send = λ r n. some (record { status = 200; contents = some (codes "{}") });
  decode = λ body. some token;
  equal_fold = λ a b. true;
}

abbrev pub clock : Clock
clock = record { first = now; second = now; third = now }

abbrev result : LoginResult
result = record { identity = alice; access_token = codes "a"; expires_in = pos (60 * second) }

code : Unit {0}
unfolding complete exchange finish token_of body_of access_token_ok callback_ok verified
code = tt

succeeds :
    (complete jose web clock clients heap (some 0) true (some 5) callback true).result ≡ ok result
unfolding code
succeeds = refl

complete-IsLogin_example :
    (true ≡ true)
    × ((heap 5).owner ≡ some 0)
    × IsLogin jose web clock (clients 0) (heap 5) callback true result
complete-IsLogin_example =
    complete-IsLogin jose web clock clients heap 0 5 true callback true result succeeds

-- A first call, one of another transaction, and the first once more, a second later.
abbrev call : ℕ → ℕ → Call
call at a = record {
  jose = jose;
  web = web;
  clock = record { first = at; second = at; third = at };
  clients = clients;
  client = some 0;
  has_context = true;
  transaction = some a;
  callback = callback;
  wants_token = true;
}

complete_once_example :
    let after = outcome_all (call now 6 ∷ []) (outcome (call now 5) heap).heap in
    let again = outcome (call (now + second) 5) after in
    (again.result ≡ err login_failed) × (again.sent ≡ none) × ((again.heap 5).used ≡ true)
complete_once_example =
    complete_once (call now 5) (call now 6 ∷ []) (call (now + second) 5) heap 0 5 refl refl refl
      refl refl
