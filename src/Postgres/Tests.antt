-- ===== src/Postgres/Tests.antt =====
-- data/postgres/postgres_test.go: a pool that does not answer, a URL without TLS, and transactions on a
-- number.
use stumpfworks_framework.Base.{
  ℕ, ◌+◌, ◌≡◌, refl, Bool, true, false, [], ◌∷◌, Option, none, some, Bytes, Bytes-discrete, codes,
  ok, err, pos,
}
use stumpfworks_framework.Postgres.{
  Options, PoolConfig, validate, permits_plaintext, create, ping, close, prepare, connect,
  open_pool, tls_required, connect_failed, no_url, Work, WorkEnd, succeeded, panicked, acknowledged,
  lost, returns, panics, commit_failed, attempt, within_transaction,
}
use stumpfworks_framework.Postgres.Open.{IsOpened, open_pool-IsOpened}
use stumpfworks_framework.Postgres.Transactions.{IsAtomic, within_transaction-IsAtomic}

abbrev options : Options
options = record {
  url = codes "u";
  max_connections = pos 5;
  min_connections = pos 1;
  connect_timeout = pos 9;
  max_message_bytes = pos 1024;
  allow_insecure = false;
}

abbrev from_url : Bool → PoolConfig
from_url fallback_tls = record {
  has_tls = true;
  fallbacks = fallback_tls ∷ [];
  max_connections = pos 0;
  min_connections = pos 0;
  connect_timeout = pos 0;
  max_message_bytes = pos 0;
}

abbrev config : PoolConfig
config = record {
  has_tls = true;
  fallbacks = true ∷ [];
  max_connections = pos 5;
  min_connections = pos 1;
  connect_timeout = pos 9;
  max_message_bytes = pos 1024;
}

abbrev parse_with : Bool → Bytes → Option PoolConfig
parse_with fallback_tls url = some (from_url fallback_tls)

abbrev new_pool : PoolConfig → Option ℕ
new_pool c = some 7

abbrev answer : Bool → ℕ → Bool
answer b pool = b

abbrev adds : WorkEnd → Work ℕ
adds end s = (end, record { committed = s.committed; draft = some (s.committed + 1) })

code : Unit {0}
unfolding Bytes-discrete validate permits_plaintext prepare connect open_pool attempt
    within_transaction
code = tt

opens :
    open_pool new_pool (answer true) (parse_with true) options ≡ (ok 7, create config ∷ ping 7 ∷ [])
unfolding code
opens = refl

closes :
    open_pool new_pool (answer false) (parse_with true) options
    ≡ (err connect_failed, create config ∷ ping 7 ∷ close 7 ∷ [])
unfolding code
closes = refl

wants_tls : open_pool new_pool (answer true) (parse_with false) options ≡ (err tls_required, [])
unfolding code
wants_tls = refl

wants_url : validate (record options { url = [] }) ≡ err no_url
unfolding code
wants_url = refl

commits :
    within_transaction true acknowledged (some (adds succeeded)) 3
    ≡ (returns (ok tt), record { committed = 4; draft = none })
unfolding code
commits = refl

rolls_back :
    within_transaction true acknowledged (some (adds panicked)) 3
    ≡ (panics, record { committed = 3; draft = none })
unfolding code
rolls_back = refl

loses_answer :
    within_transaction true lost (some (adds succeeded)) 3
    ≡ (returns (err commit_failed), record { committed = 4; draft = none })
unfolding code
loses_answer = refl

open_pool-IsOpened_example :
    IsOpened
      (parse_with true)
      new_pool
      (answer false)
      options
      (open_pool new_pool (answer false) (parse_with true) options)
open_pool-IsOpened_example = open_pool-IsOpened (parse_with true) new_pool (answer false) options

within_transaction-IsAtomic_example :
    IsAtomic true acknowledged succeeded 3 4
      (within_transaction true acknowledged (some (adds succeeded)) 3)
within_transaction-IsAtomic_example =
    within_transaction-IsAtomic true acknowledged (adds succeeded) succeeded 3 4 refl
