-- ===== src/Lib.antt =====
-- The StumpfWorks framework (SWF): a Go library for self-hosted applications. This library models
-- its parts as they are written and proves what each of them promises.
--
-- The parts, and the files that model them (Go paths from the repository's root):
--   Authz: authz/permissions.go. `Parse` is `parse` (its loop is `scan`), `New` is `new`, and a `Set`
--     is an association list of units.
--   Ldap.Ber: directory/ldap/framing.go, the BER validator. `validateBERElement` is `element`, its
--     loop over the contents `children`, and `validateBERFrame` is `validate_ber_frame`.
--   Ldap.Framing: `framedConn.Read` is `read` on a `Framed` state; below it stands the byte budget of
--     `boundedConn` in directory/ldap/reader.go. A frame reaches the LDAP library only as a whole.
--   Ldap.Reader: directory/ldap/reader.go. `New` is `new_reader`, and `GetUser` is `get_user`, whose
--     last steps are `lookup_user`, `found` and `pick`; it returns what is observed as well.
--     Ldap.Redaction is redaction.go.
--   Oidc: the relying party of one pinned issuer, auth/oidc.
--     Base64: the secrets of 32 random bytes, `decodeBinding` and `randomURLString`.
--     Transactions: `Transaction`, shared by address in a heap, and the clock.
--     Store: store.go, `Put` and `Take` on the bounded store of pending logins.
--     Cookies: store.go, the cookie that binds a login to its browser. A browser gets it before the
--       redirect, and `Take` asks for the secret that it carries.
--     Codec: transaction_codec.go, `Seal` and `Open`.
--     Fetch: what is taken of the answer to an HTTP request.
--     Discovery: discovery.go, `Discover` as `discover`, which builds the `Verifier`; it returns the
--       requests that it sent as well, each with the redirect policy of its client.
--     Introspection: introspection.go, `Introspect` as `introspect`.
--     Urls: `validIssuer` (verify.go) and `sameOriginEndpoint` (discovery.go); Urls.Origins says what
--       they ask of the parts of a URL.
--     Verify: verify.go. `VerifyIDToken` is `verify_id_token`, in the steps `verify_parsed`,
--       `verify_header`, `verify_signature` and `check_claims`; `NewVerifier` is `new_verifier`.
--     Begin: login.go, `NewLoginClient` and `Begin`; Begin.Flow goes through the store to `complete`.
--     Login: login.go, `complete`, which `Complete` and `CompleteWithToken` call. It marks the
--       transaction in the heap, sends the token request and calls `verify_id_token`.
--     Cache: cache.go. `Current` is `get_current`; `Run` is `run`, and `runRefreshLoop` is a list of
--       rounds, each with what `Discover` does in it. Cache.Vetted joins it with Discovery.
--   Config: core/config/config.go. `LoadWithOverrides` is `load_with_overrides`: the defaults, then
--     `apply_file`, `from_environment`, `override`, and `Validate` at the end. Config.Layers describes
--     the file and the command line, Config.Load the environment, Config.Operable what is valid.
--   Migrate: data/migrate/migrate.go: `Load` in Migrate.Load, and `Apply`, with the loop over the
--     migrations as `apply_all`. A transaction works on a copy of the database, and only its commit
--     publishes it.
--   Certificates: security/certificates/verify.go, `VerifiedPeer` and `VerifyIssued`.
--   Sensitive: security/sensitive.go and the filter of core/logging/logging.go.
--   Audit: audit/event.go, `Event.Validate` as `validate`, which looks for sensitive keys in the
--     metadata (`inspect`). Audit.Store: audit/postgres/store.go, `Append` on the table of the
--     migration; an `Exec` may be acknowledged, be refused, or be committed with its answer lost.
--   Postgres: data/postgres/postgres.go. `Open` is `open_pool`, which returns what pgx is called for
--     too, and `WithinTransaction` is `within_transaction`, on what is committed and the draft of the
--     open transaction.
--   Errors: core/errors/errors.go, chains of errors as a data type. Ids: core/id/id.go, for the bytes
--     that are drawn. Version: core/version/version.go.
--   MinimalApp: examples/minimal-app/main.go, `main`: Config, App, Postgres, Health and Concurrency
--     put together.
--   App: core/app/app.go. `Run` is `run`; it returns what it did, in order.
--   Web: the packages under web. A handler is a function from a request and the headers that are set
--     to what it does to the response (Web.Http).
--     Problem: problem/problem.go. Middleware: middleware/middleware.go, `Chain` as `chain`.
--     Cors: middleware/cors.go. `CORS` is `new_policy` and then `cors`, which calls `decide`.
--     Concurrency: middleware/concurrency.go, as steps of requests around a count of slots.
--     Validation: validation/json.go, `DecodeJSON` as `decode_json`; its errors are those of Errors,
--       which Problem shows.
--     Health: health/health.go. `Ready` is `ready`, for the order in which results come.
--     Metrics: metrics/metrics.go. `observe` and `observe_lookup` change the registry, and
--       Metrics.Exposition is the text of `Handler`. Metrics.Auth: metrics/auth.go, the bearer token.
--   Base: the shared helpers: Go's comparisons, maps, errors as values, byte strings, big-endian
--     words and signed numbers.
-- An operation on shared state takes the state and returns the new one; what holds a mutex in Go is
-- one step. Where the code reads twice what may change between, as `Take` reads `used` and `Put`
-- the clock, the model takes both readings.
--
-- Numbers: lengths, counts and instants are natural numbers, and an instant counts nanoseconds since
-- Go's zero time. Settings and the lifetime of an access token are signed. The big-endian lengths and
-- times of the codec, the duration of an access token, and the counters of the metrics wrap at their
-- width as in Go. Floats are a parameter with the operations that the metrics use.
-- Fuel: `element` and `children` recurse on fuel, and `validate_ber_frame` gives two units more than
-- the frame has bytes. That is enough, as each element takes at least two bytes.
--
-- Parameters: what is not in the repository is an argument of the definitions that use it: go-jose,
-- the LDAP library, crypto/x509, net/url, SHA-256, the AEAD, random bytes, HTTP, JSON, files, the
-- environment, and what a database makes of SQL and of the values in a row. encoding/base64 is written out, since the code relies
-- on how it treats line ends and trailing bits; so are the pattern of migration names, sorting,
-- the functions of strings that replace, split, join or compare bytes, and what begin, commit and
-- rollback do to one session, the lost answer to a commit included.
--
-- Order: what goroutines, timers and clients decide is an argument too. Requests in front of a limit
-- move by a step relation, health results come as a list of events, and a run of the application is
-- given how serving ends.
--
-- Not modelled: `App.Handle`, `Ping`, `Close` and `Native` of the pool, which hand on one call; the
-- logger's construction, and what is logged besides requests and panics; contexts, deadlines inside a
-- call and flags; an observer of the LDAP reader or a resource that panics; a cache that is nil, but
-- in `Run`. internal/testutil and the tests are no part of the library.
pub mod App
pub mod Audit
pub mod Authz
pub mod Base
pub mod Certificates
pub mod Config
pub mod Errors
pub mod Ids
pub mod Ldap
pub mod Migrate
pub mod MinimalApp
pub mod Oidc
pub mod Postgres
pub mod Sensitive
pub mod Version
pub mod Web
