-- ===== src/Config/Load.antt =====
-- core/config/config.go: what a loaded configuration is.
use stumpfworks_framework.Base.{
  ◌≡◌, ◌⊎◌, inl, inr, Option, none, some, Bytes, codes, ok, ◌>>=◌, arith, bind-eq-ok, Result-cases,
  Option-cases,
}
use stumpfworks_framework.Config.{
  Config, Overrides, World, validate, check, value_or, read_env, from_environment, from_file,
  override, load_with_overrides,
}
use stumpfworks_framework.Config.Operable.{IsOperable, validate_sound}
use stumpfworks_framework.Config.Layers.{
  IsFromFile, IsOverridden, from_file-IsFromFile, override-IsOverridden,
}

-- A setting of one variable: its parsed value if it is set, else what it was.
abbrev pub IsSetting :
    {A : Type 0} → (Bytes → Option Bytes) → (Bytes → Option A) → Bytes → A → A → Type 0
IsSetting env parse name before after =
    ((env name ≡ none) × (after ≡ before))
    ⊎ ((text : Bytes) × (env name ≡ some text) × (parse text ≡ some after))

read_env-IsSetting :
    {A : Type 0} (env : Bytes → Option Bytes) (parse : Bytes → Option A) (name : Bytes)
    (before after : A)
    → read_env env parse name before ≡ ok after
    → IsSetting env parse name before after
unfolding read_env
read_env-IsSetting env parse name before after e = elim (Option-cases (env name)) [
  | inl unset ↦ inl (unset, ground arith)
  | inr (text, set) ↦ inr (text, set, ground arith)
]

-- A variable that is a text.
abbrev pub as_text : Bytes → Option Bytes
as_text text = some text

value_or-IsSetting :
    (env : Bytes → Option Bytes) (name before after : Bytes)
    → after ≡ value_or (env name) before
    → IsSetting env as_text name before after
value_or-IsSetting env name before after e = elim (Option-cases (env name)) [
  | inl unset ↦ inl (unset, ground arith)
  | inr (text, set) ↦ inr (text, set, ground arith)
]

module _ (w : World) where
  open w use {env, parse_duration, parse_int, parse_int32, parse_bool}

  -- What the environment makes of the settings `b`.
  pub record IsReadFrom (b c : Config) : Type 0 where
    pub address : IsSetting env as_text (codes "SWF_HTTP_ADDRESS") b.http.address c.http.address
    pub url : IsSetting env as_text (codes "SWF_POSTGRES_URL") b.postgres.url c.postgres.url
    pub max_header_bytes :
        IsSetting env parse_int
          (codes "SWF_HTTP_MAX_HEADER_BYTES")
          b.http.max_header_bytes
          c.http.max_header_bytes
    pub max_concurrent_requests :
        IsSetting env parse_int
          (codes "SWF_HTTP_MAX_CONCURRENT_REQUESTS")
          b.http.max_concurrent_requests
          c.http.max_concurrent_requests
    pub max_connections :
        IsSetting env parse_int32
          (codes "SWF_POSTGRES_MAX_CONNECTIONS")
          b.postgres.max_connections
          c.postgres.max_connections
    pub min_connections :
        IsSetting env parse_int32
          (codes "SWF_POSTGRES_MIN_CONNECTIONS")
          b.postgres.min_connections
          c.postgres.min_connections
    pub max_message_bytes :
        IsSetting env parse_int
          (codes "SWF_POSTGRES_MAX_MESSAGE_BYTES")
          b.postgres.max_message_bytes
          c.postgres.max_message_bytes
    pub allow_insecure :
        IsSetting env parse_bool
          (codes "SWF_POSTGRES_ALLOW_INSECURE")
          b.postgres.allow_insecure
          c.postgres.allow_insecure
    pub read_timeout :
        IsSetting env parse_duration
          (codes "SWF_HTTP_READ_TIMEOUT")
          b.http.read_timeout
          c.http.read_timeout
    pub read_header_timeout :
        IsSetting env parse_duration
          (codes "SWF_HTTP_READ_HEADER_TIMEOUT")
          b.http.read_header_timeout
          c.http.read_header_timeout
    pub queue_timeout :
        IsSetting env parse_duration
          (codes "SWF_HTTP_QUEUE_TIMEOUT")
          b.http.queue_timeout
          c.http.queue_timeout
    pub write_timeout :
        IsSetting env parse_duration
          (codes "SWF_HTTP_WRITE_TIMEOUT")
          b.http.write_timeout
          c.http.write_timeout
    pub idle_timeout :
        IsSetting env parse_duration
          (codes "SWF_HTTP_IDLE_TIMEOUT")
          b.http.idle_timeout
          c.http.idle_timeout
    pub shutdown_timeout :
        IsSetting env parse_duration
          (codes "SWF_SHUTDOWN_TIMEOUT")
          b.shutdown_timeout
          c.shutdown_timeout
    pub connect_timeout :
        IsSetting env parse_duration
          (codes "SWF_POSTGRES_CONNECT_TIMEOUT")
          b.postgres.connect_timeout
          c.postgres.connect_timeout

  read_from : (b c : Config) → from_environment w b ≡ ok c → IsReadFrom b c
  unfolding from_environment
  read_from b c e = record {
    address =
        value_or-IsSetting env (codes "SWF_HTTP_ADDRESS") b.http.address c.http.address
          (ground arith);
    url =
        value_or-IsSetting env (codes "SWF_POSTGRES_URL") b.postgres.url c.postgres.url
          (ground arith);
    max_header_bytes =
        read_env-IsSetting env parse_int (codes "SWF_HTTP_MAX_HEADER_BYTES") b.http.max_header_bytes
          c.http.max_header_bytes (ground arith);
    max_concurrent_requests =
        read_env-IsSetting env parse_int (codes "SWF_HTTP_MAX_CONCURRENT_REQUESTS")
          b.http.max_concurrent_requests c.http.max_concurrent_requests (ground arith);
    max_connections =
        read_env-IsSetting env parse_int32 (codes "SWF_POSTGRES_MAX_CONNECTIONS")
          b.postgres.max_connections c.postgres.max_connections (ground arith);
    min_connections =
        read_env-IsSetting env parse_int32 (codes "SWF_POSTGRES_MIN_CONNECTIONS")
          b.postgres.min_connections c.postgres.min_connections (ground arith);
    max_message_bytes =
        read_env-IsSetting env parse_int (codes "SWF_POSTGRES_MAX_MESSAGE_BYTES")
          b.postgres.max_message_bytes c.postgres.max_message_bytes (ground arith);
    allow_insecure =
        read_env-IsSetting env parse_bool (codes "SWF_POSTGRES_ALLOW_INSECURE")
          b.postgres.allow_insecure c.postgres.allow_insecure (ground arith);
    read_timeout =
        read_env-IsSetting env parse_duration (codes "SWF_HTTP_READ_TIMEOUT") b.http.read_timeout
          c.http.read_timeout (ground arith);
    read_header_timeout =
        read_env-IsSetting env parse_duration (codes "SWF_HTTP_READ_HEADER_TIMEOUT")
          b.http.read_header_timeout c.http.read_header_timeout (ground arith);
    queue_timeout =
        read_env-IsSetting env parse_duration (codes "SWF_HTTP_QUEUE_TIMEOUT") b.http.queue_timeout
          c.http.queue_timeout (ground arith);
    write_timeout =
        read_env-IsSetting env parse_duration (codes "SWF_HTTP_WRITE_TIMEOUT") b.http.write_timeout
          c.http.write_timeout (ground arith);
    idle_timeout =
        read_env-IsSetting env parse_duration (codes "SWF_HTTP_IDLE_TIMEOUT") b.http.idle_timeout
          c.http.idle_timeout (ground arith);
    shutdown_timeout =
        read_env-IsSetting env parse_duration (codes "SWF_SHUTDOWN_TIMEOUT") b.shutdown_timeout
          c.shutdown_timeout (ground arith);
    connect_timeout =
        read_env-IsSetting env parse_duration (codes "SWF_POSTGRES_CONNECT_TIMEOUT")
          b.postgres.connect_timeout c.postgres.connect_timeout (ground arith);
  }

  -- What `LoadWithOverrides` returns has sizes, durations and an address that can be run with, and it
  -- comes of four layers, setting by setting: the defaults; the file that the command line names, or
  -- else the environment, where its one JSON value gives the setting; the setting's variable, where it
  -- is set; and the command line's address, where there is one.
  pub load_with_overrides-IsReadFrom :
      (o : Overrides) (c : Config)
      → load_with_overrides w o ≡ ok c
      → IsOperable c
        × ((based set : Config) × IsFromFile w o based
            × IsReadFrom based set
            × IsOverridden o set c)
  unfolding load_with_overrides check
  load_with_overrides-IsReadFrom o c e =
      let (based, from, e1) =
        bind-eq-ok (from_file w o)
          (λ based. from_environment w based >>= λ set. check w (override w o set)) e in
      let (set, read, e2) =
        bind-eq-ok (from_environment w based) (λ set. check w (override w o set)) e1 in
      elim (Result-cases (validate (override w o set))) [
        | inr (error, bad) ↦ absurd (ground arith)
        | inl (u, good) ↦
            let same : c ≡ override w o set = ground arith in
            (
              rw same (validate_sound (override w o set) good),
              (
                based,
                set,
                from_file-IsFromFile w o based from,
                read_from based set read,
                rw same (override-IsOverridden w o set),
              ),
            )
      ]
