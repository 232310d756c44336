-- ===== src/Config.antt =====
-- core/config/config.go: the settings of an application, from defaults, a JSON file, the environment
-- and the command line. The environment, the file system, the JSON decoder and the parsers of
-- strconv and time are parameters. Durations count nanoseconds.
pub mod Layers
pub mod Load
pub mod Operable
pub mod Tests
use stumpfworks_framework.Base.{
  ℕ, ◌*◌, ◌^◌, Bool, true, false, not, ◌||◌, [], Option, none, some, Bytes, is_empty, codes,
  if◌then◌else◌, Result, ok, err, ◌>>=◌, ◌>>◌, or_fail, reject_if, ℤ, pos, is_positive, is_negative,
  exceeds,
}

pub record Http : Type 0 where
  pub address : Bytes
  pub read_timeout : ℤ
  pub read_header_timeout : ℤ
  pub write_timeout : ℤ
  pub idle_timeout : ℤ
  pub max_header_bytes : ℤ
  pub max_concurrent_requests : ℤ
  pub queue_timeout : ℤ

pub record Postgres : Type 0 where
  pub url : Bytes
  pub max_connections : ℤ
  pub min_connections : ℤ
  pub connect_timeout : ℤ
  pub max_message_bytes : ℤ
  pub allow_insecure : Bool

pub record Config : Type 0 where
  pub http : Http
  pub postgres : Postgres
  pub shutdown_timeout : ℤ

-- `fileConfig`: durations are texts, and a number may be missing.
pub record FileHttp : Type 0 where
  pub address : Bytes
  pub read_timeout : Bytes
  pub read_header_timeout : Bytes
  pub write_timeout : Bytes
  pub idle_timeout : Bytes
  pub queue_timeout : Bytes
  pub max_header_bytes : Option ℤ
  pub max_concurrent_requests : Option ℤ

pub record FilePostgres : Type 0 where
  pub url : Bytes
  pub max_connections : Option ℤ
  pub min_connections : Option ℤ
  pub max_message_bytes : Option ℤ
  pub connect_timeout : Bytes
  pub allow_insecure : Bool

pub record FileConfig : Type 0 where
  pub http : FileHttp
  pub postgres : FilePostgres
  pub shutdown_timeout : Bytes

pub record Overrides : Type 0 where
  pub config_file : Bytes
  pub http_address : Bytes

pub data Error : Type 0 where
  unreadable_file malformed_file several_values bad_file_duration : Error
  bad_variable : Bytes → Error
  no_address bad_read_timeout bad_read_header_timeout bad_max_header_bytes : Error
  bad_max_concurrent_requests bad_queue_timeout bad_write_timeout bad_idle_timeout : Error
  bad_shutdown_timeout bad_max_connections bad_min_connections bad_connect_timeout : Error
  bad_max_message_bytes : Error

abbrev pub second : ℕ
second = 10 ^ 9

-- The literal at the head of `LoadWithOverrides`.
abbrev pub defaults : Config
defaults = record {
  http = record {
    address = codes "127.0.0.1:8080";
    read_timeout = pos (5 * second);
    read_header_timeout = pos (5 * second);
    write_timeout = pos (10 * second);
    idle_timeout = pos (60 * second);
    max_header_bytes = pos (2 ^ 20);
    max_concurrent_requests = pos 128;
    queue_timeout = pos (100 * 10 ^ 6);
  };
  postgres = record {
    url = [];
    max_connections = pos 10;
    min_connections = pos 1;
    connect_timeout = pos (5 * second);
    max_message_bytes = pos (16 * 2 ^ 20);
    allow_insecure = false;
  };
  shutdown_timeout = pos (10 * second);
}

-- `Config.Validate`
unfoldable pub validate : Config → Result Error (Unit {0})
validate c = do
  reject_if (is_empty c.http.address) no_address
  reject_if (not (is_positive c.http.read_timeout)) bad_read_timeout
  reject_if (not (is_positive c.http.read_header_timeout)) bad_read_header_timeout
  reject_if (not (is_positive c.http.max_header_bytes)) bad_max_header_bytes
  reject_if (not (is_positive c.http.max_concurrent_requests)) bad_max_concurrent_requests
  reject_if (is_negative c.http.queue_timeout) bad_queue_timeout
  reject_if (not (is_positive c.http.write_timeout)) bad_write_timeout
  reject_if (not (is_positive c.http.idle_timeout)) bad_idle_timeout
  reject_if (not (is_positive c.shutdown_timeout)) bad_shutdown_timeout
  reject_if (not (is_positive c.postgres.max_connections)) bad_max_connections
  reject_if
      (is_negative c.postgres.min_connections
        || exceeds c.postgres.min_connections c.postgres.max_connections)
      bad_min_connections
  reject_if (not (is_positive c.postgres.connect_timeout)) bad_connect_timeout
  reject_if (not (is_positive c.postgres.max_message_bytes)) bad_max_message_bytes

abbrev pub value_or {ℓ} : {A : Type ℓ} → Option A → A → A
value_or none fallback = fallback
value_or (some a) fallback = a

abbrev pub text_or : Bytes → Bytes → Bytes
text_or text fallback = if is_empty text then fallback else text

-- `intEnv` and its siblings: a variable that is not set leaves the setting, one that does not parse
-- is an error.
pub read_env :
    {A : Type 0} → (Bytes → Option Bytes) → (Bytes → Option A) → Bytes → A → Result Error A
read_env env parse name fallback = elim (env name) [
  | none ↦ ok fallback
  | some value ↦ or_fail (parse value) (bad_variable name)
]

module _ (parse_duration : Bytes → Option ℤ) where
  pub file_duration : Bytes → ℤ → Result Error ℤ
  file_duration text fallback =
      if is_empty text then ok fallback else or_fail (parse_duration text) bad_file_duration

  -- The assignments of `applyFile`.
  pub apply_values : FileConfig → Config → Result Error Config
  apply_values f c = do
    read_timeout ← file_duration f.http.read_timeout c.http.read_timeout
    read_header_timeout ← file_duration f.http.read_header_timeout c.http.read_header_timeout
    queue_timeout ← file_duration f.http.queue_timeout c.http.queue_timeout
    write_timeout ← file_duration f.http.write_timeout c.http.write_timeout
    idle_timeout ← file_duration f.http.idle_timeout c.http.idle_timeout
    connect_timeout ← file_duration f.postgres.connect_timeout c.postgres.connect_timeout
    shutdown_timeout ← file_duration f.shutdown_timeout c.shutdown_timeout
    ok (record {
      http = record {
        address = text_or f.http.address c.http.address;
        read_timeout = read_timeout;
        read_header_timeout = read_header_timeout;
        write_timeout = write_timeout;
        idle_timeout = idle_timeout;
        max_header_bytes = value_or f.http.max_header_bytes c.http.max_header_bytes;
        max_concurrent_requests =
            value_or f.http.max_concurrent_requests c.http.max_concurrent_requests;
        queue_timeout = queue_timeout;
      };
      postgres = record {
        url = text_or f.postgres.url c.postgres.url;
        max_connections = value_or f.postgres.max_connections c.postgres.max_connections;
        min_connections = value_or f.postgres.min_connections c.postgres.min_connections;
        connect_timeout = connect_timeout;
        max_message_bytes = value_or f.postgres.max_message_bytes c.postgres.max_message_bytes;
        allow_insecure = f.postgres.allow_insecure || c.postgres.allow_insecure;
      };
      shutdown_timeout = shutdown_timeout;
    })

-- The process's environment, its files, and the parsers of the standard library. `decode` gives the
-- first JSON value of a file, and whether the second `Decode` meets the end.
pub record World : Type 0 where
  pub env : Bytes → Option Bytes
  pub read_file : Bytes → Option Bytes
  pub decode : Bytes → Option (FileConfig × Bool)
  pub parse_duration : Bytes → Option ℤ
  pub parse_int : Bytes → Option ℤ
  pub parse_int32 : Bytes → Option ℤ
  pub parse_bool : Bytes → Option Bool

module _ (w : World) where
  open w use {env, read_file, decode, parse_duration, parse_int, parse_int32, parse_bool}

  pub apply_file : Bytes → Config → Result Error Config
  apply_file filename c = do
    contents ← or_fail (read_file filename) unreadable_file
    decoded ← or_fail (decode contents) malformed_file
    reject_if (not decoded.1) several_values
    apply_values parse_duration decoded.0 c

  -- The part of `LoadWithOverrides` that reads the environment.
  pub from_environment : Config → Result Error Config
  from_environment c = do
    max_header_bytes ←
        read_env env parse_int (codes "SWF_HTTP_MAX_HEADER_BYTES") c.http.max_header_bytes
    max_concurrent_requests ←
        read_env env parse_int (codes "SWF_HTTP_MAX_CONCURRENT_REQUESTS")
          c.http.max_concurrent_requests
    max_connections ←
        read_env env parse_int32 (codes "SWF_POSTGRES_MAX_CONNECTIONS") c.postgres.max_connections
    min_connections ←
        read_env env parse_int32 (codes "SWF_POSTGRES_MIN_CONNECTIONS") c.postgres.min_connections
    max_message_bytes ←
        read_env env parse_int (codes "SWF_POSTGRES_MAX_MESSAGE_BYTES") c.postgres.max_message_bytes
    allow_insecure ←
        read_env env parse_bool (codes "SWF_POSTGRES_ALLOW_INSECURE") c.postgres.allow_insecure
    read_timeout ← read_env env parse_duration (codes "SWF_HTTP_READ_TIMEOUT") c.http.read_timeout
    read_header_timeout ←
        read_env env parse_duration (codes "SWF_HTTP_READ_HEADER_TIMEOUT")
          c.http.read_header_timeout
    queue_timeout ←
        read_env env parse_duration (codes "SWF_HTTP_QUEUE_TIMEOUT") c.http.queue_timeout
    write_timeout ←
        read_env env parse_duration (codes "SWF_HTTP_WRITE_TIMEOUT") c.http.write_timeout
    idle_timeout ← read_env env parse_duration (codes "SWF_HTTP_IDLE_TIMEOUT") c.http.idle_timeout
    shutdown_timeout ← read_env env parse_duration (codes "SWF_SHUTDOWN_TIMEOUT") c.shutdown_timeout
    connect_timeout ←
        read_env env parse_duration (codes "SWF_POSTGRES_CONNECT_TIMEOUT")
          c.postgres.connect_timeout
    ok (record {
      http = record {
        address = value_or (env (codes "SWF_HTTP_ADDRESS")) c.http.address;
        read_timeout = read_timeout;
        read_header_timeout = read_header_timeout;
        write_timeout = write_timeout;
        idle_timeout = idle_timeout;
        max_header_bytes = max_header_bytes;
        max_concurrent_requests = max_concurrent_requests;
        queue_timeout = queue_timeout;
      };
      postgres = record {
        url = value_or (env (codes "SWF_POSTGRES_URL")) c.postgres.url;
        max_connections = max_connections;
        min_connections = min_connections;
        connect_timeout = connect_timeout;
        max_message_bytes = max_message_bytes;
        allow_insecure = allow_insecure;
      };
      shutdown_timeout = shutdown_timeout;
    })

  abbrev pub filename_of : Overrides → Bytes
  filename_of o = text_or o.config_file (value_or (env (codes "SWF_CONFIG_FILE")) [])

  pub from_file : Overrides → Result Error Config
  from_file o =
      let name = filename_of o in if is_empty name then ok defaults else apply_file name defaults

  abbrev pub override : Overrides → Config → Config
  override o c = record c {
    http = record (c.http) { address = text_or o.http_address c.http.address };
  }

  pub check : Config → Result Error Config
  check c = do validate c; ok c

  unfoldable pub load_with_overrides : Overrides → Result Error Config
  load_with_overrides o = do
    based ← from_file o
    set ← from_environment based
    check (override o set)
