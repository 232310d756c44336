-- ===== src/Config/Tests.antt =====
-- core/config/config_test.go: a configuration that a file, the environment and the command line
-- change.
use stumpfworks_framework.Base.{
  ◌*◌, true, ◌≡◌, refl, Option, none, some, Bytes, Bytes-discrete, eqb, codes, ok, err, ℤ, pos,
  if◌then◌else◌, [],
}
use stumpfworks_framework.Config.{
  Config, FileConfig, Overrides, World, second, apply_file, apply_values, file_duration,
  bad_min_connections, defaults, validate, check, from_file, from_environment, load_with_overrides,
  read_env,
}
use stumpfworks_framework.Config.Layers.{IsFromFile, IsOverridden}
use stumpfworks_framework.Config.Operable.{IsOperable}
use stumpfworks_framework.Config.Load.{IsReadFrom, load_with_overrides-IsReadFrom}

abbrev env : Bytes → Option Bytes
env name = if eqb name (codes "SWF_POSTGRES_MAX_CONNECTIONS") then some (codes "5") else none

abbrev file_name : Bytes
file_name = codes "app.json"

abbrev read_file : Bytes → Option Bytes
read_file name = if eqb name file_name then some (codes "{}") else none

abbrev file : FileConfig
file = record {
  http = record {
    address = codes "127.0.0.1:1";
    read_timeout = [];
    read_header_timeout = [];
    write_timeout = codes "20s";
    idle_timeout = codes "30s";
    queue_timeout = [];
    max_header_bytes = none;
    max_concurrent_requests = some (pos 64);
  };
  postgres = record {
    url = [];
    max_connections = some (pos 8);
    min_connections = none;
    max_message_bytes = none;
    connect_timeout = [];
    allow_insecure = true;
  };
  shutdown_timeout = [];
}

abbrev parse_duration : Bytes → Option ℤ
parse_duration text =
    if eqb text (codes "20s") then some (pos (20 * second)) else some (pos (30 * second))

abbrev five : Bytes → Option ℤ
five text = some (pos 5)

abbrev world : World
world = record {
  env = env;
  read_file = read_file;
  decode = λ text. some (file, true);
  parse_duration = parse_duration;
  parse_int = five;
  parse_int32 = five;
  parse_bool = λ text. none;
}

abbrev overrides : Overrides
overrides = record { config_file = file_name; http_address = codes "127.0.0.1:9090" }

abbrev expected : Config
expected = record {
  http = record (defaults.http) {
    address = codes "127.0.0.1:9090";
    write_timeout = pos (20 * second);
    idle_timeout = pos (30 * second);
    max_concurrent_requests = pos 64;
  };
  postgres = record (defaults.postgres) { max_connections = pos 5; allow_insecure = true };
  shutdown_timeout = defaults.shutdown_timeout;
}

code : Unit {0}
unfolding load_with_overrides from_file apply_file apply_values file_duration from_environment check
    validate read_env Bytes-discrete
code = tt

loads : load_with_overrides world overrides ≡ ok expected
unfolding code
loads = refl

abbrev too_small : Config
too_small = record expected { postgres = record (expected.postgres) { min_connections = pos 6 } }

refuses_pool : validate too_small ≡ err bad_min_connections
unfolding code
refuses_pool = refl

accepts : validate defaults ≡ ok tt
unfolding code
accepts = refl

load_with_overrides-IsReadFrom_example :
    IsOperable expected
    × ((based set : Config) × IsFromFile world overrides based
        × IsReadFrom world based set
        × IsOverridden overrides set expected)
load_with_overrides-IsReadFrom_example =
    load_with_overrides-IsReadFrom world overrides expected loads
