-- ===== src/Config/Operable.antt =====
-- core/config/config.go, `Validate`: the configurations that it accepts.
use stumpfworks_framework.Base.{
  ◌≡◌, ◌≢◌, ◌↔◌, refl, false, [], is_empty, ok, arith, IsPositive, IsNatural, IsPoolRange,
  is_positive_iff, natural, not_negative, pool_range, range_accepted,
}
use stumpfworks_framework.Config.{Config, validate}

pub record IsOperable (c : Config) : Type 0 where
  pub address : c.http.address ≢ []
  pub read_timeout : IsPositive c.http.read_timeout
  pub read_header_timeout : IsPositive c.http.read_header_timeout
  pub write_timeout : IsPositive c.http.write_timeout
  pub idle_timeout : IsPositive c.http.idle_timeout
  pub max_header_bytes : IsPositive c.http.max_header_bytes
  pub max_concurrent_requests : IsPositive c.http.max_concurrent_requests
  pub queue_timeout : IsNatural c.http.queue_timeout
  pub shutdown_timeout : IsPositive c.shutdown_timeout
  pub pool : IsPoolRange c.postgres.min_connections c.postgres.max_connections
  pub connect_timeout : IsPositive c.postgres.connect_timeout
  pub max_message_bytes : IsPositive c.postgres.max_message_bytes

pub validate_sound : (c : Config) → validate c ≡ ok tt → IsOperable c
unfolding validate
validate_sound c e = record {
  address = ground arith;
  read_timeout = (is_positive_iff c.http.read_timeout).0 (ground arith);
  read_header_timeout = (is_positive_iff c.http.read_header_timeout).0 (ground arith);
  write_timeout = (is_positive_iff c.http.write_timeout).0 (ground arith);
  idle_timeout = (is_positive_iff c.http.idle_timeout).0 (ground arith);
  max_header_bytes = (is_positive_iff c.http.max_header_bytes).0 (ground arith);
  max_concurrent_requests = (is_positive_iff c.http.max_concurrent_requests).0 (ground arith);
  queue_timeout = natural c.http.queue_timeout (ground arith);
  shutdown_timeout = (is_positive_iff c.shutdown_timeout).0 (ground arith);
  pool =
      pool_range c.postgres.min_connections c.postgres.max_connections (ground arith)
        (ground arith);
  connect_timeout = (is_positive_iff c.postgres.connect_timeout).0 (ground arith);
  max_message_bytes = (is_positive_iff c.postgres.max_message_bytes).0 (ground arith);
}

validate_complete : (c : Config) → IsOperable c → validate c ≡ ok tt
unfolding validate
validate_complete c h =
    let given : is_empty c.http.address ≡ false = ground (arith, h.address) in
    let (some_pool, pool) =
      range_accepted c.postgres.min_connections c.postgres.max_connections h.pool in
    rw
      (
        given,
        (is_positive_iff c.http.read_timeout).1 h.read_timeout,
        (is_positive_iff c.http.read_header_timeout).1 h.read_header_timeout,
        (is_positive_iff c.http.max_header_bytes).1 h.max_header_bytes,
        (is_positive_iff c.http.max_concurrent_requests).1 h.max_concurrent_requests,
        not_negative c.http.queue_timeout h.queue_timeout,
        (is_positive_iff c.http.write_timeout).1 h.write_timeout,
        (is_positive_iff c.http.idle_timeout).1 h.idle_timeout,
        (is_positive_iff c.shutdown_timeout).1 h.shutdown_timeout,
        some_pool,
        pool,
        (is_positive_iff c.postgres.connect_timeout).1 h.connect_timeout,
        (is_positive_iff c.postgres.max_message_bytes).1 h.max_message_bytes,
      )
      refl

-- `Validate` accepts exactly the configurations with an address, positive sizes and durations (a
-- queue timeout of 0 is allowed), and a pool whose least size is natural and at most its positive
-- greatest size.
validate_iff : (c : Config) → (validate c ≡ ok tt) ↔ IsOperable c
validate_iff c = (validate_sound c, validate_complete c)
