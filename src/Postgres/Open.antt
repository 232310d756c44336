-- ===== src/Postgres/Open.antt =====
-- data/postgres/postgres.go, `Open`: which pools it returns, and which connections it tries.
use stumpfworks_framework.Base.{
  ℕ, ◌≡◌, ◌≢◌, ◌↔◌, ◌⊎◌, inl, inr, refl, sym, ap, Bool, true, false, not, ◌&&◌, List, [], ◌∷◌,
  Option, some, Bytes, any, All, Result, ok, arith, is_empty, IsPositive, IsPoolRange,
  is_positive_iff, pool_range, range_accepted, Bool-cases, Option-cases, Result-cases,
}
use stumpfworks_framework.Postgres.{
  Options, Error, PoolConfig, validate, permits_plaintext, Effect, create, close, prepare, connect,
  open_pool,
}

pub record IsSane (o : Options) : Type 0 where
  pub url : o.url ≢ []
  pub pool : IsPoolRange o.min_connections o.max_connections
  pub connect_timeout : IsPositive o.connect_timeout
  pub max_message_bytes : IsPositive o.max_message_bytes

-- Neither the first connection nor one that is tried after it goes without TLS.
abbrev pub IsEncrypted : PoolConfig → Type 0
IsEncrypted c = (c.has_tls ≡ true) × All (λ has_tls. has_tls ≡ true) c.fallbacks

validate_iff : (o : Options) → (validate o ≡ ok tt) ↔ IsSane o
unfolding validate
validate_iff o = (
  λ e. record {
    url = ground arith;
    pool = pool_range o.min_connections o.max_connections (ground arith) (ground arith);
    connect_timeout = (is_positive_iff o.connect_timeout).0 (ground arith);
    max_message_bytes = (is_positive_iff o.max_message_bytes).0 (ground arith);
  },
  λ h.
      let given : is_empty o.url ≡ false = ground (arith, h.url) in
      let (some_pool, range) = range_accepted o.min_connections o.max_connections h.pool in
      rw
        (
          given,
          some_pool,
          range,
          (is_positive_iff o.connect_timeout).1 h.connect_timeout,
          (is_positive_iff o.max_message_bytes).1 h.max_message_bytes,
        )
        refl,
)

fallbacks_iff :
    (fallbacks : List Bool)
    → (any (λ has_tls. not has_tls) fallbacks ≡ false) ↔ All (λ has_tls. has_tls ≡ true) fallbacks
fallbacks_iff [] = ground arith
fallbacks_iff (has_tls ∷ more) = ground (arith, fallbacks_iff more)

plaintext_iff : (c : PoolConfig) → (permits_plaintext c ≡ false) ↔ IsEncrypted c
unfolding permits_plaintext
plaintext_iff c = ground (arith, fallbacks_iff c.fallbacks)

abbrev pub Includes : Effect → List Effect → Type 0
Includes e [] = ⊥
Includes e (f ∷ more) = (f ≡ e) ⊎ Includes e more

module _ (parse_config : Bytes → Option PoolConfig) where
  pub record IsVetted (o : Options) (config : PoolConfig) : Type 0 where
    pub sane : IsSane o
    pub parsed : PoolConfig
    pub from_url : parse_config o.url ≡ some parsed
    pub encrypted : o.allow_insecure ≡ false → IsEncrypted config
    pub settings : config ≡ record parsed {
      max_connections = o.max_connections;
      min_connections = o.min_connections;
      connect_timeout = o.connect_timeout;
      max_message_bytes = o.max_message_bytes;
    }

  prepare_sound :
      (o : Options) (config : PoolConfig) → prepare parse_config o ≡ ok config → IsVetted o config
  unfolding prepare
  prepare_sound o config e = elim (Result-cases (validate o)) [
    | inr (bad, refused) ↦ absurd (ground arith)
    | inl (u, accepted) ↦ elim (Option-cases (parse_config o.url)) [
      | inl unread ↦ absurd (ground arith)
      | inr (parsed, read) ↦ record {
        sane = (validate_iff o).0 accepted;
        parsed = parsed;
        from_url = read;
        encrypted = λ strict. ground (arith, plaintext_iff parsed);
        settings = ground arith;
      }
    ]
  ]

  prepare_complete :
      (o : Options) (config : PoolConfig) → IsVetted o config → prepare parse_config o ≡ ok config
  unfolding prepare permits_plaintext
  prepare_complete o config h =
      let accepted = (validate_iff o).1 h.sane in
      let read = h.from_url in
      let settings = h.settings in
      let safe : not o.allow_insecure && permits_plaintext h.parsed ≡ false =
        elim (Bool-cases o.allow_insecure) [
          | inl lax ↦ rw lax refl
          | inr strict ↦
              let secure : IsEncrypted h.parsed = rw settings at (h.encrypted strict) in
              (rw strict ((plaintext_iff h.parsed).1 secure))
        ] in
      rw (accepted, read, safe) (ap ok (sym settings))

module _ (parse_config : Bytes → Option PoolConfig) (new_pool : PoolConfig → Option ℕ)
    (answers : ℕ → Bool) where
  pub record IsOpened (o : Options) (result : Result Error ℕ × List Effect) : Type 0 where
    -- Exactly then is there a pool.
    pub returned :
        (pool : ℕ)
        → (result.0 ≡ ok pool) ↔ (
            (config : PoolConfig) × IsVetted parse_config o config
            × (new_pool config ≡ some pool)
            × (answers pool ≡ true))
    -- No connection is tried with a configuration that is not vetted.
    pub tried :
        (config : PoolConfig) → Includes (create config) result.1 → IsVetted parse_config o config
    -- A pool that is made and not returned is closed.
    pub released :
        (config : PoolConfig) (pool : ℕ)
        → Includes (create config) result.1
        → new_pool config ≡ some pool
        → (result.0 ≡ ok pool) ⊎ Includes (close pool) result.1

  -- `Open` returns a pool exactly where the options are in range, the URL parses, no connection that may
  -- be tried goes without TLS (unless insecure ones are allowed), and the pool that pgx makes with the
  -- options' limits answers. It never has pgx make a pool with another configuration, and a pool that it
  -- does not return is closed.
  pub open_pool-IsOpened : (o : Options) → IsOpened o (open_pool new_pool answers parse_config o)
  unfolding open_pool connect
  open_pool-IsOpened o = elim (Result-cases (prepare parse_config o)) [
    | inr (bad, refused) ↦
        rw (open_pool, refused)
          (record {
            returned = λ pool.
                (λ e. cc, λ h. absurd (let p = prepare_complete parse_config o h.0 h.1 in cc));
            tried = λ c e. absurd e;
            released = λ c p e. absurd e;
          })
    | inl (config, prepared) ↦
        let vetted = prepare_sound parse_config o config prepared in
        let same : (c : PoolConfig) → IsVetted parse_config o c → c ≡ config =
          λ c v. let p = prepare_complete parse_config o c v in cc in
        elim (Option-cases (new_pool config)) [
          | inl none_made ↦
              rw (open_pool, prepared, connect, none_made)
                (record {
                  returned =
                      λ pool. (λ e. cc, λ h. absurd (let p = same h.0 h.1 in let q = h.2 in cc));
                  tried = λ c e. let i : config ≡ c = ground arith in rw (sym i) vetted;
                  released = λ c p e made. absurd (let i : config ≡ c = ground arith in cc);
                })
          | inr (pool, made) ↦ elim (Bool-cases (answers pool)) [
            | inl up ↦
                rw (open_pool, prepared, connect, made, up)
                  (record {
                    returned = λ other. (
                      λ e. let i : pool ≡ other = cc in (config, vetted, cc, rw (sym i) up),
                      λ h. let p = same h.0 h.1 in let q = h.2 in cc,
                    );
                    tried = λ c e. let i : config ≡ c = ground arith in rw (sym i) vetted;
                    released = λ c p e took. let i : config ≡ c = ground arith in inl cc;
                  })
            | inr down ↦
                rw (open_pool, prepared, connect, made, down)
                  (record {
                    returned = λ other. (
                      λ e. cc,
                      λ h. absurd (let p = same h.0 h.1 in let q = h.2 in let r = h.3 in cc),
                    );
                    tried = λ c e. let i : config ≡ c = ground arith in rw (sym i) vetted;
                    released = λ c p e took.
                        let i : config ≡ c = ground arith in
                        let j : pool ≡ p = cc in inr (inr (inr (inl (ap close j))));
                  })
          ]
        ]
  ]
