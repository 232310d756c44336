-- ===== src/Config/Layers.antt =====
-- core/config/config.go, `applyFile` and the command line: what each layer makes of the settings.
use stumpfworks_framework.Base.{
  ◌≡◌, ◌≢◌, ◌⊎◌, inl, inr, refl, true, false, [], ◌∷◌, Option, none, some, Bytes, is_empty, codes,
  ok, ℤ, arith, Option-cases, Bool-cases,
}
use stumpfworks_framework.Config.{
  Config, FileConfig, Overrides, World, defaults, value_or, text_or, file_duration, apply_values,
  apply_file, filename_of, from_file, override,
}

-- A text that replaces the setting unless it is empty.
abbrev pub IsText : Bytes → Bytes → Bytes → Type 0
IsText text before after = ((text ≡ []) × (after ≡ before)) ⊎ ((text ≢ []) × (after ≡ text))

-- A number that replaces the setting if there is one.
abbrev pub IsNumber : Option ℤ → ℤ → ℤ → Type 0
IsNumber given before after = ((given ≡ none) × (after ≡ before)) ⊎ (given ≡ some after)

-- A duration, written as a text, that replaces the setting unless it is empty.
abbrev pub IsDuration : (Bytes → Option ℤ) → Bytes → ℤ → ℤ → Type 0
IsDuration parse text before after =
    ((text ≡ []) × (after ≡ before)) ⊎ ((text ≢ []) × (parse text ≡ some after))

text_or-IsText :
    (text before after : Bytes) → after ≡ text_or text before → IsText text before after
text_or-IsText [] before after e = inl (refl, ground arith)
text_or-IsText (c ∷ rest) before after e = inr (λ h. cc, ground arith)

value_or-IsNumber :
    (given : Option ℤ) (before after : ℤ)
    → after ≡ value_or given before
    → IsNumber given before after
value_or-IsNumber none before after e = inl (refl, e)
value_or-IsNumber (some n) before after e = inr (ground arith)

file_duration-IsDuration :
    (parse : Bytes → Option ℤ) (text : Bytes) (before after : ℤ)
    → file_duration parse text before ≡ ok after
    → IsDuration parse text before after
unfolding file_duration
file_duration-IsDuration parse [] before after e = inl (refl, ground arith)
file_duration-IsDuration parse (c ∷ rest) before after e = inr (λ h. cc, ground arith)

module _ (w : World) where
  open w use {env, read_file, decode, parse_duration}

  -- What the values `f` of a file make of the settings `b`.
  pub record IsFromValues (f : FileConfig) (b c : Config) : Type 0 where
    pub address : IsText f.http.address b.http.address c.http.address
    pub read_timeout :
        IsDuration parse_duration f.http.read_timeout b.http.read_timeout c.http.read_timeout
    pub read_header_timeout :
        IsDuration parse_duration f.http.read_header_timeout b.http.read_header_timeout
          c.http.read_header_timeout
    pub write_timeout :
        IsDuration parse_duration f.http.write_timeout b.http.write_timeout c.http.write_timeout
    pub idle_timeout :
        IsDuration parse_duration f.http.idle_timeout b.http.idle_timeout c.http.idle_timeout
    pub queue_timeout :
        IsDuration parse_duration f.http.queue_timeout b.http.queue_timeout c.http.queue_timeout
    pub max_header_bytes :
        IsNumber f.http.max_header_bytes b.http.max_header_bytes c.http.max_header_bytes
    pub max_concurrent_requests :
        IsNumber f.http.max_concurrent_requests b.http.max_concurrent_requests
          c.http.max_concurrent_requests
    pub url : IsText f.postgres.url b.postgres.url c.postgres.url
    pub max_connections :
        IsNumber f.postgres.max_connections b.postgres.max_connections c.postgres.max_connections
    pub min_connections :
        IsNumber f.postgres.min_connections b.postgres.min_connections c.postgres.min_connections
    pub max_message_bytes :
        IsNumber f.postgres.max_message_bytes b.postgres.max_message_bytes
          c.postgres.max_message_bytes
    pub connect_timeout :
        IsDuration parse_duration f.postgres.connect_timeout b.postgres.connect_timeout
          c.postgres.connect_timeout
    pub allow_insecure :
        ((f.postgres.allow_insecure ≡ true) × (c.postgres.allow_insecure ≡ true))
        ⊎ ((f.postgres.allow_insecure ≡ false)
            × (c.postgres.allow_insecure ≡ b.postgres.allow_insecure))
    pub shutdown_timeout :
        IsDuration parse_duration f.shutdown_timeout b.shutdown_timeout c.shutdown_timeout

  from_values :
      (f : FileConfig) (b c : Config) → apply_values parse_duration f b ≡ ok c → IsFromValues f b c
  unfolding apply_values
  from_values f b c e = record {
    address = text_or-IsText f.http.address b.http.address c.http.address (ground arith);
    url = text_or-IsText f.postgres.url b.postgres.url c.postgres.url (ground arith);
    read_timeout =
        file_duration-IsDuration parse_duration f.http.read_timeout b.http.read_timeout
          c.http.read_timeout (ground arith);
    read_header_timeout =
        file_duration-IsDuration parse_duration f.http.read_header_timeout
          b.http.read_header_timeout c.http.read_header_timeout (ground arith);
    write_timeout =
        file_duration-IsDuration parse_duration f.http.write_timeout b.http.write_timeout
          c.http.write_timeout (ground arith);
    idle_timeout =
        file_duration-IsDuration parse_duration f.http.idle_timeout b.http.idle_timeout
          c.http.idle_timeout (ground arith);
    queue_timeout =
        file_duration-IsDuration parse_duration f.http.queue_timeout b.http.queue_timeout
          c.http.queue_timeout (ground arith);
    max_header_bytes =
        value_or-IsNumber f.http.max_header_bytes b.http.max_header_bytes c.http.max_header_bytes
          (ground arith);
    max_concurrent_requests =
        value_or-IsNumber f.http.max_concurrent_requests b.http.max_concurrent_requests
          c.http.max_concurrent_requests (ground arith);
    max_connections =
        value_or-IsNumber f.postgres.max_connections b.postgres.max_connections
          c.postgres.max_connections (ground arith);
    min_connections =
        value_or-IsNumber f.postgres.min_connections b.postgres.min_connections
          c.postgres.min_connections (ground arith);
    max_message_bytes =
        value_or-IsNumber f.postgres.max_message_bytes b.postgres.max_message_bytes
          c.postgres.max_message_bytes (ground arith);
    connect_timeout =
        file_duration-IsDuration parse_duration f.postgres.connect_timeout
          b.postgres.connect_timeout c.postgres.connect_timeout (ground arith);
    shutdown_timeout =
        file_duration-IsDuration parse_duration f.shutdown_timeout b.shutdown_timeout
          c.shutdown_timeout (ground arith);
    allow_insecure = elim (Bool-cases f.postgres.allow_insecure) [
      | inl allowed ↦ inl (allowed, ground arith)
      | inr kept ↦ inr (kept, ground arith)
    ];
  }

  -- The name of the file: that of the command line, else of the environment, else none.
  abbrev pub IsFilename : Overrides → Bytes → Type 0
  IsFilename o name =
      ((o.config_file ≢ []) × (name ≡ o.config_file))
      ⊎ ((o.config_file ≡ []) × (env (codes "SWF_CONFIG_FILE") ≡ some name))
      ⊎ ((o.config_file ≡ []) × (env (codes "SWF_CONFIG_FILE") ≡ none) × (name ≡ []))

  -- The settings before the environment is read: the defaults where there is no file, else the
  -- defaults under the one value of the file.
  abbrev pub IsFromFile : Overrides → Config → Type 0
  IsFromFile o c =
      (name : Bytes) × IsFilename o name
      × (((name ≡ []) × (c ≡ defaults))
          ⊎ ((name ≢ [])
              × ((contents : Bytes) × (f : FileConfig) × (read_file name ≡ some contents)
                  × (decode contents ≡ some (f, true))
                  × IsFromValues f defaults c)))

  filename_of-IsFilename : (o : Overrides) → IsFilename o (filename_of w o)
  filename_of-IsFilename o = elim (Bool-cases (is_empty o.config_file)) [
    | inr given ↦ inl (ground arith, ground arith)
    | inl empty ↦ elim (Option-cases (env (codes "SWF_CONFIG_FILE"))) [
      | inl unset ↦ inr (inr (ground arith, unset, ground arith))
      | inr (name, set) ↦ inr (inl (ground arith, ground arith))
    ]
  ]

  applied :
      (name : Bytes) (b c : Config)
      → apply_file w name b ≡ ok c
      → (contents : Bytes) × (f : FileConfig) × (read_file name ≡ some contents)
        × (decode contents ≡ some (f, true))
        × IsFromValues f b c
  unfolding apply_file
  applied name b c e = elim (Option-cases (read_file name)) [
    | inl missing ↦ absurd (ground arith)
    | inr (contents, read) ↦ elim (Option-cases (decode contents)) [
      | inl malformed ↦ absurd (ground arith)
      | inr ((f, single), decoded) ↦
          (contents, f, read, ground arith, from_values f b c (ground arith))
    ]
  ]

  pub from_file-IsFromFile : (o : Overrides) (c : Config) → from_file w o ≡ ok c → IsFromFile o c
  unfolding from_file
  from_file-IsFromFile o c e = elim (Bool-cases (is_empty (filename_of w o))) [
    | inl empty ↦ (filename_of w o, filename_of-IsFilename o, inl (ground arith, ground arith))
    | inr given ↦ (
      filename_of w o,
      filename_of-IsFilename o,
      inr (ground arith, applied (filename_of w o) defaults c (ground arith)),
    )
  ]

-- The command line replaces the address alone, unless its own is empty.
abbrev pub IsOverridden : Overrides → Config → Config → Type 0
IsOverridden o before after =
    IsText o.http_address before.http.address after.http.address
    × (after ≡ record before { http = record (before.http) { address = after.http.address } })

pub override-IsOverridden :
    (w : World) (o : Overrides) (c : Config) → IsOverridden o c (override w o c)
override-IsOverridden w o c = (text_or-IsText o.http_address c.http.address _ refl, refl)
