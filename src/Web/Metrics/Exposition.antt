-- ===== src/Web/Metrics/Exposition.antt =====
-- web/metrics/metrics.go, `Handler`: the registry as Prometheus text, line by line.
use stumpfworks_framework.Base.{
  String, ℕ, Bool, not, List, [], ◌∷◌, ◌++◌, map, Option, none, some, Bytes, eqb, ltb, ◌==◌, codes,
  if◌then◌else◌, sort_by, text_lt,
}
use stumpfworks_framework.Web.Http.{Action, set_header, write, content_type, cache_control}
use stumpfworks_framework.Web.Metrics.{Seconds, Key, DirectoryKey, Observation, Registry, Stats}

-- `strings.ReplaceAll`, for a pattern of one byte.
unfoldable pub replace : ℕ → Bytes → Bytes → Bytes
replace c text [] = []
replace c text (d ∷ more) =
    let rest = replace c text more in if d == c then text ++ rest else d ∷ rest

abbrev pub escaped : Bytes → Bytes
escaped value =
    replace b'"' (codes "\\\"") (replace b'\n' (codes "\\n") (replace b'\\' (codes "\\\\") value))

-- `quote`
unfoldable pub quote : Bytes → Bytes
unfolding replace
quote value = b'"' ∷ (escaped value ++ b'"' ∷ [])

abbrev pub key_lt : Key → Key → Bool
key_lt a b =
    if not (eqb a.method b.method)
    then text_lt a.method b.method
    else if not (eqb a.route b.route)
    then text_lt a.route b.route
    else ltb a.status b.status

abbrev pub directory_key_lt : DirectoryKey → DirectoryKey → Bool
directory_key_lt a b =
    if not (eqb a.outcome b.outcome) then text_lt a.outcome b.outcome else text_lt a.stage b.stage

abbrev pub concat : List (List Bytes) → List Bytes
concat [] = []
concat (l ∷ more) = l ++ concat more

module _ (seconds : Seconds) (decimal : ℕ → Bytes) where
  open seconds use {F, uppers, text}

  abbrev infix_label : Key → Bytes
  infix_label k =
      codes "method="
      ++ (quote k.method
          ++ (codes ",route="
              ++ (quote k.route ++ (codes ",status=" ++ (b'"' ∷ (decimal k.status ++ b'"' ∷ []))))))

  -- `key.text`
  abbrev pub label_text : Key → Bytes
  label_text k = b'{' ∷ (infix_label k ++ codes "}")

  -- `key.textWithBucket`
  abbrev pub label_text_with_bucket : Key → Bytes → Bytes
  label_text_with_bucket k bucket =
      b'{' ∷ (infix_label k ++ (codes ",le=" ++ (quote bucket ++ codes "}")))

  abbrev line : String → Bytes → ℕ → Bytes
  line name label n = codes name ++ (label ++ (codes " " ++ decimal n))

  -- The loop over the buckets, for a name and the label of a bound.
  pub bucket_lines : Bytes → (Bytes → Bytes) → List F → List ℕ → List Bytes
  bucket_lines name label [] bs = []
  bucket_lines name label (u ∷ us) [] = []
  bucket_lines name label (u ∷ us) (b ∷ bs) =
      (name ++ (label (text u) ++ (codes " " ++ decimal b))) ∷ bucket_lines name label us bs

  pub request_lines : Key × Observation seconds → List Bytes
  request_lines (k, o) =
      bucket_lines (codes "swf_http_request_duration_seconds_bucket") (label_text_with_bucket k)
        uppers o.buckets
      ++ (line "swf_http_request_duration_seconds_bucket" (label_text_with_bucket k (codes "+Inf"))
            o.count
          ∷ (codes "swf_http_request_duration_seconds_sum"
              ++ (label_text k ++ (codes " " ++ text o.sum)))
          ∷ line "swf_http_request_duration_seconds_count" (label_text k) o.count
          ∷ [])

  abbrev directory_label : DirectoryKey → Bytes
  directory_label k = codes "outcome=" ++ (quote k.outcome ++ (codes ",stage=" ++ quote k.stage))

  abbrev braced : Bytes → Bytes
  braced label = b'{' ∷ (label ++ codes "}")

  pub directory_lines : DirectoryKey × Observation seconds → List Bytes
  directory_lines (k, o) =
      let label = directory_label k in
      let with_bound : Bytes → Bytes = λ bound. braced (label ++ (codes ",le=" ++ quote bound)) in
      bucket_lines (codes "swf_directory_lookup_duration_seconds_bucket") with_bound uppers
        o.buckets
      ++ (line "swf_directory_lookup_duration_seconds_bucket" (with_bound (codes "+Inf")) o.count
          ∷ (codes "swf_directory_lookup_duration_seconds_sum"
              ++ (braced label ++ (codes " " ++ text o.sum)))
          ∷ line "swf_directory_lookup_duration_seconds_count" (braced label) o.count
          ∷ [])

  abbrev counter : String → String → ℕ → List Bytes
  counter name help n =
      (codes "# HELP " ++ (codes name ++ (codes " " ++ codes help)))
      ∷ (codes "# TYPE " ++ (codes name ++ codes " counter"))
      ∷ line name [] n
      ∷ []

  abbrev gauge : String → ℕ → Bytes
  gauge state n = line "swf_postgres_connections" (braced (codes "state=" ++ quote (codes state))) n

  -- `writePostgresMetrics`
  pub postgres_lines : Stats → List Bytes
  postgres_lines s =
      (codes "# HELP swf_postgres_connections Current PostgreSQL pool connections by bounded state."
        ∷ codes "# TYPE swf_postgres_connections gauge"
        ∷ gauge "acquired" s.acquired
        ∷ gauge "constructing" s.constructing
        ∷ gauge "idle" s.idle
        ∷ gauge "max" s.maximum
        ∷ gauge "total" s.total
        ∷ [])
      ++ (counter "swf_postgres_acquires_total" "Cumulative successful PostgreSQL pool acquires."
            s.acquire_count
          ++ (counter "swf_postgres_acquire_canceled_total"
                "Cumulative canceled PostgreSQL pool acquires." s.canceled_count
              ++ (counter "swf_postgres_acquire_empty_total"
                    "Cumulative PostgreSQL acquires that waited for a connection." s.empty_count
                  ++ (counter "swf_postgres_connections_created_total"
                        "Cumulative PostgreSQL connections created by the pool." s.new_count
                      ++ (codes
                            "# HELP swf_postgres_acquire_duration_seconds_total Cumulative time waiting to acquire PostgreSQL connections."
                          ∷ codes "# TYPE swf_postgres_acquire_duration_seconds_total counter"
                          ∷ (codes "swf_postgres_acquire_duration_seconds_total "
                              ++ s.acquire_seconds)
                          ∷ [])))))

  abbrev pub by_key : Key × Observation seconds → Key × Observation seconds → Bool
  by_key a b = key_lt a.0 b.0

  abbrev pub by_directory_key :
      DirectoryKey × Observation seconds → DirectoryKey × Observation seconds → Bool
  by_directory_key a b = directory_key_lt a.0 b.0

  abbrev pub postgres_part : Option (Option Stats) → List Bytes
  postgres_part none = []
  postgres_part (some none) = []
  postgres_part (some (some s)) = postgres_lines s

  -- The lines of an exposition.
  unfoldable pub exposition : Registry seconds → List Bytes
  exposition r =
      let requests = sort_by by_key r.http in
      let lookups = sort_by by_directory_key r.directory in
      (codes "# HELP swf_http_requests_total Completed HTTP requests."
        ∷ codes "# TYPE swf_http_requests_total counter"
        ∷ map
            (λ (item : Key × Observation seconds).
              line "swf_http_requests_total" (label_text item.0) item.1.count)
            requests)
      ++ ((codes "# HELP swf_http_request_duration_seconds HTTP request duration in seconds."
            ∷ codes "# TYPE swf_http_request_duration_seconds histogram"
            ∷ concat (map request_lines requests))
          ++ ((codes "# HELP swf_directory_lookups_total Completed directory user lookups."
                ∷ codes "# TYPE swf_directory_lookups_total counter"
                ∷ map
                    (λ (item : DirectoryKey × Observation seconds).
                      line "swf_directory_lookups_total" (braced (directory_label item.0))
                        item.1.count)
                    lookups)
              ++ ((codes
                      "# HELP swf_directory_lookup_duration_seconds Directory user lookup duration in seconds."
                    ∷ codes "# TYPE swf_directory_lookup_duration_seconds histogram"
                    ∷ concat (map directory_lines lookups))
                  ++ postgres_part r.postgres)))

  abbrev pub with_newlines : List Bytes → Bytes
  with_newlines [] = []
  with_newlines (l ∷ more) = l ++ (b'\n' ∷ with_newlines more)

  -- `Handler`; the writes are one here.
  unfoldable pub serve : Registry seconds → List Action
  serve r =
      set_header content_type (codes "text/plain; version=0.0.4; charset=utf-8")
      ∷ set_header cache_control (codes "no-store")
      ∷ write (with_newlines (exposition r))
      ∷ []
