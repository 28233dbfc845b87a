-- ===== src/Config/Loading.antt =====
-- include/notification/Config.hpp: what a file with some of the settings is read as.
use distributed_notification.Base.{
  ℕ, ◌<◌, ◌≡◌, sym, ◌∙◌, ap, ◌⊎◌, inl, inr, ℤ, pos, String, none, some, List, map, All,
}
use distributed_notification.Config.{Config, default, read_config, load_from_file, delays_or}
use distributed_notification.Platform.{Platform, ok, field, InInt, IsJson, IsSettingsJson}

module _ (P : Platform) (json : IsJson P) (laws : IsSettingsJson P)
    (fs : List (String × P.Json)) where
  -- The value under the key, or the default where there is no such key.
  abbrev pub Set : {A : Type 0} → (A → P.Json) → String → A → A → Type 0
  Set encode k d a = (field k fs ≡ some (encode a)) ⊎ ((field k fs ≡ none) × (a ≡ d))

  -- The object says of every setting what c has, or nothing where c has the default; the numbers are
  -- in the ranges of their C++ types.
  pub record Describes (c : Config) : Type 0 where
    pub db_host : Set P.str "dbHost" default.db_host c.db_host
    pub db_port : Set P.num "dbPort" default.db_port c.db_port
    pub db_user : Set P.str "dbUser" default.db_user c.db_user
    pub db_password : Set P.str "dbPassword" default.db_password c.db_password
    pub db_schema : Set P.str "dbSchema" default.db_schema c.db_schema
    pub db_pool_size : Set P.num "dbPoolSize" default.db_pool_size c.db_pool_size
    pub amqp_host : Set P.str "amqpHost" default.amqp_host c.amqp_host
    pub amqp_port : Set P.num "amqpPort" default.amqp_port c.amqp_port
    pub amqp_user : Set P.str "amqpUser" default.amqp_user c.amqp_user
    pub amqp_password : Set P.str "amqpPassword" default.amqp_password c.amqp_password
    pub amqp_vhost : Set P.str "amqpVhost" default.amqp_vhost c.amqp_vhost
    pub workers_per_channel :
        Set P.num "workersPerChannel" default.workers_per_channel c.workers_per_channel
    pub max_retries : Set P.num "maxRetries" default.max_retries c.max_retries
    pub retry_delays_ms :
        Set (λ is. P.arr (map P.num is)) "retryDelaysMs" default.retry_delays_ms c.retry_delays_ms
    pub cb_failure_threshold :
        Set P.num "cbFailureThreshold" default.cb_failure_threshold c.cb_failure_threshold
    pub cb_open_duration_ms :
        Set P.num "cbOpenDurationMs" default.cb_open_duration_ms c.cb_open_duration_ms
    pub http_address : Set P.str "httpAddress" default.http_address c.http_address
    pub http_port : Set (λ i. P.num (pos i)) "httpPort" default.http_port c.http_port
    pub http_threads : Set P.num "httpThreads" default.http_threads c.http_threads
    pub db_port_range : InInt c.db_port
    pub db_pool_size_range : InInt c.db_pool_size
    pub amqp_port_range : InInt c.amqp_port
    pub workers_per_channel_range : InInt c.workers_per_channel
    pub max_retries_range : InInt c.max_retries
    pub retry_delays_ms_range : All InInt c.retry_delays_ms
    pub cb_failure_threshold_range : InInt c.cb_failure_threshold
    pub cb_open_duration_ms_range : InInt c.cb_open_duration_ms
    pub http_port_range : c.http_port < 65536
    pub http_threads_range : InInt c.http_threads

  string_set : (k d a : String) → Set P.str k d a → P.value_string (P.obj fs) k d ≡ ok a
  string_set k d a (inl h) = laws.value_string-obj fs k a d h
  string_set k d a (inr (h, e)) = laws.value_string-none fs k d h ∙ ap ok (sym e)

  int_set : (k : String) (d a : ℤ) → InInt a → Set P.num k d a → P.value_int (P.obj fs) k d ≡ ok a
  int_set k d a r (inl h) = json.value_int-obj fs k a d r h
  int_set k d a r (inr (h, e)) = laws.value_int-none fs k d h ∙ ap ok (sym e)

  u16_set :
      (k : String) (d a : ℕ)
      → a < 65536
      → Set (λ i. P.num (pos i)) k d a
      → P.value_u16 (P.obj fs) k d ≡ ok a
  u16_set k d a r (inl h) = laws.value_u16-obj fs k a d r h
  u16_set k d a r (inr (h, e)) = laws.value_u16-none fs k d h ∙ ap ok (sym e)

  delays_set :
      (d a : List ℤ)
      → All InInt a
      → Set (λ is. P.arr (map P.num is)) "retryDelaysMs" d a
      → delays_or P (P.obj fs) d ≡ ok a
  delays_set d a r (inl h) =
      rw (laws.contains-some fs "retryDelaysMs" _ h) (laws.at_ints-obj fs "retryDelaysMs" a r h)
  delays_set d a r (inr (h, e)) = rw (laws.contains-none fs "retryDelaysMs" h) (ap ok (sym e))

  -- A file that holds an object with the settings of c, each that differs from the default at least,
  -- is read as c.
  pub load_from_file-Describes :
      (path : String) (c : Config)
      → Describes c
      → load_from_file P path (some (P.dump (P.obj fs))) ≡ ok c
  unfolding load_from_file read_config
  load_from_file-Describes path c h = rw (
    json.extract-dump (P.obj fs),
    string_set "dbHost" default.db_host c.db_host h.db_host,
    int_set "dbPort" default.db_port c.db_port h.db_port_range h.db_port,
    string_set "dbUser" default.db_user c.db_user h.db_user,
    string_set "dbPassword" default.db_password c.db_password h.db_password,
    string_set "dbSchema" default.db_schema c.db_schema h.db_schema,
    int_set "dbPoolSize" default.db_pool_size c.db_pool_size h.db_pool_size_range h.db_pool_size,
    string_set "amqpHost" default.amqp_host c.amqp_host h.amqp_host,
    int_set "amqpPort" default.amqp_port c.amqp_port h.amqp_port_range h.amqp_port,
    string_set "amqpUser" default.amqp_user c.amqp_user h.amqp_user,
    string_set "amqpPassword" default.amqp_password c.amqp_password h.amqp_password,
    string_set "amqpVhost" default.amqp_vhost c.amqp_vhost h.amqp_vhost,
    int_set "workersPerChannel" default.workers_per_channel c.workers_per_channel
        h.workers_per_channel_range h.workers_per_channel,
    int_set "maxRetries" default.max_retries c.max_retries h.max_retries_range h.max_retries,
    delays_set default.retry_delays_ms c.retry_delays_ms h.retry_delays_ms_range h.retry_delays_ms,
    int_set "cbFailureThreshold" default.cb_failure_threshold c.cb_failure_threshold
        h.cb_failure_threshold_range h.cb_failure_threshold,
    int_set "cbOpenDurationMs" default.cb_open_duration_ms c.cb_open_duration_ms
        h.cb_open_duration_ms_range h.cb_open_duration_ms,
    string_set "httpAddress" default.http_address c.http_address h.http_address,
    u16_set "httpPort" default.http_port c.http_port h.http_port_range h.http_port,
    int_set "httpThreads" default.http_threads c.http_threads h.http_threads_range h.http_threads,
  )
