-- ===== src/Config.antt =====
-- include/notification/Config.hpp: the settings, their defaults and their reading from a file. An
-- `int` is an integer.
pub mod Loading
use distributed_notification.Base.{
  ℕ, ℤ, pos, Bool, true, false, String, ◌<>◌, Option, none, some, List, [], ◌∷◌, if◌then◌else◌,
}
use distributed_notification.Platform.{Platform, Parsed, ok, bad, ◌>>=◌}

pub record Config : Type 0 where
  pub db_host : String
  pub db_port : ℤ
  pub db_user : String
  pub db_password : String
  pub db_schema : String
  pub db_pool_size : ℤ
  pub amqp_host : String
  pub amqp_port : ℤ
  pub amqp_user : String
  pub amqp_password : String
  pub amqp_vhost : String
  pub workers_per_channel : ℤ
  pub max_retries : ℤ
  pub retry_delays_ms : List ℤ
  pub cb_failure_threshold : ℤ
  pub cb_open_duration_ms : ℤ
  pub http_address : String
  pub http_port : ℕ  -- unsigned short
  pub http_threads : ℤ

abbrev pub default : Config
default = record {
  db_host = "127.0.0.1";
  db_port = pos 33060;
  db_user = "notification_app";
  db_password = "";
  db_schema = "notification_db";
  db_pool_size = pos 8;
  amqp_host = "127.0.0.1";
  amqp_port = pos 5672;
  amqp_user = "guest";
  amqp_password = "guest";
  amqp_vhost = "/";
  workers_per_channel = pos 4;
  max_retries = pos 3;
  retry_delays_ms = pos 5000 ∷ pos 15000 ∷ pos 60000 ∷ [];
  cb_failure_threshold = pos 5;
  cb_open_duration_ms = pos 30000;
  http_address = "0.0.0.0";
  http_port = 8080;
  http_threads = pos 4;
}

module _ (P : Platform) where
  -- `if (j.contains("retryDelaysMs")) …`
  abbrev pub delays_or : P.Json → List ℤ → Parsed (List ℤ)
  delays_or j delays =
      if P.contains j "retryDelaysMs" then P.at_ints j "retryDelaysMs" else ok delays

  -- From `Config c;` on, with c the defaults.
  unfoldable pub read_config : P.Json → Parsed Config
  read_config j = do
    db_host ← P.value_string j "dbHost" default.db_host
    db_port ← P.value_int j "dbPort" default.db_port
    db_user ← P.value_string j "dbUser" default.db_user
    db_password ← P.value_string j "dbPassword" default.db_password
    db_schema ← P.value_string j "dbSchema" default.db_schema
    db_pool_size ← P.value_int j "dbPoolSize" default.db_pool_size
    amqp_host ← P.value_string j "amqpHost" default.amqp_host
    amqp_port ← P.value_int j "amqpPort" default.amqp_port
    amqp_user ← P.value_string j "amqpUser" default.amqp_user
    amqp_password ← P.value_string j "amqpPassword" default.amqp_password
    amqp_vhost ← P.value_string j "amqpVhost" default.amqp_vhost
    workers_per_channel ← P.value_int j "workersPerChannel" default.workers_per_channel
    max_retries ← P.value_int j "maxRetries" default.max_retries
    retry_delays_ms ← delays_or j default.retry_delays_ms
    cb_failure_threshold ← P.value_int j "cbFailureThreshold" default.cb_failure_threshold
    cb_open_duration_ms ← P.value_int j "cbOpenDurationMs" default.cb_open_duration_ms
    http_address ← P.value_string j "httpAddress" default.http_address
    http_port ← P.value_u16 j "httpPort" default.http_port
    http_threads ← P.value_int j "httpThreads" default.http_threads
    ok (record {
      db_host = db_host;
      db_port = db_port;
      db_user = db_user;
      db_password = db_password;
      db_schema = db_schema;
      db_pool_size = db_pool_size;
      amqp_host = amqp_host;
      amqp_port = amqp_port;
      amqp_user = amqp_user;
      amqp_password = amqp_password;
      amqp_vhost = amqp_vhost;
      workers_per_channel = workers_per_channel;
      max_retries = max_retries;
      retry_delays_ms = retry_delays_ms;
      cb_failure_threshold = cb_failure_threshold;
      cb_open_duration_ms = cb_open_duration_ms;
      http_address = http_address;
      http_port = http_port;
      http_threads = http_threads;
    })

  -- `none` is a file that cannot be opened.
  unfoldable pub load_from_file : String → Option P.Body → Parsed Config
  load_from_file path none = bad (some ("could not open config file: " <> path))
  load_from_file path (some text) = do j ← P.extract text; read_config j
