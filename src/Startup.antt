-- ===== src/Startup.antt =====
-- cmd/api/main.go, with internal/config/config.go, the `Connect` of internal/database/database.go and
-- internal/redis/client.go, `NewProducer` of internal/kafka/producer.go, internal/logger/logger.go and
-- what `NewServer` of internal/server/server.go starts. What the machine answers is the parameter
-- `Host`: the environment with the file `.env`, and the libraries of the database, Redis and Kafka.
pub mod Boot
use go_wallet_ledger.Base.{
  ℕ, String, List, [], ◌∷◌, Option, none, some, Bool, true, false, ◌==◌, if◌then◌else◌, keep,
}

pub record Config : Type 0 where
  pub env : String
  pub server_port : String
  pub database_url : String
  pub redis_url : String
  pub kafka_broker : String
  pub jwt_secret : String

pub record Host : Type 0 where
  pub lookup_env : String → Option String
  pub parse_database_url : String → Bool
  pub new_pool : String → Bool
  pub ping_database : String → Bool
  pub parse_redis_url : String → Bool
  pub ping_redis : String → Bool
  pub new_kafka_client : String → Bool
  pub ping_kafka : String → Bool

-- Why the process ends before it serves; each of them is exit code 1.
pub data StartError : Type 0 where
  database_url_required : StartError
  database_config_invalid pool_failed database_unreachable : StartError
  redis_url_invalid redis_unreachable : StartError

pub data Try (A : Type 0) : Type 0 where
  done : A → Try A
  failed : StartError → Try A

abbrev pub value_or : Option String → String → String
value_or none default_val = default_val
value_or (some value) default_val = value

-- `getEnv`
unfoldable pub get_env : Host → String → String → String
get_env h key default_val = value_or (h.lookup_env key) default_val

abbrev pub config_of : Host → Config
unfolding get_env
config_of h = record {
  env = get_env h "ENV" "development";
  server_port = get_env h "SERVER_PORT" "8080";
  database_url = get_env h "DATABASE_URL" "";
  redis_url = get_env h "REDIS_URL" "redis://localhost:6379/0";
  kafka_broker = get_env h "KAFKA_BROKER" "localhost:9092";
  jwt_secret = get_env h "JWT_SECRET" "super-secret-key";
}

-- `LoadConfig`
unfoldable pub load_config : Host → Try Config
unfolding get_env
load_config h =
    if (config_of h).database_url == ""
    then failed StartError.database_url_required
    else done (config_of h)

-- `Connect` of the database
unfoldable pub connect_database : Host → String → Try (Unit {0})
connect_database h url =
    if h.parse_database_url url
    then if h.new_pool url
      then if h.ping_database url then done tt else failed StartError.database_unreachable
      else failed StartError.pool_failed
    else failed StartError.database_config_invalid

-- `Connect` of Redis
unfoldable pub connect_redis : Host → String → Try (Unit {0})
connect_redis h url =
    if h.parse_redis_url url
    then if h.ping_redis url then done tt else failed StartError.redis_unreachable
    else failed StartError.redis_url_invalid

-- `NewProducer`: whether there is a producer.
unfoldable pub new_producer : Host → String → Bool
new_producer h broker = if h.new_kafka_client broker then h.ping_kafka broker else false

pub data LogLevel : Type 0 where
  info debug : LogLevel

pub data LogFormat : Type 0 where
  json_lines text_lines : LogFormat

-- `NewLogger`
unfoldable pub new_logger : String → LogFormat × LogLevel
new_logger env =
    if env == "production"
    then (LogFormat.json_lines, LogLevel.info)
    else (LogFormat.text_lines, LogLevel.debug)

-- What serves: the configuration, the logger, and the workers that were started.
pub record Running : Type 0 where
  pub config : Config
  pub logger : LogFormat × LogLevel
  pub has_redis : Bool
  pub outbox_worker : Bool
  pub reconciliation_worker : Bool

abbrev pub then_try : {A B : Type 0} → Try A → (A → Try B) → Try B
then_try (done a) f = f a
then_try (failed x) f = failed x

-- `main`, up to `srv.Start`; `failed` is `os.Exit(1)`.
unfoldable pub boot : Host → Try Running
unfolding load_config connect_database connect_redis new_producer new_logger
boot h = then_try (load_config h) λ config. then_try (connect_database h config.database_url) λ _.
    then_try (connect_redis h config.redis_url) λ _. done (record {
      config = config;
      logger = new_logger config.env;
      has_redis = true;
      outbox_worker = new_producer h config.kafka_broker;
      reconciliation_worker = true;
    })
