-- ===== src/Config.antt =====
-- internal/config/config.go: the configuration from the environment. `os.Getenv` is a parameter.
use Prim.Native.Char.{code}
use Prim.Native.String.{◌++◌}
use pregao.Prelude.{ℕ, String, Option, none, some, if◌then◌else◌, ◌==◌}
use pregao.Prelude.Text.{◌=ₛ◌, trim_space, trim_right, to_upper}
use pregao.Broker.{BrokerName, parse_broker}
pub mod Complete

-- Durations are in nanoseconds.
pub record Config : Type 0 where
  pub grpc_port : String
  pub http_port : String
  pub database_url : String
  pub redis_addr : String
  pub redis_password : String
  pub redis_db : ℕ
  pub openbao_addr : String
  pub openbao_token : String
  pub openbao_transit_key : String
  pub binance_base_url : String
  pub livro_grpc_addr : String
  pub ativos_grpc_addr : String
  pub default_broker : BrokerName
  pub cache_fresh_ttl : ℕ
  pub cache_stale_ttl : ℕ
  pub binance_recv_window : ℕ
  pub binance_http_timeout : ℕ

-- A Go call that returns, or panics.
pub data Outcome {ℓ} (A : Type ℓ) : Type ℓ where
  returned : A → Outcome A
  panicked : String → Outcome A

-- What follows a call, unless it panics.
abbrev pub and_next {ℓ κ} : {A : Type ℓ} {B : Type κ} → Outcome A → (A → Outcome B) → Outcome B
and_next (returned a) f = f a
and_next (panicked m) f = panicked m

abbrev pub missing : String → String
missing key = "missing required environment variable: " ++ key

module _ (getenv : String → String) where
  -- `requireEnv`
  unfoldable pub require_env : String → Outcome String
  require_env key =
      if trim_space (getenv key) =ₛ ""
      then panicked (missing key)
      else returned (trim_space (getenv key))

  -- `Load`: the fields are made in their order.
  unfoldable pub load : Outcome Config
  load = and_next (require_env "PORT") λ grpc_port. and_next (require_env "HTTP_PORT") λ http_port.
      and_next (require_env "DATABASE_URL") λ database_url.
        and_next (require_env "REDIS_ADDR") λ redis_addr.
          and_next (require_env "OPENBAO_ADDR") λ openbao_addr.
            and_next (require_env "OPENBAO_TOKEN") λ openbao_token.
              and_next (require_env "OPENBAO_TRANSIT_KEY") λ openbao_transit_key.
                and_next (require_env "BINANCE_BASE_URL") λ binance_base_url.
                  and_next (require_env "LIVRO_GRPC_ADDR") λ livro_grpc_addr.
                    and_next (require_env "ATIVOS_GRPC_ADDR") λ ativos_grpc_addr.
                      and_next (require_env "DEFAULT_BROKER") λ broker_text. returned (record {
                        grpc_port = grpc_port;
                        http_port = http_port;
                        database_url = database_url;
                        redis_addr = redis_addr;
                        redis_password = trim_space (getenv "REDIS_PASSWORD");
                        redis_db = 0;
                        openbao_addr = openbao_addr;
                        openbao_token = openbao_token;
                        openbao_transit_key = openbao_transit_key;
                        binance_base_url = trim_right (λ c. code c == b'/') binance_base_url;
                        livro_grpc_addr = livro_grpc_addr;
                        ativos_grpc_addr = ativos_grpc_addr;
                        default_broker = parse_broker (to_upper broker_text);
                        cache_fresh_ttl = 5_000_000_000;
                        cache_stale_ttl = 86_400_000_000_000;
                        binance_recv_window = 5000;
                        binance_http_timeout = 10_000_000_000;
                      })
