-- ===== src/Tests/Startup.antt =====
-- Runs of the start of the service, and its theorem at such a run.
use pregao.Prelude.{
  if◌then◌else◌, ℕ, ◌+◌, ◌≡◌, refl, Bool, true, false, String, none, some, [], ◌∷◌, All, arith,
}
use pregao.Prelude.Text.{trim_space, ◌=ₛ◌}
use pregao.Prelude.Int.{ℤ}
use pregao.Errors.{ok, err, other}
use pregao.Decimal.Whole.{whole}
use pregao.Config.{load, require_env}
use pregao.Db.Pool.{Pgx, new_pool, run_migrations}
use pregao.Startup.{Platform, Service, Started, running, fatal, crashed, start, open_database, wire}
use pregao.Startup.Outcomes.{Explained, start-Explained}
use pregao.Startup.Serving.{start-serves}
use pregao.Config.Complete.{config_of}
use pregao.Startup.Orderly.{IsOrderly, exit_message, start_message, main-IsOrderly}
use pregao.Startup.Stopping.{
  main, serve, clients, stop, opens, closes, background, pool, redis, shutdown, serves_http,
  serves_grpc, stops_grpc, stops_http,
}
use pregao.Errors.{Reply}
use pregao.Service.Execute.{execute_trade}
use pregao.Service.Server.{ExecuteTradeRequest, ExecuteTradeResponse}
use pregao.Vault.Wiped.{AllWiped}
use pregao.Webhook.{handle_order_webhook}
use pregao.Worker.{process_fill}
use pregao.Worker.Clearing.{HasDestination}
use pregao.World.{World}
use pregao.Tests.Fixtures.{numbered, trade, world_with}
use pregao.Tests.Downstream.{stub}
use pregao.Tests.Market
use pregao.Tests.Webhooks.{payloads}
use pregao.Tests.Vault.{both_open}

-- A database that is not reached.
abbrev unreached : Pgx
unreached = record {
  PoolConfig = String;
  Pool = ℕ;
  parse_config = λ url. ok url;
  new_with_config = λ c. ok 1;
  ping = λ pool. some (other "connection refused");
  exec = λ pool sql. none;
}

abbrev platform : Platform
platform = record {
  getenv = λ key. "9000";
  schema = "CREATE TABLE";
  Connection = ℕ;
  dial = λ addr. err (other "no route");
  livro_stub = λ c. stub;
  ativos_stub = λ c. record { sync_broker_execution = λ r. ok tt };
  listen = λ addr. none;
}

abbrev unreached_start : Started ℕ ℤ
unreached_start = start ⦃b = Market.wire⦄ ⦃t = both_open⦄ ⦃x = unreached⦄ platform

abbrev is_running : {P D : Type 0} → Started P D → Bool
is_running (running s) = true
is_running (fatal m) = false
is_running (crashed m) = false

-- Without a database the service runs all the same.
test_start : is_running unreached_start ≡ true
unfolding start open_database wire new_pool load require_env trim_space
test_start = refl

start-Explained_example :
    Explained ⦃b = Market.wire⦄ ⦃t = both_open⦄ ⦃x = unreached⦄ platform unreached_start
start-Explained_example =
    start-Explained ℤ ⦃b = Market.wire⦄ ⦃t = both_open⦄ ⦃x = unreached⦄ platform

-- A database that is reached and takes the schema.
abbrev reached : Pgx
reached = record unreached { ping = λ pool. none }

-- The ledger is reached, the portfolio service is not.
abbrev connected_platform : Platform
connected_platform = record platform {
  getenv = λ key. if key =ₛ "ATIVOS_GRPC_ADDR" then "nowhere" else "9000";
  dial = λ addr. if addr =ₛ "nowhere" then err (other "no route") else ok 1;
}

abbrev served : Service ℕ ℤ
served =
    wire ⦃b = Market.wire⦄ ⦃t = both_open⦄ ⦃x = reached⦄ connected_platform
      (config_of connected_platform.getenv) (some 1)

is_started :
    start ⦃b = Market.wire⦄ ⦃t = both_open⦄ ⦃x = reached⦄ connected_platform ≡ running served
unfolding start open_database run_migrations new_pool load require_env trim_space
is_started = refl

has_pool : served.pool ≡ some 1
unfolding wire
has_pool = refl

-- A purchase that the broker of the tests lists, and takes.
abbrev purchase : ExecuteTradeRequest
purchase = record trade { symbol = "dogeusdt"; quantity = "7" }

start-serves_example :
    (y : Reply ExecuteTradeResponse × World ℤ) × (execute_trade 301 served.server purchase
        (world_with [])
      ≡ some y)
    × All HasDestination y.1.calls
    × AllWiped y.1.secrets
    × All HasDestination
        (handle_order_webhook
          (process_fill served.fill_processor)
          "POST"
          "fill"
          (world_with [])).1.calls
start-serves_example =
    start-serves ⦃b = Market.wire⦄ ⦃t = both_open⦄ ⦃x = reached⦄ connected_platform served 1
      purchase "POST" "fill" (world_with []) is_started has_pool (λ n. omega arith) tt tt

main-IsOrderly_example :
    IsOrderly [] false false (main ℤ ⦃x = reached⦄ platform (λ t. t + 1) 100)
    × (exit_message (main ℤ ⦃x = reached⦄ platform (λ t. t + 1) 100)
        ≡ start_message (start {D = ℤ} ⦃b = Market.wire⦄ ⦃t = both_open⦄ ⦃x = reached⦄ platform))
main-IsOrderly_example =
    main-IsOrderly ℤ ⦃b = Market.wire⦄ ⦃t = both_open⦄ ⦃x = reached⦄ platform (λ t. t + 1) 100

-- The two ledgers are not reached: a pool and Redis are closed, in this order at the end.
test_main :
    main ℤ ⦃x = reached⦄ platform (λ t. t + 1) 100
    ≡ opens background
      ∷ opens (pool 1)
      ∷ opens redis
      ∷ serves_http
      ∷ serves_grpc
      ∷ opens shutdown
      ∷ stops_grpc 100
      ∷ stops_http 5_000_000_100 101
      ∷ closes shutdown
      ∷ closes redis
      ∷ closes (pool 1)
      ∷ closes background
      ∷ []
unfolding main serve clients stop run_migrations new_pool load require_env trim_space
test_main = refl
