-- ===== src/Startup.antt =====
-- cmd/server/main.go: the start of the service up to its two listeners, and how the components are
-- put together. The HTTP listener's failure is only logged; main as a whole is in Stopping.
pub mod Outcomes
pub mod Serving
pub mod Stopping
pub mod Orderly
use Prim.Native.String.{◌++◌}
use pregao.Prelude.{ℕ, String, Option, none, some, if◌then◌else◌}
use pregao.Prelude.Int.{pos}
use pregao.Errors.{Error, Result, ok, err, error_text, and_then}
use pregao.Decimal.{Decimals}
use pregao.Uuid.{Uuids}
use pregao.Binance.Wire.{Wire}
use pregao.Binance.Client.{new_client}
use pregao.Binance.Market.{broker_client}
use pregao.Cache.{QuotesCache, new_redis_quotes_cache}
use pregao.Client.Ativos.Grpc.{PortfolioServiceClient, dial_ativos}
use pregao.Client.Livro.Grpc.{LedgerServiceClient, dial_livro}
use pregao.Config.{Config, Outcome, returned, panicked, load}
use pregao.Db.Pool.{Pgx, new_pool, run_migrations}
use pregao.Service.Server.{PregaoServer, ServerParams, new_pregao_server}
use pregao.Vault.Transit.{TransitWire, new_transit_client, transit_client}
use pregao.Worker.{FillProcessor, process_fill}

-- What lies outside of the process: the environment, the embedded schema, the sockets.
pub record Platform : Type 1 where
  pub getenv : String → String
  pub schema : String
  pub Connection : Type 0
  pub dial : String → Result Connection
  pub livro_stub : Connection → LedgerServiceClient
  pub ativos_stub : Connection → PortfolioServiceClient
  pub listen : String → Option Error

-- What runs when the start is over. The pool is the repositories'; without one they are nil.
pub record Service (P D : Type 0) : Type 0 where
  pub pool : Option P
  pub quotes_cache : QuotesCache
  pub fill_processor : FillProcessor D
  pub server : PregaoServer D
  pub http_addr : String
  pub grpc_addr : String

-- `fatal` is `log.Fatalf`.
pub data Started (P D : Type 0) : Type 0 where
  running : Service P D → Started P D
  fatal : String → Started P D
  crashed : String → Started P D

-- A client that is left nil where its dialling failed.
abbrev pub connected {ℓ} : {A : Type ℓ} → Result A → Option A
connected (ok a) = some a
connected (err e) = none

module _ ⦃x : Pgx⦄ where
  -- Step 1: a database that cannot be reached is only logged, one that cannot be migrated is fatal.
  unfoldable pub open_database : Platform → Config → Result (Option x.Pool)
  open_database p cfg = elim (new_pool cfg.database_url).0 [
    | err e ↦ ok none
    | ok pool ↦ and_then (run_migrations p.schema pool) λ done. ok (some pool)
  ]

module _ {D : Type 0} ⦃d : Decimals D⦄ where
  -- Step 6: the fill processor, with the clients of step 5.
  unfoldable pub wire_processor : Platform → Config → FillProcessor D
  unfolding dial_livro dial_ativos
  wire_processor p cfg = record {
    livro_client = connected (dial_livro p.dial p.livro_stub cfg.livro_grpc_addr);
    ativos_client = connected (dial_ativos p.dial p.ativos_stub cfg.ativos_grpc_addr);
  }

module _ {D : Type 0} ⦃d : Decimals D⦄ ⦃u : Uuids⦄ ⦃b : Wire⦄ ⦃t : TransitWire⦄ where
  -- Step 7: the server, with the clients of steps 3 and 4.
  unfoldable pub wire_server : Config → FillProcessor D → PregaoServer D
  unfolding new_pregao_server new_transit_client new_client
  wire_server cfg processor = new_pregao_server (record {
    default_broker = cfg.default_broker;
    broker_client = broker_client (
        new_client cfg.binance_base_url (pos cfg.binance_recv_window)
          (pos cfg.binance_http_timeout));
    vault_client = transit_client (
        new_transit_client cfg.openbao_addr cfg.openbao_token cfg.openbao_transit_key
          (pos 5_000_000_000));
    livro_client = processor.livro_client;
    fill_processor = some (process_fill processor);
  })

module _ {D : Type 0} ⦃d : Decimals D⦄ ⦃u : Uuids⦄ ⦃b : Wire⦄ ⦃t : TransitWire⦄ ⦃x : Pgx⦄ where
  unfoldable pub wire : Platform → Config → Option x.Pool → Service x.Pool D
  unfolding wire_processor wire_server new_redis_quotes_cache
  wire p cfg pool =
      let processor = wire_processor p cfg in
      record {
        pool = pool;
        quotes_cache = new_redis_quotes_cache (pos cfg.cache_fresh_ttl) (pos cfg.cache_stale_ttl);
        fill_processor = processor;
        server = wire_server cfg processor;
        http_addr = ":" ++ cfg.http_port;
        grpc_addr = ":" ++ cfg.grpc_port;
      }

  abbrev pub on_listen : Config → Service x.Pool D → Option Error → Started x.Pool D
  on_listen cfg service none = running service
  on_listen cfg service (some e) =
      fatal
        ("[PREGÃO_FATAL] Failed to listen on gRPC port " ++ cfg.grpc_port ++ ": " ++ error_text e)

  abbrev pub on_database : Platform → Config → Result (Option x.Pool) → Started x.Pool D
  on_database p cfg (err e) = fatal ("[PREGÃO_FATAL] Database migrations failed: " ++ error_text e)
  on_database p cfg (ok pool) = on_listen cfg (wire p cfg pool) (p.listen (":" ++ cfg.grpc_port))

  abbrev pub on_config : Platform → Outcome Config → Started x.Pool D
  on_config p (panicked m) = crashed m
  on_config p (returned cfg) = on_database p cfg (open_database p cfg)

  -- `main`, up to the listeners.
  unfoldable pub start : Platform → Started x.Pool D
  unfolding open_database wire
  start p = on_config p (load p.getenv)
