-- ===== src/Startup/Stopping.antt =====
-- cmd/server/main.go as a whole: what main opens and defers, what it serves, and what it does after
-- the signal. Shutting a server down is net/http's and gRPC's, a parameter.
use Prim.Native.String.{◌++◌}
use pregao.Prelude.{ℕ, ◌+◌, String, Option, none, some, List, [], ◌∷◌, ◌++◌ as append, map}
use pregao.Errors.{Error, Result, ok, err, error_text}
use pregao.Decimal.{Decimals}
use pregao.Config.{Config, Outcome, returned, panicked, load}
use pregao.Db.Pool.{Pgx, new_pool, run_migrations}
use pregao.Startup.{Platform, wire_processor}

-- What main closes by a deferred call.
pub data Resource (P : Type 0) : Type 0 where
  background : Resource P
  pool : P → Resource P
  redis : Resource P
  livro : Resource P
  ativos : Resource P
  shutdown : Resource P

pub data Effect (P : Type 0) : Type 0 where
  opens : Resource P → Effect P
  closes : Resource P → Effect P
  -- The HTTP server listens, or its listening fails, which is only logged.
  serves_http : Effect P
  refuses_http : Error → Effect P
  serves_grpc : Effect P
  -- `GracefulStop`, called at a time.
  stops_grpc : ℕ → Effect P
  -- `Shutdown`, of a context with a deadline, called at a time: the server takes no more requests.
  stops_http : ℕ → ℕ → Effect P
  -- A panic outside of every deferred call, or `log.Fatalf`, which runs none.
  exits : String → Effect P

-- Go's stack of deferred calls, the newest first.
abbrev pub deferred {ℓ} : {A : Type ℓ} → List A → List A → List A
deferred calls [] = calls
deferred calls (r ∷ rs) = deferred (r ∷ calls) rs

-- A resource that is there when the value is.
abbrev pub when_some {ℓ} : {A : Type ℓ} {P : Type 0} → Option A → Resource P → List (Resource P)
when_some none r = []
when_some (some a) r = r ∷ []

-- `5*time.Second`
abbrev pub shutdown_timeout : ℕ
shutdown_timeout = 5_000_000_000

-- Step 8, from the signal on. `graceful` says when a GracefulStop that is called at a time returns.
unfoldable pub stop : {P : Type 0} → (ℕ → ℕ) → ℕ → List (Resource P) → List (Effect P)
stop graceful quit calls =
    opens shutdown
    ∷ stops_grpc quit
    ∷ stops_http (quit + shutdown_timeout) (graceful quit)
    ∷ closes shutdown
    ∷ map closes calls

-- Step 6: the HTTP server, in its goroutine.
abbrev pub listen_http : {P : Type 0} → Option Error → Effect P
listen_http none = serves_http
listen_http (some e) = refuses_http e

-- Step 7: the listener, and what follows when there is one.
abbrev pub serve_grpc :
    {P : Type 0} → String → (ℕ → ℕ) → ℕ → List (Resource P) → Option Error → List (Effect P)
serve_grpc port graceful quit calls none = serves_grpc ∷ stop graceful quit calls
serve_grpc port graceful quit calls (some e) =
    exits ("[PREGÃO_FATAL] Failed to listen on gRPC port " ++ port ++ ": " ++ error_text e) ∷ []

module _ (D : Type 0) ⦃d : Decimals D⦄ ⦃x : Pgx⦄ where
  -- Steps 2 to 5: what is opened after the database, in order.
  unfoldable pub clients : Platform → Config → List (Resource x.Pool)
  unfolding wire_processor
  clients p cfg =
      let processor = wire_processor {D = D} p cfg in
      redis
      ∷ append (when_some processor.livro_client livro) (when_some processor.ativos_client ativos)

  -- From step 2 on, with the calls that are deferred already.
  unfoldable pub serve :
      Platform → (ℕ → ℕ) → ℕ → Config → List (Resource x.Pool) → List (Effect x.Pool)
  unfolding clients
  serve p graceful quit cfg calls = append (map opens (clients p cfg)) (
      listen_http (p.listen (":" ++ cfg.http_port))
      ∷ serve_grpc cfg.grpc_port graceful quit (deferred calls (clients p cfg))
          (p.listen (":" ++ cfg.grpc_port)))

  abbrev pub on_migrated :
      Platform → (ℕ → ℕ) → ℕ → Config → x.Pool → Result (Unit {0}) → List (Effect x.Pool)
  on_migrated p graceful quit cfg db (err e) =
      exits ("[PREGÃO_FATAL] Database migrations failed: " ++ error_text e) ∷ []
  on_migrated p graceful quit cfg db (ok _) = serve p graceful quit cfg (pool db ∷ background ∷ [])

  -- Step 1.
  abbrev pub on_pool : Platform → (ℕ → ℕ) → ℕ → Config → Result x.Pool → List (Effect x.Pool)
  on_pool p graceful quit cfg (err e) = serve p graceful quit cfg (background ∷ [])
  on_pool p graceful quit cfg (ok db) =
      opens (pool db) ∷ on_migrated p graceful quit cfg db (run_migrations p.schema db)

  abbrev pub on_load : Platform → (ℕ → ℕ) → ℕ → Outcome Config → List (Effect x.Pool)
  on_load p graceful quit (panicked m) = exits m ∷ []
  on_load p graceful quit (returned cfg) =
      opens background ∷ on_pool p graceful quit cfg (new_pool cfg.database_url).0

  -- `main`, with the signal at the time `quit`.
  unfoldable pub main : Platform → (ℕ → ℕ) → ℕ → List (Effect x.Pool)
  unfolding serve
  main p graceful quit = on_load p graceful quit (load p.getenv)
