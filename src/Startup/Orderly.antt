-- ===== src/Startup/Orderly.antt =====
-- main opens and closes in order: what is closed was opened last and is still open, and nothing is
-- closed while a server takes requests.
use Prim.Native.String.{◌++◌}
use pregao.Prelude.{
  ℕ, Bool, true, false, ◌≡◌, refl, ◌∙◌, String, Option, none, some, List, [], ◌∷◌, ◌++◌ as append,
  map, inl, inr,
}
use pregao.Errors.{Error, Result, ok, err, Result-cases}
use pregao.Decimal.{Decimals}
use pregao.Uuid.{Uuids}
use pregao.Binance.Wire.{Wire}
use pregao.Config.{Config, Outcome, returned, panicked, load}
use pregao.Db.Pool.{Pgx, new_pool, run_migrations}
use pregao.Startup.{
  Platform, Service, Started, running, fatal, crashed, open_database, wire, on_config, on_database,
  on_listen, start,
}
use pregao.Startup.Stopping.{
  Resource, background, pool, Effect, opens, closes, serves_http, refuses_http, listen_http,
  serves_grpc, stops_grpc, stops_http, exits, deferred, stop, serve_grpc, clients, serve,
  on_migrated, on_pool, on_load, main,
}
use pregao.Vault.Transit.{TransitWire}

-- From a state, the resources that are open and whether the two servers take requests, the effects
-- keep the order, and they end with an exit or with nothing open and no server that takes requests.
-- Requests that a server took before may still run.
abbrev pub IsOrderly : {P : Type 0} → List (Resource P) → Bool → Bool → List (Effect P) → Type 0
IsOrderly held http grpc [] = (held ≡ []) × (http ≡ false) × (grpc ≡ false)
IsOrderly held http grpc (opens r ∷ es) = IsOrderly (r ∷ held) http grpc es
IsOrderly [] http grpc (closes r ∷ es) = ⊥
IsOrderly (s ∷ held) http grpc (closes r ∷ es) =
    (s ≡ r) × (http ≡ false) × (grpc ≡ false) × IsOrderly held http grpc es
IsOrderly held http grpc (serves_http ∷ es) = (http ≡ false) × IsOrderly held true grpc es
IsOrderly held http grpc (refuses_http e ∷ es) = (http ≡ false) × IsOrderly held false grpc es
IsOrderly held http grpc (serves_grpc ∷ es) = (grpc ≡ false) × IsOrderly held http true es
IsOrderly held http grpc (stops_grpc t ∷ es) = (grpc ≡ true) × IsOrderly held http false es
IsOrderly held http grpc (stops_http l t ∷ es) = (grpc ≡ false) × IsOrderly held false grpc es
IsOrderly held http grpc (exits m ∷ es) = es ≡ []

-- The message with which the process exits before the signal.
abbrev pub exit_message : {P : Type 0} → List (Effect P) → Option String
exit_message [] = none
exit_message (exits m ∷ es) = some m
exit_message (e ∷ es) = exit_message es

module _ {P : Type 0} where
  opens-IsOrderly :
      (rs held : List (Resource P)) (http grpc : Bool) (es : List (Effect P))
      → IsOrderly (deferred held rs) http grpc es
      → IsOrderly held http grpc (append (map opens rs) es)
  opens-IsOrderly [] held http grpc es h = h
  opens-IsOrderly (r ∷ rs) held http grpc es h = opens-IsOrderly rs (r ∷ held) http grpc es h

  closes-IsOrderly : (held : List (Resource P)) → IsOrderly held false false (map closes held)
  closes-IsOrderly [] = (refl, refl, refl)
  closes-IsOrderly (r ∷ held) = (refl, refl, refl, closes-IsOrderly held)

  stop-IsOrderly :
      (graceful : ℕ → ℕ) (quit : ℕ) (http : Bool) (held : List (Resource P))
      → IsOrderly held http true (stop graceful quit held)
  unfolding stop
  stop-IsOrderly graceful quit http held = (refl, (refl, (refl, refl, refl, closes-IsOrderly held)))

  serve_grpc-IsOrderly :
      (port : String) (graceful : ℕ → ℕ) (quit : ℕ) (http : Bool) (held : List (Resource P))
      (o : Option Error)
      → IsOrderly held http false (serve_grpc port graceful quit held o)
  serve_grpc-IsOrderly port graceful quit http held none =
      (refl, stop-IsOrderly graceful quit http held)
  serve_grpc-IsOrderly port graceful quit http held (some e) = refl

  listen_http-IsOrderly :
      (held : List (Resource P)) (o : Option Error) (es : List (Effect P))
      → ((http : Bool) → IsOrderly held http false es)
      → IsOrderly held false false (listen_http o ∷ es)
  listen_http-IsOrderly held none es h = (refl, h true)
  listen_http-IsOrderly held (some e) es h = (refl, h false)

module _ (D : Type 0) ⦃d : Decimals D⦄ ⦃x : Pgx⦄ (p : Platform) (graceful : ℕ → ℕ) (quit : ℕ) where
  serve-IsOrderly :
      (cfg : Config) (held : List (Resource x.Pool))
      → IsOrderly held false false (serve D p graceful quit cfg held)
  unfolding serve
  serve-IsOrderly cfg held = opens-IsOrderly (clients D p cfg) held false false _ (
      listen_http-IsOrderly (deferred held (clients D p cfg)) (p.listen (":" ++ cfg.http_port)) _
        λ http.
          serve_grpc-IsOrderly cfg.grpc_port graceful quit http (deferred held (clients D p cfg))
            (p.listen (":" ++ cfg.grpc_port)))

  on_migrated-IsOrderly :
      (cfg : Config) (db : x.Pool) (r : Result (Unit {0}))
      → IsOrderly (pool db ∷ background ∷ []) false false (on_migrated D p graceful quit cfg db r)
  on_migrated-IsOrderly cfg db (err e) = refl
  on_migrated-IsOrderly cfg db (ok _) = serve-IsOrderly cfg (pool db ∷ background ∷ [])

  on_pool-IsOrderly :
      (cfg : Config) (r : Result x.Pool)
      → IsOrderly (background ∷ []) false false (on_pool D p graceful quit cfg r)
  on_pool-IsOrderly cfg (err e) = serve-IsOrderly cfg (background ∷ [])
  on_pool-IsOrderly cfg (ok db) = on_migrated-IsOrderly cfg db (run_migrations p.schema db)

  on_load-IsOrderly : (o : Outcome Config) → IsOrderly [] false false (on_load D p graceful quit o)
  on_load-IsOrderly (panicked m) = refl
  on_load-IsOrderly (returned cfg) = on_pool-IsOrderly cfg (new_pool cfg.database_url).0

module _ {P : Type 0} where
  exit_message-opens :
      (rs : List (Resource P)) (es : List (Effect P))
      → exit_message (append (map opens rs) es) ≡ exit_message es
  exit_message-opens [] es = refl
  exit_message-opens (r ∷ rs) es = exit_message-opens rs es

  exit_message-listen_http :
      (o : Option Error) (es : List (Effect P))
      → exit_message (listen_http o ∷ es) ≡ exit_message es
  exit_message-listen_http none es = refl
  exit_message-listen_http (some e) es = refl

  exit_message-closes : (held : List (Resource P)) → exit_message (map closes held) ≡ none
  exit_message-closes [] = refl
  exit_message-closes (r ∷ held) = exit_message-closes held

  -- The message with which the start ends, if it does not leave a service running.
  abbrev pub start_message : {D : Type 0} → Started P D → Option String
  start_message (running s) = none
  start_message (fatal m) = some m
  start_message (crashed m) = some m

module _ (D : Type 0) ⦃d : Decimals D⦄ ⦃u : Uuids⦄ ⦃b : Wire⦄ ⦃t : TransitWire⦄ ⦃x : Pgx⦄
    (p : Platform) (graceful : ℕ → ℕ) (quit : ℕ) where
  serve_grpc-message :
      (cfg : Config) (s : Service x.Pool D) (held : List (Resource x.Pool)) (o : Option Error)
      → exit_message (serve_grpc cfg.grpc_port graceful quit held o)
        ≡ start_message (on_listen cfg s o)
  unfolding stop
  serve_grpc-message cfg s held none = exit_message-closes held
  serve_grpc-message cfg s held (some e) = refl

  serve-message :
      (cfg : Config) (s : Service x.Pool D) (held : List (Resource x.Pool))
      → exit_message (serve D p graceful quit cfg held)
        ≡ start_message (on_listen cfg s (p.listen (":" ++ cfg.grpc_port)))
  unfolding serve
  serve-message cfg s held =
      exit_message-opens (clients D p cfg) _
      ∙ exit_message-listen_http (p.listen (":" ++ cfg.http_port)) _
      ∙ serve_grpc-message cfg s (deferred held (clients D p cfg)) (p.listen (":" ++ cfg.grpc_port))

  on_pool-message :
      (cfg : Config) (r : Result x.Pool)
      → (new_pool cfg.database_url).0 ≡ r
      → exit_message (on_pool D p graceful quit cfg r)
        ≡ start_message (on_database {D = D} p cfg (open_database p cfg))
  unfolding open_database
  on_pool-message cfg (err e) h =
      rw (h, open_database) (serve-message cfg (wire p cfg none) (background ∷ []))
  on_pool-message cfg (ok db) h = elim (Result-cases (run_migrations p.schema db)) [
    | inl (done, migrated) ↦
        rw (h, open_database)
          (rw migrated (serve-message cfg (wire p cfg (some db)) (pool db ∷ background ∷ [])))
    | inr (e, refused) ↦ rw (h, open_database) (rw refused refl)
  ]

  on_load-message :
      (o : Outcome Config)
      → exit_message (on_load D p graceful quit o) ≡ start_message (on_config {D = D} p o)
  on_load-message (panicked m) = refl
  on_load-message (returned cfg) = on_pool-message cfg (new_pool cfg.database_url).0 refl

  -- Whatever the environment and the database answer, and whether the dialling and the two
  -- listeners succeed or fail, main keeps an order: each resource that it closes is the one opened
  -- last of those that are open, none is closed while one of the servers takes requests, and the
  -- HTTP server is told to stop only after the gRPC server has stopped. main ends by an exit, or
  -- with nothing open and no server that takes requests. It exits before the signal exactly when
  -- the start leaves no service running, and with its message.
  pub main-IsOrderly :
      IsOrderly [] false false (main D p graceful quit)
      × (exit_message (main D p graceful quit) ≡ start_message (start {D = D} p))
  unfolding main start
  main-IsOrderly =
      (on_load-IsOrderly D p graceful quit (load p.getenv), on_load-message (load p.getenv))
