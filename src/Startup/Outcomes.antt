-- ===== src/Startup/Outcomes.antt =====
-- When the service starts, and what it then runs with.
use Prim.Native.String.{◌++◌}
use pregao.Prelude.{
  true, ◌≡◌, refl, sym, ap, subst, ◌⊎◌, inl, inr, String, Option, none, some, find,
}
use pregao.Errors.{Error, Result, ok, err, failed, and_then}
use pregao.Decimal.{Decimals}
use pregao.Uuid.{Uuids}
use pregao.Binance.Wire.{Wire}
use pregao.Config.{Config, missing}
use pregao.Config.Complete.{required, is_blank, config_of, told, load-first_missing}
use pregao.Db.Pool.{Pgx, new_pool, migrated, run_migrations}
use pregao.Startup.{
  Platform, Started, running, fatal, crashed, open_database, wire, on_listen, on_database,
  on_config, start,
}
use pregao.Vault.Transit.{TransitWire}
use pregao.Worker.{process_fill}

module _ ⦃x : Pgx⦄ where
  -- The database is reached, but refuses the schema.
  abbrev pub Refuses : Platform → Config → Type 0
  Refuses p cfg =
      (pool : x.Pool) × (e : Error) × ((new_pool cfg.database_url).0 ≡ ok pool)
      × (x.exec pool p.schema ≡ some e)

  -- A service has no pool when the database is not reached, else one with the schema.
  abbrev pub Pooled : Platform → Config → Option x.Pool → Type 0
  Pooled p cfg none = failed (new_pool cfg.database_url).0 ≡ true
  Pooled p cfg (some pool) =
      ((new_pool cfg.database_url).0 ≡ ok pool) × (x.exec pool p.schema ≡ none)

  abbrev Opened : Platform → Config → Result (Option x.Pool) → Type 0
  Opened p cfg (err e) = Refuses p cfg
  Opened p cfg (ok pool) = Pooled p cfg pool

  open_database-Opened : (p : Platform) (cfg : Config) → Opened p cfg (open_database p cfg)
  unfolding open_database run_migrations
  open_database-Opened p cfg = go (new_pool cfg.database_url).0 refl
    where
      schema :
          (pool : x.Pool) (o : Option Error)
          → (new_pool cfg.database_url).0 ≡ ok pool
          → x.exec pool p.schema ≡ o
          → Opened p cfg (and_then (migrated o) λ done. ok (some pool))
      schema pool none reached applied = (reached, applied)
      schema pool (some e) reached applied = (pool, e, reached, applied)

      go :
          (r : Result x.Pool)
          → (new_pool cfg.database_url).0 ≡ r
          → Opened p cfg (elim r as (λ _. Result (Option x.Pool)) [
            | err e ↦ ok none
            | ok pool ↦ and_then (run_migrations p.schema pool) λ done. ok (some pool)
          ])
      go (err e) h = ap failed h
      go (ok pool) h = schema pool (x.exec pool p.schema) h refl

module _ {D : Type 0} ⦃d : Decimals D⦄ ⦃u : Uuids⦄ ⦃b : Wire⦄ ⦃t : TransitWire⦄ ⦃x : Pgx⦄ where
  -- What the start ends with, and why.
  abbrev pub Explained : Platform → Started x.Pool D → Type 0
  Explained p (crashed m) =
      (key : String) × (find (is_blank p.getenv) required ≡ some key) × (m ≡ missing key)
  Explained p (fatal m) =
      (find (is_blank p.getenv) required ≡ none)
      × (Refuses p (config_of p.getenv)
          ⊎ ((e : Error) × (p.listen (":" ++ (config_of p.getenv).grpc_port) ≡ some e)))
  Explained p (running s) =
      (find (is_blank p.getenv) required ≡ none)
      × Pooled p (config_of p.getenv) s.pool
      × (s.grpc_addr ≡ ":" ++ (config_of p.getenv).grpc_port)
      × (p.listen s.grpc_addr ≡ none)
      × (s.server.livro_client ≡ s.fill_processor.livro_client)
      × (s.server.fill_processor ≡ some (process_fill s.fill_processor))

module _ (D : Type 0) ⦃d : Decimals D⦄ ⦃u : Uuids⦄ ⦃b : Wire⦄ ⦃t : TransitWire⦄ ⦃x : Pgx⦄ where
  on_listen-Explained :
      (p : Platform) (pool : Option x.Pool) (o : Option Error)
      → find (is_blank p.getenv) required ≡ none
      → Pooled p (config_of p.getenv) pool
      → p.listen (":" ++ (config_of p.getenv).grpc_port) ≡ o
      → Explained p (on_listen (config_of p.getenv) (wire {D = D} p (config_of p.getenv) pool) o)
  unfolding wire
  on_listen-Explained p pool none full pooled free = (full, pooled, refl, free, refl, refl)
  on_listen-Explained p pool (some e) full pooled taken = (full, inr (e, taken))

  on_database-Explained :
      (p : Platform) (r : Result (Option x.Pool))
      → find (is_blank p.getenv) required ≡ none
      → Opened p (config_of p.getenv) r
      → Explained p (on_database {D = D} p (config_of p.getenv) r)
  on_database-Explained p (err e) full refuses = (full, inl refuses)
  on_database-Explained p (ok pool) full pooled =
      on_listen-Explained p pool (p.listen (":" ++ (config_of p.getenv).grpc_port)) full pooled refl

  on_config-Explained :
      (p : Platform) (o : Option String)
      → find (is_blank p.getenv) required ≡ o
      → Explained p (on_config {D = D} p (told p.getenv (config_of p.getenv) o))
  on_config-Explained p none full =
      on_database-Explained p (open_database p (config_of p.getenv)) full
        (open_database-Opened p (config_of p.getenv))
  on_config-Explained p (some key) blank = (key, blank, refl)

  -- The start ends in one of three ways. It crashes on the first required variable that is blank.
  -- With all of them there it is fatal that a database that is reached refuses the schema, or that
  -- the gRPC port cannot be listened on. Else a service runs, listening on that port: without a
  -- pool when the database is not reached, else with the pool that took the schema, and its server
  -- works with the ledger client of its fill processor and hands fills to that processor.
  pub start-Explained : (p : Platform) → Explained p (start {D = D} p)
  unfolding start
  start-Explained p =
      subst (λ c. Explained p (on_config {D = D} p c)) (sym (load-first_missing p.getenv))
        (on_config-Explained p (find (is_blank p.getenv) required) refl)
