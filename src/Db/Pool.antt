-- ===== src/Db/Pool.antt =====
-- internal/db/db.go: the pool of connections, and the migrations. pgx is a parameter.
use pregao.Prelude.{String, Option, none, some, List, [], ◌∷◌}
use pregao.Errors.{Error, Result, ok, err, wrap}

pub record Pgx : Type 1 where
  pub PoolConfig : Type 0
  pub Pool : Type 0
  pub parse_config : String → Result PoolConfig
  pub new_with_config : PoolConfig → Result Pool
  pub ping : Pool → Option Error
  pub exec : Pool → String → Option Error

module _ ⦃x : Pgx⦄ where
  abbrev pub pinged : x.Pool → Option Error → Result x.Pool × List x.Pool
  pinged pool none = (ok pool, [])
  pinged pool (some e) = (err (wrap "failed to ping database" e), pool ∷ [])

  abbrev pub created : Result x.Pool → Result x.Pool × List x.Pool
  created (err e) = (err (wrap "failed to create pgxpool" e), [])
  created (ok pool) = pinged pool (x.ping pool)

  abbrev pub configured : Result x.PoolConfig → Result x.Pool × List x.Pool
  configured (err e) = (err (wrap "failed to parse database URL" e), [])
  configured (ok config) = created (x.new_with_config config)

  -- `NewPool`, with the pools that it closed.
  unfoldable pub new_pool : String → Result x.Pool × List x.Pool
  new_pool url = configured (x.parse_config url)

  abbrev pub migrated : Option Error → Result (Unit {0})
  migrated none = ok tt
  migrated (some e) = err (wrap "failed to execute schema migration" e)

  -- `RunMigrations`, of the schema that the build embeds.
  unfoldable pub run_migrations : String → x.Pool → Result (Unit {0})
  run_migrations schema pool = migrated (x.exec pool schema)
