-- ===== src/Config/Complete.antt =====
-- The configuration is complete, or the first variable that misses is named.
use Prim.Native.Char.{code}
use pregao.Prelude.{
  Bool, true, false, ◌≡◌, refl, String, Option, none, some, List, [], ◌∷◌, find, if◌then◌else◌,
  ◌==◌,
}
use pregao.Prelude.Text.{◌=ₛ◌, trim_space, trim_right, to_upper}
use pregao.Broker.{parse_broker}
use pregao.Config.{Config, Outcome, returned, panicked, and_next, missing, require_env, load}

-- The variables that must not be blank.
abbrev pub required : List String
required =
    "PORT" ∷ "HTTP_PORT" ∷ "DATABASE_URL" ∷ "REDIS_ADDR" ∷ "OPENBAO_ADDR" ∷ "OPENBAO_TOKEN"
    ∷ "OPENBAO_TRANSIT_KEY" ∷ "BINANCE_BASE_URL" ∷ "LIVRO_GRPC_ADDR" ∷ "ATIVOS_GRPC_ADDR"
    ∷ "DEFAULT_BROKER" ∷ []

module _ (getenv : String → String) where
  abbrev pub is_blank : String → Bool
  is_blank key = trim_space (getenv key) =ₛ ""

  -- The configuration that an environment describes.
  abbrev pub config_of : Config
  config_of = record {
    grpc_port = trim_space (getenv "PORT");
    http_port = trim_space (getenv "HTTP_PORT");
    database_url = trim_space (getenv "DATABASE_URL");
    redis_addr = trim_space (getenv "REDIS_ADDR");
    redis_password = trim_space (getenv "REDIS_PASSWORD");
    redis_db = 0;
    openbao_addr = trim_space (getenv "OPENBAO_ADDR");
    openbao_token = trim_space (getenv "OPENBAO_TOKEN");
    openbao_transit_key = trim_space (getenv "OPENBAO_TRANSIT_KEY");
    binance_base_url = trim_right (λ c. code c == b'/') (trim_space (getenv "BINANCE_BASE_URL"));
    livro_grpc_addr = trim_space (getenv "LIVRO_GRPC_ADDR");
    ativos_grpc_addr = trim_space (getenv "ATIVOS_GRPC_ADDR");
    default_broker = parse_broker (to_upper (trim_space (getenv "DEFAULT_BROKER")));
    cache_fresh_ttl = 5_000_000_000;
    cache_stale_ttl = 86_400_000_000_000;
    binance_recv_window = 5000;
    binance_http_timeout = 10_000_000_000;
  }

  abbrev pub told : Config → Option String → Outcome Config
  told c none = returned c
  told c (some key) = panicked (missing key)

  -- The reading of some variables names the first that is blank.
  Tells : Outcome Config → List String → Type 0
  Tells m keys = m ≡ told config_of (find is_blank keys)

  next_required :
      (key : String) (keys : List String) (f : String → Outcome Config)
      → Tells (f (trim_space (getenv key))) keys
      → Tells (and_next (require_env getenv key) f) (key ∷ keys)
  unfolding Tells require_env
  next_required key keys f h = go (is_blank key)
    where
      go :
          (b : Bool)
          → and_next (if b then panicked (missing key) else returned (trim_space (getenv key))) f
            ≡ told config_of (if b then some key else find is_blank keys)
      go true = refl
      go false = h

  all_read : Tells (returned config_of) []
  unfolding Tells
  all_read = refl

  load-Tells : Tells (load getenv) required
  unfolding load
  load-Tells = next_required "PORT" _ _ (
      next_required "HTTP_PORT" _ _ (
        next_required "DATABASE_URL" _ _ (
          next_required "REDIS_ADDR" _ _ (
            next_required "OPENBAO_ADDR" _ _ (
              next_required "OPENBAO_TOKEN" _ _ (
                next_required "OPENBAO_TRANSIT_KEY" _ _ (
                  next_required "BINANCE_BASE_URL" _ _ (
                    next_required "LIVRO_GRPC_ADDR" _ _ (
                      next_required "ATIVOS_GRPC_ADDR" _ _
                        (next_required "DEFAULT_BROKER" _ _ all_read))))))))))

  -- Load panics exactly when a required variable is blank, with a message that names the first such
  -- variable in the order of the fields; else it returns the configuration whose texts are the
  -- trimmed variables, the base URL without slashes at its end, and the broker by its name in any
  -- case.
  pub load-first_missing : load getenv ≡ told config_of (find is_blank required)
  unfolding Tells
  load-first_missing = load-Tells
