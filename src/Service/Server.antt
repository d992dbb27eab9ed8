-- ===== src/Service/Server.antt =====
-- The struct PregaoServer, the requests and responses of the service, and the choice of a broker.
use pregao.Prelude.{ℕ, String, Option}
use pregao.Prelude.Text.{to_upper, trim_space}
use pregao.Errors.{Result}
use pregao.Broker.{BrokerClient, BrokerName, unspecified, binance, parse_broker, provider_name}
use pregao.Broker
use pregao.Client.Livro.{LivroClient}
use pregao.Vault.{TransitClient}
use pregao.Worker.{FillEvent}
use pregao.World.{World}

-- The repositories are the world's. The quotes cache is left out: only GetQuotes reads it. A nil
-- dependency is `none`. Durations are in nanoseconds.
pub record PregaoServer (D : Type 0) : Type 0 where
  pub default_broker : BrokerName
  pub broker_client : BrokerClient D
  pub vault_client : TransitClient
  pub livro_client : Option (LivroClient D)
  pub fill_processor : Option (FillEvent D → World D → Result (Unit {0}) × World D)
  pub reservation_wait : ℕ
  pub reservation_poll : ℕ

-- `defaultReservationWait` and `defaultReservationPoll`
abbrev pub default_reservation_wait : ℕ
default_reservation_wait = 30_000_000_000

abbrev pub default_reservation_poll : ℕ
default_reservation_poll = 100_000_000

-- The fields of ServerParams that the server takes over.
pub record ServerParams (D : Type 0) : Type 0 where
  pub default_broker : BrokerName
  pub broker_client : BrokerClient D
  pub vault_client : TransitClient
  pub livro_client : Option (LivroClient D)
  pub fill_processor : Option (FillEvent D → World D → Result (Unit {0}) × World D)

abbrev or_default : BrokerName → BrokerName → BrokerName
or_default unspecified b = b
or_default binance b = binance

module _ {D : Type 0} where
  -- `NewPregaoServer`
  unfoldable pub new_pregao_server : ServerParams D → PregaoServer D
  new_pregao_server params = record {
    default_broker = or_default params.default_broker Broker.default_broker;
    broker_client = params.broker_client;
    vault_client = params.vault_client;
    livro_client = params.livro_client;
    fill_processor = params.fill_processor;
    reservation_wait = default_reservation_wait;
    reservation_poll = default_reservation_poll;
  }

  -- The provider of a request: the wire string, or the server's default.
  unfoldable pub resolve_provider : PregaoServer D → String → String
  resolve_provider s wire =
      provider_name (or_default (parse_broker (to_upper (trim_space wire))) s.default_broker)

-- `pregaov1.ExecuteTradeRequest_Side`; `side_unspecified` is every other value.
pub data TradeSide : Type 0 where
  buy sell side_unspecified : TradeSide

pub record ExecuteTradeRequest : Type 0 where
  pub trade_intent_id : String
  pub tenant_id : String
  pub user_id : String
  pub provider : String
  pub symbol : String
  pub side : TradeSide
  pub quantity : String
  pub idempotency_key : String
  pub portfolio_id : String
  pub livro_hold_id : String

pub record ExecuteTradeResponse : Type 0 where
  pub provider_order_id : String
  pub status : String
