-- ===== src/Broker.antt =====
-- internal/broker: the broker interface, its data, and the names of the brokers.
use pregao.Prelude.{Bool, String, List, if◌then◌else◌}
use pregao.Prelude.Text.{◌=ₛ◌}
use pregao.Errors.{Result}
use pregao.Vault.{PlaintextCredentials}

pub record BookTicker (D : Type 0) : Type 0 where
  pub symbol : String
  pub bid_price : D
  pub bid_qty : D
  pub ask_price : D
  pub ask_qty : D
  pub mid_price : D

pub record MarketOrderRequest (D : Type 0) : Type 0 where
  pub symbol : String
  pub side : String
  pub quantity : D
  pub client_order_id : String

pub record OrderResult (D : Type 0) : Type 0 where
  pub provider_order_id : String
  pub status : String
  pub executed_quantity : D
  pub cumulative_quote_quantity : D
  pub average_price : D

-- The interface Broker, as the service uses it. A Go map is a list of entries, each key once.
pub record BrokerClient (D : Type 0) : Type 0 where
  pub get_book_tickers : List String → Result (List (String × BookTicker D))
  pub validate_symbols : List String → Result (List (String × Bool))
  pub place_market_order : PlaintextCredentials → MarketOrderRequest D → Result (OrderResult D)
  pub get_account_balances : PlaintextCredentials → Result (List (String × D))

-- `ativosv1.Broker`
pub data BrokerName : Type 0 where
  unspecified binance : BrokerName

-- `ProviderName`
unfoldable pub provider_name : BrokerName → String
provider_name binance = "BINANCE"
provider_name _ = "BINANCE"

-- `ParseBroker`
unfoldable pub parse_broker : String → BrokerName
parse_broker provider = if provider =ₛ "BINANCE" then binance else unspecified

-- `DefaultBroker`
abbrev pub default_broker : BrokerName
default_broker = binance
