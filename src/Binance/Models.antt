-- ===== src/Binance/Models.antt =====
-- internal/broker/binance/models.go: the payloads of the Binance endpoints.
use pregao.Prelude.{Bool, String, List}
use pregao.Prelude.Int.{ℤ}

pub record RawBookTicker : Type 0 where
  pub symbol : String
  pub bid_price : String
  pub bid_qty : String
  pub ask_price : String
  pub ask_qty : String

pub record ExchangeInfoFilter : Type 0 where
  pub filter_type : String
  pub min_qty : String
  pub max_qty : String
  pub step_size : String
  pub min_notional : String

pub record ExchangeInfoSymbol : Type 0 where
  pub symbol : String
  pub status : String
  pub base_asset : String
  pub quote_asset : String
  pub filters : List ExchangeInfoFilter

pub record ExchangeInfoResponse : Type 0 where
  pub symbols : List ExchangeInfoSymbol

pub record OrderResponse : Type 0 where
  pub symbol : String
  pub order_id : ℤ
  pub client_order_id : String
  pub transact_time : ℤ
  pub price : String
  pub orig_qty : String
  pub executed_qty : String
  pub cummulative_quote_qty : String
  pub status : String
  pub time_in_force : String
  pub type_ : String
  pub side : String
  pub code : ℤ
  pub msg : String

pub record AccountBalance : Type 0 where
  pub asset : String
  pub free : String
  pub locked : String

pub record AccountResponse : Type 0 where
  pub maker_commission : ℤ
  pub taker_commission : ℤ
  pub buyer_commission : ℤ
  pub seller_commission : ℤ
  pub can_trade : Bool
  pub can_withdraw : Bool
  pub can_deposit : Bool
  pub update_time : ℤ
  pub account_type : String
  pub balances : List AccountBalance
  pub code : ℤ
  pub msg : String
