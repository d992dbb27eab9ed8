-- ===== src/Tests/Market.antt =====
-- Runs of the Binance client, and its theorems at such runs. The wire of the tests answers every
-- request with the payload of its endpoint.
use pregao.Prelude.{◌≡◌, refl, [], ◌∷◌, none, some, true, false, All}
use pregao.Prelude.Text.{◌=ₛ◌, to_upper, trim_space}
use pregao.Prelude.Int.{ℤ, pos, compare_ℤ, ◌*ℤ◌, ◌+ℤ◌, round_div}
use pregao.Errors.{ok, err, other, failed}
use pregao.Decimal.Whole.{whole, parse_ℤ, show_ℤ, digits}
use pregao.Vault.{PlaintextCredentials, arrays_of}
use pregao.Vault.Wiped.{Wiped}
use pregao.Broker.{MarketOrderRequest, OrderResult, BookTicker}
use pregao.Db.Models.{status_pending, status_partial}
use pregao.Binance.Models.{OrderResponse, ExchangeInfoResponse, ExchangeInfoSymbol, RawBookTicker}
use pregao.Http.{Response}
use pregao.Binance.Wire.{Wire, Request}
use pregao.Binance.Quantity.{
  step_size_text, step_places, get_default_step_size, truncate_to_step_size, map_order_status,
}
use pregao.Binance.Client.{
  Client, new_client, new_client_with_http_client, order_request, request_of, read_order_response,
  order_result, place_market_order,
}
use pregao.Binance.Market.{validate_symbols, get_book_tickers, read_tickers, parse_book_ticker}
use pregao.Binance.Symbols.{Answers, validate_symbols-Answers}
use pregao.Binance.Orders.{
  IsPlaceable, place_market_order-Wiped, place_market_order-sends, place_market_order-refuses,
}
use pregao.Binance.Tickers.{IsEntry, get_book_tickers-IsEntry}

abbrev partly_filled : OrderResponse
partly_filled = record {
  symbol = "DOGEUSDT";
  order_id = pos 42;
  client_order_id = "";
  transact_time = pos 1;
  price = "0";
  orig_qty = "7";
  executed_qty = "4";
  cummulative_quote_qty = "8";
  status = "PARTIALLY_FILLED";
  time_in_force = "GTC";
  type_ = "MARKET";
  side = "BUY";
  code = pos 0;
  msg = "";
}

abbrev doge : ExchangeInfoSymbol
doge = record {
  symbol = "DOGEUSDT";
  status = "TRADING";
  base_asset = "DOGE";
  quote_asset = "USDT";
  filters = [];
}

abbrev info : ExchangeInfoResponse
info = record { symbols = doge ∷ record doge { symbol = "OLDUSDT"; status = "BREAK" } ∷ [] }

abbrev raw_ticker : RawBookTicker
raw_ticker = record {
  symbol = "DOGEUSDT";
  bid_price = "2";
  bid_qty = "10";
  ask_price = "4";
  ask_qty = "10";
}

abbrev fine : Response
fine = record { status_code = 200; body = ok "{}" }

instance abbrev pub wire : Wire
wire = record {
  refuses = λ url. none;
  send = λ c r. ok fine;
  query_escape = λ s. s;
  encode = λ params. "query";
  marshal_texts = λ ts. ok "texts";
  read_book_ticker = λ body. ok raw_ticker;
  read_book_tickers = λ body. ok (raw_ticker ∷ record raw_ticker { bid_qty = "?" } ∷ []);
  decode_exchange_info = λ body. ok info;
  read_order = λ body. ok partly_filled;
  read_account = λ body. err (other "EOF");
  hmac_sha256 = λ secret payload. secret;
  hex = λ bs. "00";
  bytes_of = λ s. [];
  format_int = show_ℤ;
  quote = λ s. s;
  unix_milli = pos 1;
}

abbrev client : Client
client = record {
  base_url = "https://b";
  recv_window = pos 5000;
  http_client = record { timeout = pos 1 };
}

abbrev keys : PlaintextCredentials
keys = record { api_key = some (1 ∷ 2 ∷ []); api_secret = some (3 ∷ 4 ∷ []) }

abbrev market_order : MarketOrderRequest ℤ
market_order = record {
  symbol = "dogeusdt";
  side = "buy";
  quantity = pos 7;
  client_order_id = "intent-7";
}

abbrev placed : OrderResult ℤ
placed = record {
  provider_order_id = "42";
  status = status_partial;
  executed_quantity = pos 4;
  cumulative_quote_quantity = pos 8;
  average_price = pos 2;
}

test_new_client : new_client "https://b/" (pos 0) (pos 1) ≡ client
unfolding new_client new_client_with_http_client
test_new_client = refl

test_step_places : (step_places "0.00001" ≡ 5) × (step_places "1" ≡ 0) × (step_places "1.00" ≡ 2)
unfolding step_places
test_step_places = (refl, refl, refl)

order_placed : (place_market_order client (some keys) market_order).answer ≡ ok placed
unfolding place_market_order order_request request_of get_default_step_size truncate_to_step_size
    step_size_text step_places read_order_response order_result map_order_status compare_ℤ ◌*ℤ◌
    round_div parse_ℤ show_ℤ digits to_upper trim_space
order_placed = refl

place_market_order-sends_example :
    (request : Request) × ((place_market_order client (some keys) market_order).sent ≡ request ∷ [])
    × (order_request client keys market_order ≡ ok request)
    × IsPlaceable market_order
    × ((placed.status =ₛ status_pending) ≡ false)
place_market_order-sends_example =
    place_market_order-sends client keys market_order placed order_placed

place_market_order-Wiped_example :
    ((place_market_order client (some keys) market_order).credentials
      ≡ some (record { api_key = none; api_secret = none }))
    × Wiped (place_market_order client (some keys) market_order).arrays (arrays_of keys)
place_market_order-Wiped_example = place_market_order-Wiped client keys market_order refl

abbrev nothing : MarketOrderRequest ℤ
nothing = record market_order { quantity = pos 0 }

nothing-IsPlaceable : ¬ (IsPlaceable nothing)
unfolding compare_ℤ
nothing-IsPlaceable h = cc

place_market_order-refuses_example :
    (failed (place_market_order client (some keys) nothing).answer ≡ true)
    × ((place_market_order client (some keys) nothing).sent ≡ [])
place_market_order-refuses_example =
    place_market_order-refuses client keys nothing nothing-IsPlaceable

validate_symbols-Answers_example :
    (m : _) × (validate_symbols client ("dogeusdt" ∷ "OLDUSDT" ∷ []) ≡ ok m)
    × Answers info ("dogeusdt" ∷ "OLDUSDT" ∷ []) m
validate_symbols-Answers_example =
    validate_symbols-Answers client ("dogeusdt" ∷ "OLDUSDT" ∷ []) fine info refl refl refl refl

abbrev ticker : BookTicker ℤ
ticker = record {
  symbol = "DOGEUSDT";
  bid_price = pos 2;
  bid_qty = pos 10;
  ask_price = pos 4;
  ask_qty = pos 10;
  mid_price = pos 3;
}

tickers_read :
    get_book_tickers client ("DOGEUSDT" ∷ "BTCUSDT" ∷ []) ≡ ok (("DOGEUSDT", ticker) ∷ [])
unfolding get_book_tickers read_tickers parse_book_ticker parse_ℤ ◌+ℤ◌ round_div
tickers_read = refl

get_book_tickers-IsEntry_example : All IsEntry (("DOGEUSDT", ticker) ∷ [])
get_book_tickers-IsEntry_example =
    get_book_tickers-IsEntry client ("DOGEUSDT" ∷ "BTCUSDT" ∷ []) (("DOGEUSDT", ticker) ∷ [])
      tickers_read
