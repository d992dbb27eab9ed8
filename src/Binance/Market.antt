-- ===== src/Binance/Market.antt =====
-- internal/broker/binance/client.go: the book tickers, the symbols, the balances of an account, and
-- the client as an implementation of the broker interface.
use Prim.Native.String.{◌++◌}
use pregao.Prelude.{
  Bool, false, not, ◌==◌, String, Option, none, some, List, [], ◌∷◌, if◌then◌else◌, any,
}
use pregao.Prelude.Text.{◌=ₛ◌, to_upper, equal_fold}
use pregao.Prelude.Maps.{set_entry}
use pregao.Prelude.Int.{pos}
use pregao.Errors.{Sentinel, Result, ok, err, sentinel, other, and_then, relabel}
use pregao.Decimal.{Decimals}
use pregao.Vault.{PlaintextCredentials}
use pregao.Broker.{BookTicker, BrokerClient}
use pregao.Binance.Models.{RawBookTicker, ExchangeInfoSymbol, ExchangeInfoResponse, AccountBalance}
use pregao.Http.{Response}
use pregao.Binance.Wire.{Wire}
use pregao.Binance.Client.{
  Client, Signed, is_limited, new_request, signed_url, with_credentials, place_market_order,
}

-- `for _, s := range symbols { result[s] = f(s) }`
abbrev pub set_each : (String → Bool) → List String → List (String × Bool) → List (String × Bool)
set_each f [] m = m
set_each f (s ∷ ss) m = set_each f ss (set_entry s (f s) m)

-- The set `tradingSymbols`.
abbrev pub trading_symbols : List ExchangeInfoSymbol → List String
trading_symbols [] = []
trading_symbols (s ∷ ss) =
    let rest = trading_symbols ss in
    if equal_fold s.status "TRADING" then to_upper s.symbol ∷ rest else rest

-- Whether a symbol trades.
unfoldable pub is_trading : ExchangeInfoResponse → String → Bool
unfolding to_upper equal_fold
is_trading info s = any (λ t. t =ₛ to_upper s) (trading_symbols info.symbols)

module _ ⦃x : Wire⦄ where
  -- A GET without a signature, up to its response.
  abbrev pub get : Client → String → String → String → Result Response
  get c url making sending =
      and_then (new_request "GET" url none making) λ r. relabel sending (x.send c.http_client r)

  abbrev pub ticker_url : Client → List String → Result String
  ticker_url c (s ∷ []) = ok (c.base_url ++ "/api/v3/ticker/bookTicker?symbol=" ++ x.query_escape s)
  ticker_url c symbols =
      and_then (relabel "failed to encode symbols" (x.marshal_texts symbols))
        λ text. ok (c.base_url ++ "/api/v3/ticker/bookTicker?symbols=" ++ x.query_escape text)

  -- `ValidateSymbols` from the response on.
  abbrev pub read_exchange_info : List String → Response → Result (List (String × Bool))
  read_exchange_info symbols resp =
      if is_limited resp.status_code
      then err (sentinel Sentinel.rate_limited)
      else and_then (relabel "failed to decode exchangeInfo" (x.decode_exchange_info resp.body))
          λ info. ok (set_each (is_trading info) symbols (set_each (λ s. false) symbols []))

  -- `ValidateSymbols`
  unfoldable pub validate_symbols : Client → List String → Result (List (String × Bool))
  validate_symbols c [] = ok []
  validate_symbols c (s ∷ ss) =
      and_then
        (get c (c.base_url ++ "/api/v3/exchangeInfo") "failed to create exchangeInfo request"
          "binance exchangeInfo request failed")
        (read_exchange_info (s ∷ ss))

module _ {D : Type 0} ⦃d : Decimals D⦄ where
  abbrev pub set_tickers :
      List (BookTicker D) → List (String × BookTicker D) → List (String × BookTicker D)
  set_tickers [] m = m
  set_tickers (t ∷ ts) m = set_tickers ts (set_entry t.symbol t m)

  module _ ⦃x : Wire⦄ where
    abbrev pub price_field : String → RawBookTicker → String → Result D
    price_field name raw text =
        relabel ("invalid " ++ name ++ " " ++ x.quote text ++ " for " ++ raw.symbol) (d.parse text)

    -- `parseBookTicker`
    unfoldable pub parse_book_ticker : RawBookTicker → Result (BookTicker D)
    parse_book_ticker raw = and_then (price_field "bid price" raw raw.bid_price) λ bid_price.
        and_then (price_field "bid qty" raw raw.bid_qty) λ bid_qty.
          and_then (price_field "ask price" raw raw.ask_price) λ ask_price.
            and_then (price_field "ask qty" raw raw.ask_qty) λ ask_qty. ok (record {
              symbol = raw.symbol;
              bid_price = bid_price;
              bid_qty = bid_qty;
              ask_price = ask_price;
              ask_qty = ask_qty;
              mid_price = d.div (d.add bid_price ask_price) (d.of_int 2);
            })

    -- The tickers of a list that parse.
    abbrev pub parsed : List RawBookTicker → List (BookTicker D)
    parsed [] = []
    parsed (raw ∷ raws) =
        let rest = parsed raws in elim (parse_book_ticker raw) [ err e ↦ rest | ok t ↦ t ∷ rest ]

    -- The payload of `GetBookTickers`, of one symbol or of several.
    unfoldable pub read_tickers : List String → String → Result (List (String × BookTicker D))
    unfolding parse_book_ticker
    read_tickers (s ∷ []) body =
        and_then (relabel "failed to unmarshal single bookTicker" (x.read_book_ticker body))
          λ raw. and_then (parse_book_ticker raw) λ t. ok ((t.symbol, t) ∷ [])
    read_tickers _ body =
        and_then (relabel "failed to unmarshal bookTicker list" (x.read_book_tickers body))
          λ raws. ok (set_tickers (parsed raws) [])

    abbrev pub read_ticker_response : List String → Response → Result (List (String × BookTicker D))
    read_ticker_response symbols resp =
        if is_limited resp.status_code
        then err (sentinel Sentinel.rate_limited)
        else and_then (relabel "failed to read response body" resp.body) λ body.
          if not (resp.status_code == 200)
          then err (
              other (
                "binance bookTicker returned status "
                ++ x.format_int (pos resp.status_code)
                ++ ": "
                ++ body))
          else read_tickers symbols body

    -- `GetBookTickers`
    unfoldable pub get_book_tickers : Client → List String → Result (List (String × BookTicker D))
    get_book_tickers c [] = ok []
    get_book_tickers c (s ∷ ss) = and_then (ticker_url c (s ∷ ss)) λ url.
        and_then (get c url "failed to create http request" "binance bookTicker request failed")
          (read_ticker_response (s ∷ ss))

    -- The free balances that parse, by asset.
    abbrev pub set_balances : List AccountBalance → List (String × D) → List (String × D)
    set_balances [] m = m
    set_balances (b ∷ bs) m = elim (d.parse b.free) [
      | err e ↦ set_balances bs m
      | ok free ↦ set_balances bs (set_entry b.asset free m)
    ]

    unfoldable pub read_account_response : Response → Result (List (String × D))
    read_account_response resp =
        if is_limited resp.status_code
        then err (sentinel Sentinel.rate_limited)
        else and_then (relabel "failed to read account response" resp.body) λ body.
          if not (resp.status_code == 200)
          then err (
              other (
                "binance account returned status "
                ++ x.format_int (pos resp.status_code)
                ++ ": "
                ++ body))
          else and_then (relabel "failed to unmarshal account response" (x.read_account body))
              λ r. ok (set_balances r.balances [])

    -- `GetAccountBalances`
    unfoldable pub get_account_balances :
        Client → Option PlaintextCredentials → Signed (List (String × D))
    unfolding read_account_response
    get_account_balances c creds =
        with_credentials c creds "missing broker credentials for balance check"
          "binance account request failed"
          (λ cs.
            new_request "GET"
              (signed_url c cs "/api/v3/account" (
                ("timestamp", x.format_int x.unix_milli)
                ∷ ("recvWindow", x.format_int c.recv_window)
                ∷ []))
              cs.api_key "failed to create account request")
          read_account_response

    -- The client as the broker that the service calls.
    abbrev pub broker_client : Client → BrokerClient D
    broker_client c = record {
      get_book_tickers = get_book_tickers c;
      validate_symbols = validate_symbols c;
      place_market_order = λ creds req. (place_market_order c (some creds) req).answer;
      get_account_balances = λ creds. (get_account_balances c (some creds)).answer;
    }
