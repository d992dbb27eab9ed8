-- ===== src/Binance/Wire.antt =====
-- What internal/broker/binance/client.go takes from Go's libraries: HTTP, JSON, query strings, the
-- keyed hash, and the clock.
use pregao.Prelude.{String, Option, List}
use pregao.Prelude.Int.{ℤ}
use pregao.Errors.{Error, Result}
use pregao.Http.{HttpClient, Response}
use pregao.Vault.{Bytes}
use pregao.Binance.Models.{RawBookTicker, ExchangeInfoResponse, OrderResponse, AccountResponse}

-- The parts of `http.Request` that the client sets.
pub record Request : Type 0 where
  pub method : String
  pub url : String
  pub api_key : Option Bytes

pub record Wire : Type 0 where
  -- The error of `http.NewRequestWithContext` on a URL.
  pub refuses : String → Option Error
  -- `Client.Do`
  pub send : HttpClient → Request → Result Response
  pub query_escape : String → String
  -- `url.Values.Encode`
  pub encode : List (String × String) → String
  -- `json.Marshal` of a list of texts.
  pub marshal_texts : List String → Result String
  pub read_book_ticker : String → Result RawBookTicker
  pub read_book_tickers : String → Result (List RawBookTicker)
  -- `json.Decoder.Decode` on the body as it arrives.
  pub decode_exchange_info : Result String → Result ExchangeInfoResponse
  pub read_order : String → Result OrderResponse
  pub read_account : String → Result AccountResponse
  -- The secret, then the payload.
  pub hmac_sha256 : Bytes → Bytes → Bytes
  pub hex : Bytes → String
  pub bytes_of : String → Bytes
  -- `strconv.FormatInt` at base 10, and `strconv.Quote`.
  pub format_int : ℤ → String
  pub quote : String → String
  -- `time.Now().UnixMilli()`
  pub unix_milli : ℤ
