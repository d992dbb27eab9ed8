-- ===== src/Binance/Client.antt =====
-- internal/broker/binance/client.go: the client, its signed requests and its market orders. The log
-- of the requests sent and the arrays behind the credentials are written out beside the answer.
use Prim.Native.String.{◌++◌}
use Prim.Native.Char.{code}
use pregao.Prelude.{
  ℕ, Bool, true, false, not, ◌==◌, ◌||◌, String, Option, none, some, List, [], ◌∷◌, if◌then◌else◌,
}
use pregao.Prelude.Text.{◌=ₛ◌, to_upper, trim_right}
use pregao.Prelude.Int.{ℤ, pos}
use pregao.Errors.{Sentinel, Result, ok, err, sentinel, other, wrap, detail, and_then, relabel}
use pregao.Decimal.{Decimals, at_most, above}
use pregao.Vault.{Bytes, PlaintextCredentials, zero_credentials, arrays_of}
use pregao.Broker.{MarketOrderRequest, OrderResult}
use pregao.Binance.Models.{OrderResponse}
use pregao.Http.{HttpClient, Response}
use pregao.Binance.Wire.{Request, Wire}
use pregao.Binance.Quantity.{get_default_step_size, truncate_to_step_size, map_order_status}

pub record Client : Type 0 where
  pub base_url : String
  pub recv_window : ℤ
  pub http_client : HttpClient

abbrev not_positive : ℤ → Bool
not_positive (pos n) = n == 0
not_positive _ = true

abbrev pub default_client : HttpClient
default_client = record { timeout = pos 10_000_000_000 }

abbrev or_default_client : Option HttpClient → HttpClient
or_default_client none = default_client
or_default_client (some c) = c

-- `NewClientWithHTTPClient`
unfoldable pub new_client_with_http_client : String → ℤ → Option HttpClient → Client
unfolding trim_right
new_client_with_http_client base_url recv_window http_client = record {
  base_url =
      trim_right (λ c. code c == b'/')
        (if base_url =ₛ "" then "https://api.binance.com" else base_url);
  recv_window = if not_positive recv_window then pos 5000 else recv_window;
  http_client = or_default_client http_client;
}

-- `NewClient`
unfoldable pub new_client : String → ℤ → ℤ → Client
unfolding new_client_with_http_client
new_client base_url recv_window timeout =
    new_client_with_http_client base_url recv_window
      (some (record { timeout = if not_positive timeout then pos 10_000_000_000 else timeout }))

-- What a signed call leaves: its answer, the requests that went out, the struct behind the pointer
-- to the credentials, and the arrays that held them.
pub record Signed {ℓ} (A : Type ℓ) : Type ℓ where
  pub answer : Result A
  pub sent : List Request
  pub credentials : Option PlaintextCredentials
  pub arrays : List Bytes

abbrev is_empty : Option Bytes → Bool
is_empty (some (b ∷ bs)) = false
is_empty _ = true

-- `len(creds.APIKey) == 0 || len(creds.APISecret) == 0`
abbrev pub lacks_credentials : PlaintextCredentials → Bool
lacks_credentials creds = is_empty creds.api_key || is_empty creds.api_secret

abbrev pub or_nil : Option Bytes → Bytes
or_nil none = []
or_nil (some bs) = bs

-- HTTP 429 and 418.
abbrev pub is_limited : ℕ → Bool
is_limited code = code == 429 || code == 418

module _ ⦃x : Wire⦄ where
  -- `SignHMAC`
  unfoldable pub sign_hmac : Bytes → Bytes → String
  sign_hmac payload secret = x.hex (x.hmac_sha256 secret payload)

  -- The URL of a signed request for an endpoint.
  abbrev pub signed_url : Client → PlaintextCredentials → String → List (String × String) → String
  signed_url c creds endpoint params =
      let query = x.encode params in
      c.base_url
      ++ endpoint
      ++ "?"
      ++ query
      ++ "&signature="
      ++ sign_hmac (x.bytes_of query) (or_nil creds.api_secret)

  -- The making of a request, under the message of a failure.
  abbrev pub new_request : String → String → Option Bytes → String → Result Request
  new_request method url key message = elim (x.refuses url) [
    | some e ↦ err (wrap message e)
    | none ↦ ok (record { method = method; url = url; api_key = key })
  ]

  -- One request, if it could be made, with what `Zero` left behind it.
  abbrev pub round_trip {ℓ} :
      {A : Type ℓ}
      → Client
      → String
      → (Response → Result A)
      → Option PlaintextCredentials × List Bytes
      → Result Request
      → Signed A
  round_trip c failure read zeroed (err e) = record {
    answer = err e;
    sent = [];
    credentials = zeroed.0;
    arrays = zeroed.1;
  }
  round_trip c failure read zeroed (ok r) = record {
    answer = and_then (relabel failure (x.send c.http_client r)) read;
    sent = r ∷ [];
    credentials = zeroed.0;
    arrays = zeroed.1;
  }

  -- The guard on missing credentials, the deferred `Zero`, and the round trip of one request.
  abbrev pub with_credentials {ℓ} :
      {A : Type ℓ}
      → Client
      → Option PlaintextCredentials
      → String
      → String
      → (PlaintextCredentials → Result Request)
      → (Response → Result A)
      → Signed A
  with_credentials c none missing failure request read = record {
    answer = err (other missing);
    sent = [];
    credentials = none;
    arrays = [];
  }
  with_credentials c (some creds) missing failure request read =
      if lacks_credentials creds
      then record {
        answer = err (other missing);
        sent = [];
        credentials = some creds;
        arrays = arrays_of creds;
      }
      else round_trip c failure read (zero_credentials (some creds)) (request creds)

module _ {D : Type 0} ⦃d : Decimals D⦄ where
  -- `v, _ := decimal.NewFromString(s)`
  abbrev pub parse_or_zero : String → D
  parse_or_zero s = elim (d.parse s) [ ok v ↦ v | err e ↦ d.zero ]

  unfoldable pub order_result : (ℤ → String) → OrderResponse → OrderResult D
  unfolding map_order_status
  order_result format r =
      let executed = parse_or_zero r.executed_qty in
      let quote_qty = parse_or_zero r.cummulative_quote_qty in
      record {
        provider_order_id = format r.order_id;
        status = map_order_status r.status;
        executed_quantity = executed;
        cumulative_quote_quantity = quote_qty;
        average_price = if above executed d.zero then d.div quote_qty executed else d.zero;
      }

  module _ ⦃x : Wire⦄ where
    abbrev order_params : Client → MarketOrderRequest D → String → List (String × String)
    order_params c req qty_text =
        ("symbol", to_upper req.symbol)
        ∷ ("side", to_upper req.side)
        ∷ ("type", "MARKET")
        ∷ ("quantity", qty_text)
        ∷ ("timestamp", x.format_int x.unix_milli)
        ∷ ("recvWindow", x.format_int c.recv_window)
        ∷ (if req.client_order_id =ₛ "" then [] else ("newClientOrderId", req.client_order_id) ∷ [])

    -- PlaceMarketOrder up to the request, from the truncated quantity on.
    unfoldable pub request_of :
        Client → PlaintextCredentials → MarketOrderRequest D → D → D × String → Result Request
    request_of c creds req step_size (qty, qty_text) =
        if at_most qty d.zero
        then err (
            detail (sentinel Sentinel.invalid_quantity) (
              "quantity "
              ++ d.show req.quantity
              ++ " is smaller than minimum step size "
              ++ d.show step_size
              ++ " for "
              ++ req.symbol))
        else new_request "POST" (signed_url c creds "/api/v3/order" (order_params c req qty_text))
            creds.api_key "failed to create order request"

    unfoldable pub order_request :
        Client → PlaintextCredentials → MarketOrderRequest D → Result Request
    unfolding request_of
    order_request c creds req =
        if at_most req.quantity d.zero
        then err (sentinel Sentinel.invalid_quantity)
        else and_then (get_default_step_size req.symbol) λ step_size.
          request_of c creds req step_size (truncate_to_step_size req.quantity step_size)

    -- The response of the broker, decoded.
    abbrev pub accept_order : Response → OrderResponse → Result (OrderResult D)
    accept_order resp r =
        if not (resp.status_code == 200)
        then err (
            detail (sentinel Sentinel.order_rejected) (
              "status "
              ++ x.format_int (pos resp.status_code)
              ++ " (code: "
              ++ x.format_int r.code
              ++ ", msg: "
              ++ r.msg
              ++ ")"))
        else ok (order_result x.format_int r)

    abbrev pub read_order_body : Response → String → Result (OrderResult D)
    read_order_body resp body =
        if is_limited resp.status_code
        then err (sentinel Sentinel.rate_limited)
        else and_then (relabel "failed to unmarshal order response" (x.read_order body))
            (accept_order resp)

    -- PlaceMarketOrder from the response on.
    unfoldable pub read_order_response : Response → Result (OrderResult D)
    unfolding order_result
    read_order_response resp =
        and_then (relabel "failed to read order response" resp.body) (read_order_body resp)

    -- `PlaceMarketOrder`
    unfoldable pub place_market_order :
        Client → Option PlaintextCredentials → MarketOrderRequest D → Signed (OrderResult D)
    unfolding order_request read_order_response
    place_market_order c creds req =
        with_credentials c creds "missing broker credentials for order placement"
          "binance order request failed" (λ cs. order_request c cs req) read_order_response
