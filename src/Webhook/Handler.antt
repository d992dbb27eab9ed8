-- ===== src/Webhook/Handler.antt =====
-- internal/webhook/handler.go: the reading of a payload as a fill, and the handler. JSON is a
-- parameter: a decoded object is a list of keys with values.
use Prim.Native.String.{◌++◌}
use pregao.Prelude.{ℕ, Bool, true, not, ◌||◌, String, List, any, if◌then◌else◌}
use pregao.Prelude.Text.{◌=ₛ◌}
use pregao.Prelude.Int.{ℤ}
use pregao.Errors.{Result, ok, err, error_text}
use pregao.Decimal.{Decimals, is_zero, above}
use pregao.Worker.{FillEvent}
use pregao.World.{World}

pub record RawBinanceExecutionReport : Type 0 where
  pub event_type : String
  pub event_time : ℤ
  pub symbol : String
  pub client_order_id : String
  pub side : String
  pub order_type : String
  pub original_quantity : String
  pub price : String
  pub execution_type : String
  pub order_status : String
  pub order_id : ℤ
  pub last_executed_quantity : String
  pub cumulative_filled_qty : String
  pub last_executed_price : String
  pub cumulative_quote_quantity : String

-- encoding/json on the payloads, and `strconv.FormatInt`.
pub record Json (D : Type 0) : Type 1 where
  pub Value : Type 0
  pub decode : String → Result (List (String × Value))
  pub marshal : List (String × Value) → Result String
  pub read_fill_event : String → Result (FillEvent D)
  pub read_report : String → Result RawBinanceExecutionReport
  pub format_int : ℤ → String

-- What the handler makes of a payload: a fill to process, or an answer at once.
pub data Reading (D : Type 0) : Type 0 where
  fill : FillEvent D → Reading D
  ignored : Reading D
  bad_request : String → Reading D

pub record Answer : Type 0 where
  pub status_code : ℕ
  pub body : String

-- Whether a report is of an execution.
unfoldable pub is_fill : RawBinanceExecutionReport → Bool
is_fill r =
    r.execution_type =ₛ "TRADE"
    || r.order_status =ₛ "FILLED"
    || r.order_status =ₛ "PARTIALLY_FILLED"

abbrev pub has_key {ℓ} : {V : Type ℓ} → String → List (String × V) → Bool
has_key k m = any (λ e. e.0 =ₛ k) m

module _ {D : Type 0} ⦃d : Decimals D⦄ where
  -- `err != nil || v.IsZero()`
  abbrev pub is_missing : Result D → Bool
  is_missing (err e) = true
  is_missing (ok v) = is_zero v

  -- The value of `NewFromString`, which is zero beside an error.
  abbrev pub value_of : Result D → D
  value_of (err e) = d.zero
  value_of (ok v) = v

  -- `lastQty`
  unfoldable pub last_quantity : RawBinanceExecutionReport → Result D
  last_quantity r =
      let last = d.parse r.last_executed_quantity in
      if is_missing last then d.parse r.cumulative_filled_qty else last

  -- `lastPrice`
  unfoldable pub last_price : RawBinanceExecutionReport → D → D
  last_price r quantity =
      let price = d.parse r.last_executed_price in
      if is_missing price
      then elim (d.parse r.cumulative_quote_quantity) [
        | err e ↦ value_of price
        | ok cum_quote ↦ if above quantity d.zero then d.div cum_quote quantity else value_of price
      ]
      else value_of price

  module _ ⦃j : Json D⦄ where
    abbrev pub event_of : RawBinanceExecutionReport → D → FillEvent D
    event_of r quantity = record {
      provider = "BINANCE";
      provider_order_id = j.format_int r.order_id;
      symbol = r.symbol;
      side = r.side;
      status = r.order_status;
      executed_quantity = quantity;
      fill_price = last_price r quantity;
    }

    -- A report of Binance's own form.
    unfoldable pub read_execution : RawBinanceExecutionReport → Reading D
    unfolding is_fill
    read_execution r = if not (is_fill r) then ignored else elim (last_quantity r) [
      | err e ↦ bad_request "invalid execution quantity"
      | ok quantity ↦ fill (event_of r quantity)
    ]

    abbrev pub read_generic : Result (FillEvent D) → Reading D
    read_generic (err e) = bad_request ("invalid fill event payload: " ++ error_text e)
    read_generic (ok event) = fill event

    abbrev pub read_native : Result RawBinanceExecutionReport → Reading D
    read_native (err e) = bad_request ("invalid binance execution report: " ++ error_text e)
    read_native (ok r) = read_execution r

    abbrev pub read_object : List (String × j.Value) → Result String → Reading D
    read_object m (err e) = bad_request "failed to parse payload"
    read_object m (ok payload) =
        if has_key "provider_order_id" m
        then read_generic (j.read_fill_event payload)
        else if has_key "e" m
        then read_native (j.read_report payload)
        else bad_request "unrecognized webhook payload format"

    abbrev pub read_decoded : Result (List (String × j.Value)) → Reading D
    read_decoded (err e) = bad_request ("invalid json payload: " ++ error_text e)
    read_decoded (ok m) = read_object m (j.marshal m)

    -- The body of a request, read.
    unfoldable pub read_payload : String → Reading D
    unfolding read_execution
    read_payload body = read_decoded (j.decode body)

    -- The answer to what the processor returned.
    abbrev pub processed : Result (Unit {0}) × World D → Answer × World D
    processed (ok _, w) = (record { status_code = 200; body = "{\"status\":\"PROCESSED\"}" }, w)
    processed (err e, w) =
        (record { status_code = 500; body = "fill processing failed: " ++ error_text e }, w)

    abbrev pub answer_reading :
        (FillEvent D → World D → Result (Unit {0}) × World D)
        → World D
        → Reading D
        → Answer × World D
    answer_reading process w (bad_request message) =
        (record { status_code = 400; body = message }, w)
    answer_reading process w ignored =
        (record { status_code = 200; body = "{\"status\":\"ignored\"}" }, w)
    answer_reading process w (fill event) = processed (process event w)

    -- `handleBinanceOrderWebhook`, of a method and a body.
    unfoldable pub handle_order_webhook :
        (FillEvent D → World D → Result (Unit {0}) × World D)
        → String
        → String
        → World D
        → Answer × World D
    unfolding read_payload
    handle_order_webhook process method body w =
        if not (method =ₛ "POST")
        then (record { status_code = 405; body = "method not allowed" }, w)
        else answer_reading process w (read_payload body)

-- `handleHealthCheck`
unfoldable pub handle_health_check : Answer
handle_health_check = record { status_code = 200; body = "{\"status\":\"OK\"}" }
