-- ===== src/Tests/Webhooks.antt =====
-- Runs of the webhook, and its theorems at such runs. A payload of the tests is one of three texts.
use pregao.Prelude.{◌≡◌, refl, String, List, [], ◌∷◌, false, ◌==◌, if◌then◌else◌}
use pregao.Prelude.Text.{◌=ₛ◌, to_upper, equal_fold}
use pregao.Prelude.Int.{ℤ, pos, compare_ℤ, ◌+ℤ◌, ◌*ℤ◌, round_div}
use pregao.Errors.{ok, err, other}
use pregao.Decimal.Whole.{whole, digits, show_ℤ, parse_ℤ}
use pregao.Db.Models.{Row}
use pregao.Db.Orders.{get_order_by_provider_order_id, update_order_fill}
use pregao.World.{World}
use pregao.Worker.{
  process_fill, settle, apply_fill, record_fill, capture_params, fill_key, new_average_price,
  new_status,
}
use pregao.Webhook.{
  Json, RawBinanceExecutionReport, handle_order_webhook, read_payload, is_fill, last_quantity,
  last_price, read_execution,
}
use pregao.Webhook.Answers.{handle_order_webhook-clean}
use pregao.Tests.Fixtures.{world_with, settled_row, fill, standalone, numbered}

-- A report without a last quantity and a last price: those come from the totals.
abbrev report : RawBinanceExecutionReport
report = record {
  event_type = "executionReport";
  event_time = pos 1;
  symbol = "BTCUSDT";
  client_order_id = "";
  side = "BUY";
  order_type = "MARKET";
  original_quantity = "10";
  price = "0";
  execution_type = "TRADE";
  order_status = "PARTIALLY_FILLED";
  order_id = pos 41;
  last_executed_quantity = "0";
  cumulative_filled_qty = "2";
  last_executed_price = "x";
  cumulative_quote_quantity = "400";
}

instance abbrev pub payloads : Json ℤ
payloads = record {
  Value = Unit;
  decode = λ s.
      if s =ₛ "fill"
      then ok (("provider_order_id", tt) ∷ [])
      else if s =ₛ "report"
      then ok (("e", tt) ∷ [])
      else err (other "EOF");
  marshal = λ m. ok "payload";
  read_fill_event = λ s. ok fill;
  read_report = λ s. ok report;
  format_int = show_ℤ;
}

abbrev booked : World ℤ
booked = world_with (settled_row ∷ [])

abbrev averages : List (Row ℤ) → List (ℤ × ℤ × String)
averages [] = []
averages (r ∷ rows) = (r.filled_quantity, r.average_fill_price, r.status) ∷ averages rows

test_report :
    averages (handle_order_webhook (process_fill standalone) "POST" "report" booked).1.orders
    ≡ (pos 4, pos 150, "PARTIAL") ∷ []
unfolding handle_order_webhook read_payload is_fill last_quantity last_price read_execution
    process_fill get_order_by_provider_order_id update_order_fill settle apply_fill record_fill
    capture_params fill_key new_average_price new_status to_upper equal_fold digits show_ℤ compare_ℤ
    ◌+ℤ◌ ◌*ℤ◌ round_div parse_ℤ
test_report = refl

-- A fill of an order that is not there is answered with 500.
fill_unknown :
    ((handle_order_webhook (process_fill standalone) "POST" "fill" (world_with [])).0.status_code
      == 200)
    ≡ false
unfolding handle_order_webhook read_payload process_fill get_order_by_provider_order_id apply_fill
    compare_ℤ
fill_unknown = refl

handle_order_webhook-clean_example :
    (handle_order_webhook (process_fill standalone) "POST" "fill" (world_with [])).1.orders ≡ []
handle_order_webhook-clean_example =
    handle_order_webhook-clean standalone "POST" "fill" (world_with []) (λ n rows. refl)
      fill_unknown
