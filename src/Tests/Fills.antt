-- ===== src/Tests/Fills.antt =====
-- Runs of ProcessFill, and its theorems at such runs.

use pregao.Prelude.{◌≡◌, refl, ◌≤◌, String, List, [], ◌∷◌, true, false}
use pregao.Prelude.Text.{to_upper, equal_fold}
use pregao.Prelude.Int.{ℤ, pos, compare_ℤ, ◌+ℤ◌, ◌*ℤ◌, round_div}
use pregao.Errors.{failed}
use pregao.Decimal.{at_most}
use pregao.Decimal.Whole.{whole, digits, show_ℤ}
use pregao.Db.Models.{BrokerOrder, Row}
use pregao.Db.Orders.{scan_row, get_order_by_provider_order_id, update_order_fill}
use pregao.World.{World}
use pregao.Worker.{
  FillEvent, process_fill, new_average_price, settle, apply_fill, record_fill, capture_params,
  fill_key, new_status,
}
use pregao.Worker.Settlement.{
  settlements, process_fill-clean, process_fill-ok, Recorded, process_fill-settlements,
}
use pregao.Worker.Average.{after_fills, cost, after_fills-total_cost}
use pregao.Decimal.WholeLaws.{whole_laws}
use pregao.Tests.Fixtures.{world_with, settled_row, fill, standalone, numbered}

abbrev booked : World ℤ
booked = world_with (settled_row ∷ [])

abbrev quantities : List (Row ℤ) → List (ℤ × ℤ × String)
quantities [] = []
quantities (r ∷ rows) = (r.filled_quantity, r.average_fill_price, r.status) ∷ quantities rows

-- 2 at 100 and then 2 at 200 are 4 at 150, of 10.
process_fill_runs :
    quantities (process_fill standalone fill booked).1.orders ≡ (pos 4, pos 150, "PARTIAL") ∷ []
unfolding process_fill get_order_by_provider_order_id update_order_fill settle apply_fill
    record_fill capture_params fill_key new_average_price new_status to_upper equal_fold digits
    show_ℤ compare_ℤ ◌+ℤ◌ ◌*ℤ◌ round_div
process_fill_runs = refl

process_fill_works : failed (process_fill standalone fill booked).0 ≡ false
unfolding process_fill get_order_by_provider_order_id update_order_fill settle apply_fill
    record_fill capture_params fill_key new_average_price new_status to_upper equal_fold digits
    show_ℤ compare_ℤ ◌+ℤ◌ ◌*ℤ◌ round_div
process_fill_works = refl

process_fill-ok_example :
    (at_most fill.executed_quantity (pos 0) ≡ false)
    × (at_most fill.fill_price (pos 0) ≡ false)
    × Recorded fill booked (process_fill standalone fill booked).1
process_fill-ok_example = process_fill-ok standalone fill booked (λ n rows. refl) process_fill_works

abbrev no_order : FillEvent ℤ
no_order = record fill { provider_order_id = "77" }

process_fill_misses : failed (process_fill standalone no_order booked).0 ≡ true
unfolding process_fill get_order_by_provider_order_id apply_fill compare_ℤ
process_fill_misses = refl

process_fill-clean_example : (process_fill standalone no_order booked).1.orders ≡ settled_row ∷ []
process_fill-clean_example =
    process_fill-clean standalone no_order booked (λ n rows. refl) process_fill_misses

process_fill-settlements_example : settlements (process_fill standalone fill booked).1.calls ≤ 1
process_fill-settlements_example = process_fill-settlements standalone fill booked

abbrev stored : BrokerOrder ℤ
stored = scan_row settled_row

-- 2 at 200 and 1 at 400, on an order with 2 at 100.
abbrev later_fills : List (FillEvent ℤ)
later_fills = fill ∷ record fill { executed_quantity = pos 1; fill_price = pos 400 } ∷ []

after_fills-total_cost_example :
    ((after_fills stored later_fills).filled_quantity ≡ pos 5)
    × (cost (after_fills stored later_fills) ≡ pos 1000)
unfolding ◌+ℤ◌ ◌*ℤ◌ round_div compare_ℤ
after_fills-total_cost_example =
    after_fills-total_cost whole_laws later_fills stored (refl, (refl, tt))

-- A fill that is delivered twice is settled twice.
test_redelivery :
    settlements (process_fill standalone fill (process_fill standalone fill booked).1).1.calls ≡ 2
unfolding process_fill get_order_by_provider_order_id update_order_fill settle apply_fill
    record_fill capture_params fill_key new_average_price new_status to_upper equal_fold digits
    show_ℤ compare_ℤ ◌+ℤ◌ ◌*ℤ◌ round_div
test_redelivery = refl
