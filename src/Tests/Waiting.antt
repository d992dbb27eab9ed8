-- ===== src/Tests/Waiting.antt =====
-- A run of ExecuteTrade beside another request for the same intent, and its theorem at that run.
use pregao.Prelude.{
  ◌≡◌, refl, true, false, Bool, some, [], ◌∷◌, if◌then◌else◌, leb, arith, none, subst, some_inj,
}
use pregao.Prelude.Text.{◌=ₛ◌, trim_space}
use pregao.Prelude.Int.{ℤ, pos, compare_ℤ}
use pregao.Errors.{ok, reply}
use pregao.Decimal.Whole.{whole, parse_ℤ}
use pregao.Db.Models.{Row, status_pending}
use pregao.Db.Orders.{scan_row}
use pregao.World.{World, Outside, IsMonotone}
use pregao.Service.Execute.{execute_trade, validate, execute_response}
use pregao.Service.Reserve.Waiting.{Settles, find_intent}
use pregao.Service.Execute.Waiting.{execute_trade-waits}
use pregao.Tests.Fixtures.{
  numbered, calm, world_with, filled_result, broker_that, server_with, trade, settled_row,
}

abbrev pending_row : Row ℤ
pending_row = record settled_row { status = status_pending; provider_order_id = none }

-- The other request settles the row before the sixth operation.
abbrev settling : Outside ℤ
settling = record calm { others = λ n rows. if leb 6 n then settled_row ∷ [] else pending_row ∷ [] }

abbrev contended : World ℤ
contended = record (world_with (pending_row ∷ [])) { outside = settling }

find_either :
    (b : Bool)
    → (q : Row ℤ) × (find_intent 7 (if b then settled_row ∷ [] else pending_row ∷ []) ≡ some q)
find_either true = (settled_row, refl)
find_either false = (pending_row, refl)

settled_if :
    (b : Bool) (q : Row ℤ)
    → b ≡ true
    → find_intent 7 (if b then settled_row ∷ [] else pending_row ∷ []) ≡ some q
    → (q.status =ₛ status_pending) ≡ false
settled_if true q h found =
    subst (λ x. (x.status =ₛ status_pending) ≡ false) (some_inj settled_row q found) refl
settled_if false q h found = cc

settling-Settles : Settles 7 6 settling
settling-Settles = record {
  stays = λ n rows r h. find_either (leb 6 n);
  settled = λ n rows r q late h found. settled_if (leb 6 n) q (ground arith) found;
  up = λ n. refl;
  live = λ n. refl;
}

settling-IsMonotone : IsMonotone settling
settling-IsMonotone n = omega arith

valid_trade : validate trade ≡ reply (7, pos 5)
unfolding validate trim_space parse_ℤ compare_ℤ
valid_trade = refl

execute_trade-waits_example :
    (q : Row ℤ) × (v : World ℤ) × (execute_trade 2
        (server_with (broker_that (ok filled_result)))
        trade
        contended
      ≡ some (reply (execute_response (scan_row q)), v))
    × (find_intent 7 v.orders ≡ some q)
    × ((q.status =ₛ status_pending) ≡ false)
    × (v.calls ≡ [])
execute_trade-waits_example =
    execute_trade-waits 1 6 (server_with (broker_that (ok filled_result))) trade 7 (pos 5)
      pending_row contended settling-Settles settling-IsMonotone valid_trade refl (omega arith)
      (omega arith)
