-- ===== src/Service/Execute/Waiting.antt =====
-- ExecuteTrade on an intent that another request is executing.
use pregao.Prelude.{ℕ, suc, ◌+◌, ◌*◌, ◌≤◌, ◌<◌, ◌≡◌, refl, false, some}
use pregao.Prelude.Text.{◌=ₛ◌}
use pregao.Errors.{reply}
use pregao.Decimal.{Decimals}
use pregao.Uuid.{Uuids}
use pregao.Db.Models.{Row, status_pending}
use pregao.Db.Orders.{scan_row}
use pregao.World.{World, turn, now, IsMonotone}
use pregao.Service.Server.{PregaoServer, ExecuteTradeRequest}
use pregao.Service.Reserve.{reserve}
use pregao.Service.Reserve.Waiting.{find_intent, Settles, reserve_loop-Takes}
use pregao.Service.Execute.{validate, build_order, proceed, execute_trade, execute_response}

module _ {D : Type 0} ⦃d : Decimals D⦄ ⦃u : Uuids⦄ where
  -- A valid request for an intent whose row another request holds, where the row stays, no
  -- statement fails, the context is not done and the clock does not run backwards: if the row is
  -- settled from some operation on that the request reaches within `rounds` polls, and these polls
  -- end before the wait is over, then ExecuteTrade returns within `rounds` + 1 rounds with the
  -- broker order id and the status of the row as it is settled, and has made no call.
  pub execute_trade-waits :
      (rounds by : ℕ) (s : PregaoServer D) (req : ExecuteTradeRequest) (intent : ℕ) (qty : D)
      (r : Row D) (w : World D)
      → Settles intent by w.outside
      → IsMonotone w.outside
      → validate req ≡ reply (intent, qty)
      → find_intent intent w.orders ≡ some r
      → by ≤ suc (suc w.step) + 3 * rounds + 1
      → w.outside.clock (suc (suc w.step) + 3 * rounds) + w.slept + rounds * s.reservation_poll
        < now (turn w) + s.reservation_wait
      → (q : Row D) × (v : World D) × (execute_trade (suc rounds) s req w
          ≡ some (reply (execute_response (scan_row q)), v))
        × (find_intent intent v.orders ≡ some q)
        × ((q.status =ₛ status_pending) ≡ false)
        × (v.calls ≡ w.calls)
  unfolding execute_trade reserve proceed build_order
  execute_trade-waits rounds by s req intent qty r w settles mono valid held soon early =
      let (r1, h1) = settles.stays w.step w.orders r held in
      let (r2, h2) = settles.stays (suc w.step) (turn w).orders r1 h1 in
      let (q, o, v, found, kept, settled, silent) =
        reserve_loop-Takes rounds s.reservation_poll (now (turn w) + s.reservation_wait) by
          (build_order s req (w.outside.new_uuid w.step) intent qty) r2 (turn (turn w)) settles mono
          h2 soon early in
      (q, v, rw (valid, execute_trade) (rw found refl), kept, settled, silent)
