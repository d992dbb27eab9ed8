-- ===== src/Service/Execute/Replay.antt =====
-- What ExecuteTrade does with a trade intent that was settled before, and with a new one.
use pregao.Prelude.{
  ℕ, suc, ◌+◌, ◌≡◌, refl, ◌∙◌, true, false, some, List, ◌∷◌, [], arith, ap, any, find, ◌==◌,
}
use pregao.Prelude.Text.{◌=ₛ◌}
use pregao.Errors.{ok, reply}
use pregao.Decimal.{Decimals}
use pregao.Uuid.{Uuids}
use pregao.Db.Models.{BrokerOrder, Row, status_pending}
use pregao.Db.Orders.{insert_row, conflicts, prepare, get_order_by_intent_id, scan_row}
use pregao.Db.Orders.Lifecycle.{prepared, reserve_order-taken}
use pregao.World.{World, turn, now, IsAlone, IsUp}
use pregao.Service.Server.{PregaoServer, ExecuteTradeRequest}
use pregao.Service.Reserve.{reserve, reserve_loop, load_existing, read_existing}
use pregao.Service.Execute.{validate, build_order, proceed, execute_trade, execute_response}

module _ {D : Type 0} ⦃d : Decimals D⦄ where
  -- A row of the same intent conflicts.
  pub any_of_intent :
      (o r : Row D) (rows : List (Row D))
      → find (λ y. y.trade_intent_id == o.trade_intent_id) rows ≡ some r
      → any (conflicts o) rows ≡ true
  unfolding conflicts
  any_of_intent o r [] e = cc
  any_of_intent o r (x ∷ rows) e = ground (arith, any_of_intent o r rows)

module _ {D : Type 0} ⦃d : Decimals D⦄ ⦃u : Uuids⦄ where
  load_existing-settled :
      (o : BrokerOrder D) (r : Row D) (w : World D)
      → IsAlone w.outside
      → IsUp w.outside
      → find (λ y. y.trade_intent_id == o.trade_intent_id) w.orders ≡ some r
      → load_existing o w ≡ (ok (scan_row r), record (turn w) { orders = w.orders })
  unfolding load_existing get_order_by_intent_id
  load_existing-settled o r w alone up e = ground (arith, alone w.step w.orders, up w.step, e)

  -- The two statements that a request for a settled intent makes.
  abbrev pub after_replay : World D → World D
  after_replay w = record w { step = suc (suc w.step) }

  -- One round is enough for an intent whose row is settled.
  reserve_loop-settled :
      (fuel poll deadline : ℕ) (o : BrokerOrder D) (r : Row D) (w : World D)
      → IsAlone w.outside
      → IsUp w.outside
      → find (λ y. y.trade_intent_id == o.trade_intent_id) w.orders ≡ some r
      → (r.status =ₛ status_pending) ≡ false
      → reserve_loop (suc fuel) poll deadline o w
        ≡ some (reply (some (scan_row r)), prepared o w, after_replay w)
  unfolding reserve_loop insert_row prepare read_existing
  reserve_loop-settled fuel poll deadline o r w alone up e settled =
      rw (reserve_order-taken o w alone up (any_of_intent (insert_row (prepared o w)) r w.orders e))
        (rw (load_existing-settled (prepared o w) r (record w { step = suc w.step }) alone up e)
          (rw settled))

  -- When no statement fails and no other request comes between: a valid request for an intent whose
  -- row is settled gets that row's broker order id and status back in the first round, and neither
  -- the rows change nor is any call made.
  pub execute_trade-replay :
      (fuel : ℕ) (s : PregaoServer D) (req : ExecuteTradeRequest) (intent : ℕ) (qty : D) (r : Row D)
      (w : World D)
      → IsAlone w.outside
      → IsUp w.outside
      → validate req ≡ reply (intent, qty)
      → find (λ y. y.trade_intent_id == intent) w.orders ≡ some r
      → (r.status =ₛ status_pending) ≡ false
      → (q : World D) × (execute_trade (suc fuel) s req w
          ≡ some (reply (execute_response (scan_row r)), q))
        × (q.orders ≡ w.orders)
        × (q.calls ≡ w.calls)
  unfolding execute_trade reserve proceed build_order
  execute_trade-replay fuel s req intent qty r w alone up valid e settled =
      (after_replay v, rw (valid, execute_trade) (rw found), start, refl)
    where
      order : BrokerOrder D
      order = build_order s req (w.outside.new_uuid w.step) intent qty

      v : World D
      v = turn (turn w)

      start : v.orders ≡ w.orders
      start = alone (suc w.step) (turn w).orders ∙ alone w.step w.orders

      found :
          reserve_loop (suc fuel) s.reservation_poll (now (turn w) + s.reservation_wait) order v
          ≡ some (reply (some (scan_row r)), prepared order v, after_replay v)
      found =
          reserve_loop-settled fuel s.reservation_poll (now (turn w) + s.reservation_wait) order r v
            alone up (ap (find (λ y. y.trade_intent_id == intent)) start ∙ e) settled
