-- ===== src/Service/Execute/Failure.antt =====
-- A trade that fails leaves no trace in broker_orders: its reservation is released.
use pregao.Prelude.{
  ℕ, suc, ◌≡◌, refl, ◌∙◌, false, Option, none, some, ◌∷◌, arith, sym, ap, subst, any, remove_if,
  ◌≤◌, ◌*◌,
}
use pregao.Errors.{Result, ok, err, Reply, reply, status}
use pregao.Decimal.{Decimals}
use pregao.Uuid.{Uuids}
use pregao.Broker.{OrderResult}
use pregao.Vault.{PlaintextCredentials}
use pregao.Db.Models.{BrokerOrder, BrokerCredential, status_pending}
use pregao.Db.Orders.{insert_row, conflicts, is_reservation}
use pregao.Db.Orders.Lifecycle.{release_order-alone, remove_if-insert}
use pregao.Db.Credentials.{get_credentials}
use pregao.World.{World, turn, IsAlone, IsUp}
use pregao.Service.Server.{
  PregaoServer, ExecuteTradeRequest, ExecuteTradeResponse, resolve_provider,
}
use pregao.Service.Reserve.{Outcome, release_reservation}
use pregao.Service.Reserve.Outcomes.{Holds, Reserved, reserve-Reserved}
use pregao.Service.Reserve.Rounds.{Returns, reserve_total}
use pregao.World.{IsMonotone}
use pregao.Service.Execute.{
  validate, build_order, place, decrypt_and_place, dispatch, finish, proceed, proceed_if,
  execute_trade,
}

module _ {D : Type 0} ⦃d : Decimals D⦄ ⦃u : Uuids⦄ where
  -- The rows and the schedule.
  abbrev Same : World D → World D → Type 0
  Same w q = (q.outside ≡ w.outside) × (q.orders ≡ w.orders)

  place-Same :
      (s : PregaoServer D) (req : ExecuteTradeRequest) (qty : D) (r : Result BrokerCredential)
      (w : World D)
      → Same w (decrypt_and_place s req qty (r, w)).1
  unfolding decrypt_and_place place
  place-Same s req qty (err e) w = ground arith
  place-Same s req qty (ok cred) w = ground arith

  dispatch-Same :
      (s : PregaoServer D) (req : ExecuteTradeRequest) (qty : D) (w : World D)
      → IsAlone w.outside
      → Same w (dispatch s req qty w).1
  unfolding dispatch get_credentials
  dispatch-Same s req qty w alone =
      let found = (get_credentials req.tenant_id (resolve_provider s req.provider) w).0 in
      let same = place-Same s req qty found (turn w) in (same.0, same.1 ∙ alone w.step w.orders)

  -- An error reply stands beside the rows of `w`.
  abbrev pub FailsClean : World D → Reply ExecuteTradeResponse × World D → Type 0
  FailsClean w (status c m, q) = q.orders ≡ w.orders
  FailsClean w (reply x, q) = Unit

  finish-FailsClean :
      (s : PregaoServer D) (req : ExecuteTradeRequest) (o : BrokerOrder D)
      (r : Reply (OrderResult D × PlaintextCredentials) × World D) (w q : World D)
      → IsAlone q.outside
      → IsUp q.outside
      → Same q r.1
      → (q.orders ≡ insert_row o ∷ w.orders)
      → (any (conflicts (insert_row o)) w.orders ≡ false)
      → (o.status ≡ status_pending)
      → FailsClean w (finish s req o r)
  unfolding finish release_reservation insert_row
  finish-FailsClean s req o (reply x, v) w q alone up same rows free pending = tt
  finish-FailsClean s req o (status c m, v) w q alone up same rows free pending =
      ap (λ x. x.1.orders)
        (release_order-alone o.id v (subst IsAlone (sym same.0) alone) (subst IsUp (sym same.0) up))
      ∙ ap (remove_if (is_reservation o.id)) (same.1 ∙ rows)
      ∙ remove_if-insert (insert_row o) w.orders pending free

  proceed-FailsClean :
      (s : PregaoServer D) (req : ExecuteTradeRequest) (qty : D) (x : Outcome D) (w : World D)
      → IsAlone w.outside
      → IsUp w.outside
      → Reserved w x
      → FailsClean w (proceed s req qty x)
  unfolding proceed
  proceed-FailsClean s req qty (status c m, o, q) w alone up h = h.rows
  proceed-FailsClean s req qty (reply (some x), o, q) w alone up h = tt
  proceed-FailsClean s req qty (reply none, o, q) w alone up (kept, rows, free, pending) =
      let alone' = subst IsAlone (sym kept.same) alone in
      let up' = subst IsUp (sym kept.same) up in
      finish-FailsClean s req o (dispatch s req qty q) w q alone' up'
        (dispatch-Same s req qty q alone') rows free pending

  proceed_if-FailsClean :
      (s : PregaoServer D) (req : ExecuteTradeRequest) (qty : D) (x : Option (Outcome D))
      (w : World D)
      → IsAlone w.outside
      → IsUp w.outside
      → Holds (Reserved w) x
      → Holds (FailsClean w) (proceed_if s req qty x)
  proceed_if-FailsClean s req qty none w alone up h = tt
  proceed_if-FailsClean s req qty (some x) w alone up h =
      proceed-FailsClean s req qty x w alone up h

  rows_of_turn :
      (w : World D) (x : Option (Reply ExecuteTradeResponse × World D))
      → IsAlone w.outside
      → Holds (FailsClean (turn w)) x
      → Holds (FailsClean w) x
  rows_of_turn w none alone h = tt
  rows_of_turn w (some (status c m, q)) alone h = h ∙ alone w.step w.orders
  rows_of_turn w (some (reply x, q)) alone h = tt

  from_validated :
      (fuel : ℕ) (s : PregaoServer D) (req : ExecuteTradeRequest) (w : World D) (v : Reply (ℕ × D))
      → validate req ≡ v
      → IsAlone w.outside
      → IsUp w.outside
      → Holds (FailsClean w) (execute_trade fuel s req w)
  unfolding execute_trade
  from_validated fuel s req w (status c m) e alone up = rw (e, execute_trade) refl
  from_validated fuel s req w (reply (intent, qty)) e alone up =
      rw (e, execute_trade)
        (rows_of_turn w _ alone (
          proceed_if-FailsClean s req qty _ (turn w) alone up (
            reserve-Reserved fuel s (build_order s req (w.outside.new_uuid w.step) intent qty)
              (turn w) alone up)))

  -- When no statement fails and no other request comes between, an ExecuteTrade that returns an
  -- error leaves the rows of broker_orders exactly as it found them, on every one of its error
  -- paths.
  pub execute_trade-FailsClean :
      (fuel : ℕ) (s : PregaoServer D) (req : ExecuteTradeRequest) (w : World D)
      → IsAlone w.outside
      → IsUp w.outside
      → Holds (FailsClean w) (execute_trade fuel s req w)
  execute_trade-FailsClean fuel s req w alone up =
      from_validated fuel s req w (validate req) refl alone up

  proceed_if-Returns :
      (s : PregaoServer D) (req : ExecuteTradeRequest) (qty : D) (x : Option (Outcome D))
      → Returns x
      → Returns (proceed_if s req qty x)
  proceed_if-Returns s req qty x (y, e) = rw e (_, refl)

  total_from :
      (rounds : ℕ) (s : PregaoServer D) (req : ExecuteTradeRequest) (w : World D)
      (v : Reply (ℕ × D))
      → validate req ≡ v
      → IsMonotone w.outside
      → s.reservation_wait ≤ rounds * s.reservation_poll
      → Returns (execute_trade (suc rounds) s req w)
  unfolding execute_trade
  total_from rounds s req w (status c m) e mono h = rw (e, execute_trade) (_, refl)
  total_from rounds s req w (reply (intent, qty)) e mono h =
      rw (e, execute_trade)
        (proceed_if-Returns s req qty _ (
          reserve_total rounds s (build_order s req (w.outside.new_uuid w.step) intent qty) (turn w)
            mono h))

  -- ExecuteTrade returns, whatever the request, the other requests and the broker do, if the clock
  -- does not run backwards and the poll intervals of `rounds` cover the wait.
  pub execute_trade_total :
      (rounds : ℕ) (s : PregaoServer D) (req : ExecuteTradeRequest) (w : World D)
      → IsMonotone w.outside
      → s.reservation_wait ≤ rounds * s.reservation_poll
      → Returns (execute_trade (suc rounds) s req w)
  execute_trade_total rounds s req w mono h = total_from rounds s req w (validate req) refl mono h
