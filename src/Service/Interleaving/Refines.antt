-- ===== src/Service/Interleaving/Refines.antt =====
-- ExecuteTrade, as the function of one request, runs as steps of the system of many requests.
use pregao.Prelude.{
  false, ℕ, suc, ◌*◌, ◌≤◌, ◌≡◌, ◌≢◌, refl, sym, subst, ◌∙◌, ◌⊎◌, inl, inr, Option, none, some, List,
  some_inj, arith,
}
use pregao.Errors.{Reply, reply, status}
use pregao.Decimal.{Decimals}
use pregao.Uuid.{Uuids}
use pregao.Broker.{OrderResult}
use pregao.Vault.{PlaintextCredentials}
use pregao.Prelude.Text.{◌=ₛ◌}
use pregao.Db.Models.{status_pending, Row, BrokerOrder}
use pregao.Db.Orders.Keys.{IsUnique}
use pregao.Db.Credentials.{get_credentials}
use pregao.World.{World, Outside, turn, IsMonotone}
use pregao.Service.Server.{
  PregaoServer, ExecuteTradeRequest, ExecuteTradeResponse, resolve_provider,
}
use pregao.Service.Reserve.{Outcome, reserve, release_reservation}
use pregao.Service.Reserve.Outcomes.{Holds, Recorded}
use pregao.Service.Execute.{
  validate, build_order, execute_response, decrypt_and_place, dispatch, finish, proceed, proceed_if,
  execute_trade, confirm, sync_fill,
}
use pregao.Service.Execute.Failure.{execute_trade_total}
use pregao.Service.Interleaving.{reserving, holding, releasing, done, System, Reach}
use pregao.Service.Interleaving.Held.{AllPairs}
use pregao.Service.Interleaving.OneOrder.{start, Rivals, placed_once}
use pregao.Service.Interleaving.Environment.{
  Plays-Reach, IsIn, Reach-trans, Reach-IsIn, Plays, Shows, then_After, observe,
}
use pregao.Service.Interleaving.Reserving.{Ends}
use pregao.Service.Interleaving.Rounds.{reserve-Ends}
use pregao.Service.Interleaving.Finishing.{
  sync_fill-After, confirm-After, release_reservation-After,
}
use pregao.Service.Execute.Quiet.{FillsByWorker}
use pregao.Service.Interleaving.Dispatching.{Dispatched, decrypt_and_place-Dispatched}

module _ {D : Type 0} (order : ℕ → BrokerOrder D) (i : ℕ) (InRun : System D → Type 0) where
  -- The response is that of an order which some system of the run has recorded under the request's
  -- intent or key, and settled.
  abbrev pub IsReplay : ExecuteTradeResponse → Type 0
  IsReplay x =
      (o : BrokerOrder D) × (t : System D) × InRun t
      × Recorded (order i) o t.rows
      × ((o.status =ₛ status_pending) ≡ false)
      × (x ≡ execute_response o)

  -- A success without a call is a replay; else the broker has accepted the request's order.
  abbrev pub Explains : World D → System D → Reply ExecuteTradeResponse × World D → Type 0
  Explains w v (status code message, q) = Unit
  Explains w v (reply x, q) = ((q.calls ≡ w.calls) × IsReplay x) ⊎ IsIn i v.placed

module _ {D : Type 0} (order : ℕ → BrokerOrder D) (i : ℕ) (P Q : System D → Type 0)
    (all : (t : System D) → P t → Q t) where
  Explains-all :
      (w : World D) (v : System D) (y : Reply ExecuteTradeResponse × World D)
      → Explains order i P w v y
      → Explains order i Q w v y
  Explains-all w v (status code message, q) h = tt
  Explains-all w v (reply x, q) (inl (silent, told)) =
      let (o, t, run, seen, settled, same) = told in
      inl (silent, (o, t, all t run, seen, settled, same))
  Explains-all w v (reply x, q) (inr h) = inr h

module _ {D : Type 0} ⦃d : Decimals D⦄ ⦃u : Uuids⦄ (order : ℕ → BrokerOrder D) (i : ℕ)
    (out : Outside D) (Possible : ℕ → System D → Type 0) (plays : Plays order i out Possible)
    (ne : (order i).id ≢ 0) (server : PregaoServer D) (fills : FillsByWorker server) where
  -- The request has ended, in a system reached from `s`.
  abbrev Finished : System D → World D → Reply ExecuteTradeResponse × World D → Type 0
  Finished s w y =
      (v : System D) × Reach order s v
      × (v.rows ≡ y.1.orders)
      × (v.stage i ≡ done)
      × Explains order i (λ t. (n : ℕ) × Possible n t) w v y

  finish-Finished :
      (req : ExecuteTradeRequest) (o : BrokerOrder D)
      (r : Reply (OrderResult D × PlaintextCredentials)) (q w : World D) (s : System D)
      → o.id ≡ (order i).id
      → Dispatched order i out Possible plays ne server s (r, q)
      → Finished s w (finish server req o (r, q))
  unfolding finish
  finish-Finished req o (status code message) q w s named after =
      let (v, to, shown, at) =
        then_After order i out Possible s q (release_reservation o q) releasing done after
          (λ t st at_t. release_reservation-After order i out Possible plays o q t named st at_t) in
      (v, to, shown.1, at, tt)
  finish-Finished req o (reply (result, creds)) q w s named (t, to, shown, at, is_in) =
      let c = (confirm server o result q).1 in
      let (v, on, shown', at') =
        then_After order i out Possible t c (sync_fill server req result c) done done
          (confirm-After order i out Possible plays server o result q t named shown at)
          (λ x sx ax.
            sync_fill-After order i out Possible plays server req result c x fills sx ax) in
      (v, Reach-trans order to on, shown'.1, at', inr (Reach-IsIn order i on is_in))

  proceed-Finished :
      (req : ExecuteTradeRequest) (qty : D) (x : Outcome D) (w : World D) (s : System D)
      → Ends order i out Possible plays s w x
      → Finished s w (proceed server req qty x)
  unfolding proceed dispatch get_credentials
  proceed-Finished req qty (status code message, o, q) w s
        (((v, to, shown, at), silent), named, told) =
      (v, to, shown.1, at, tt)
  proceed-Finished req qty (reply (some x), o, q) w s
        (((v, to, shown, at), silent), named, (n, t, may, seen, settled)) =
      (v, to, shown.1, at, inl (silent, (x, t, (n, may), seen, settled, refl)))
  proceed-Finished req qty (reply none, o, q) w s (((t, to, shown, at), silent), named, told) =
      let found = get_credentials req.tenant_id (resolve_provider server req.provider) q in
      let (t', on, shown', at') = observe order i out Possible plays q t holding shown at in
      let (v, on', rows, at_v, why) =
        finish-Finished req o (decrypt_and_place server req qty found).0
          (decrypt_and_place server req qty found).1 w t' named
          (decrypt_and_place-Dispatched order i out Possible plays ne server req qty found.0
            (turn q) t' shown' at') in
      (v, Reach-trans order to (Reach-trans order on on'), rows, at_v, why)

  proceed_if-Finished :
      (req : ExecuteTradeRequest) (qty : D) (x : Option (Outcome D)) (w : World D) (s : System D)
      (y : Reply ExecuteTradeResponse × World D)
      → Holds (Ends order i out Possible plays s w) x
      → proceed_if server req qty x ≡ some y
      → Finished s w y
  proceed_if-Finished req qty none w s y h e = absurd (ground arith)
  proceed_if-Finished req qty (some x) w s y h e =
      subst (Finished s w) (some_inj (proceed server req qty x) y e)
        (proceed-Finished req qty x w s h)

  execute_trade-Finished :
      (fuel intent : ℕ) (req : ExecuteTradeRequest) (qty : D) (w : World D) (s : System D)
      (y : Reply ExecuteTradeResponse × World D)
      → validate req ≡ reply (intent, qty)
      → order i ≡ build_order server req (w.outside.new_uuid w.step) intent qty
      → Shows order i out Possible w s
      → s.stage i ≡ reserving
      → execute_trade fuel server req w ≡ some y
      → Finished s w y
  unfolding execute_trade
  execute_trade-Finished fuel intent req qty w s y valid is shown at e =
      let (t, to, shown', at') = observe order i out Possible plays w s reserving shown at in
      let ends = reserve-Ends order i out Possible plays ne fuel server (turn w) t shown' at' in
      let ran : proceed_if server req qty (reserve fuel server (order i) (turn w)) ≡ some y =
        sym runs ∙ e in
      let (v, on, rows, at_v, why) =
        proceed_if-Finished req qty (reserve fuel server (order i) (turn w)) (turn w) t y ends
          ran in
      (v, Reach-trans order to on, rows, at_v, why)
    where
      runs :
          execute_trade fuel server req w
          ≡ proceed_if server req qty (reserve fuel server (order i) (turn w))
      runs = rw (valid, execute_trade) (rw is refl)

module _ {D : Type 0} ⦃d : Decimals D⦄ ⦃u : Uuids⦄ where
  -- Some number of requests run at once, for orders whose ids are distinct and none the nil UUID,
  -- over a table that keeps its constraints. They have come to a system in which request i is at
  -- its beginning and whose rows are those of its world. The schedule of request i plays, at every
  -- turn and from every system that may stand there, steps of the others that leave request i where
  -- it is, fills of the webhook among them, and the steps of request i itself lead to no system
  -- that may not stand there. If the request is valid, its order is the one that ExecuteTrade
  -- builds, the fill processor is the worker's or absent, the clock does not run backwards and the
  -- poll intervals of `rounds` cover the wait, then ExecuteTrade returns, and the system of all the
  -- requests goes on, step by step, to one in which request i is done and whose rows are those that
  -- ExecuteTrade left. Where the answer is a success, either no call was made and it is the answer
  -- for an order that some system of the run has recorded under the intent or the tenant's key and
  -- that is not pending, or the broker has accepted the order of request i in this run; and no two
  -- orders accepted in it are for one intent or for one non-empty key of a tenant.
  pub execute_trade-Reach :
      (order : ℕ → BrokerOrder D) (i : ℕ) (Possible : ℕ → System D → Type 0) (rows : List (Row D))
      (s : System D) (rounds : ℕ) (server : PregaoServer D) (req : ExecuteTradeRequest) (intent : ℕ)
      (qty : D) (w : World D)
      → ((j : ℕ) → (order j).id ≢ 0)
      → ((j k : ℕ) → (order j).id ≡ (order k).id → j ≡ k)
      → IsUnique rows
      → Reach order (start rows) s
      → s.rows ≡ w.orders
      → s.stage i ≡ reserving
      → Possible w.step s
      → Plays order i w.outside Possible
      → FillsByWorker server
      → validate req ≡ reply (intent, qty)
      → order i ≡ build_order server req (w.outside.new_uuid w.step) intent qty
      → IsMonotone w.outside
      → server.reservation_wait ≤ rounds * server.reservation_poll
      → (y : Reply ExecuteTradeResponse × World D) × (v : System D) × (execute_trade
            (suc rounds)
            server
            req
            w
          ≡ some y)
        × Reach order (start rows) v
        × (v.rows ≡ y.1.orders)
        × (v.stage i ≡ done)
        × Explains order i (Reach order (start rows)) w v y
        × AllPairs (λ j k. ¬ Rivals order j k) v.placed
  execute_trade-Reach order i Possible rows s rounds server req intent qty w named distinct unique
        reached shown at may plays fills valid is mono covers =
      let (y, ran) = execute_trade_total rounds server req w mono covers in
      let InRun = λ (n : ℕ) (t : System D). Possible n t × Reach order (start rows) t in
      let (v, on, rows_v, at_v, why) =
        execute_trade-Finished order i w.outside InRun
          (Plays-Reach order i w.outside Possible (start rows) plays) (named i) server fills
          (suc rounds) intent req qty w s y valid is (refl, shown, (may, reached)) at ran in
      let whole = Reach-trans order reached on in
      (
        y,
        v,
        ran,
        whole,
        rows_v,
        at_v,
        Explains-all order i (λ t. (n : ℕ) × InRun n t) (Reach order (start rows)) (λ t h. h.1.1) w
            v y why,
        placed_once order named distinct unique whole,
      )
