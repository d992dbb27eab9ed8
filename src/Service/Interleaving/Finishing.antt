-- ===== src/Service/Interleaving/Finishing.antt =====
-- From the broker's answer to the end of ExecuteTrade as steps of one request among many: the
-- release or the confirmation of the reservation, and the fill.
use pregao.Prelude.{ℕ, ◌≡◌, sym, subst, ◌∙◌, inl, inr, arith, Bool-cases, Option-cases}
use pregao.Errors.{Result, ok, err}
use pregao.Decimal.{Decimals, at_most, above}
use pregao.Uuid.{Uuids}
use pregao.Broker.{OrderResult}
use pregao.Db.Models.{BrokerOrder}
use pregao.Db.Orders.{get_order_by_provider_order_id}
use pregao.World.{World, Outside, turn}
use pregao.Worker.{
  FillEvent, FillProcessor, process_fill, apply_fill, record_fill, settle, capture, new_status,
  new_filled_quantity, new_average_price,
}
use pregao.Service.Server.{PregaoServer, ExecuteTradeRequest}
use pregao.Service.Reserve.{release_reservation}
use pregao.Service.Execute.{confirm, sync_fill, order_status, fill_event}
use pregao.Service.Interleaving.{releasing, accepted, done, System}
use pregao.Service.Interleaving.Environment.{Plays, Shows, After, then_After, stays, observe}
use pregao.Service.Execute.Quiet.{FillsByWorker}
use pregao.Service.Interleaving.Statements.{
  confirm_order-After, release_order-After, update_order_fill-After,
}

module _ {D : Type 0} ⦃d : Decimals D⦄ ⦃u : Uuids⦄ (order : ℕ → BrokerOrder D) (i : ℕ)
    (out : Outside D) (Possible : ℕ → System D → Type 0) (plays : Plays order i out Possible) where
  settle-Same :
      (p : FillProcessor D) (o : BrokerOrder D) (e : FillEvent D) (w : World D)
      → let q = (settle p o e w).1 in
        (q.outside ≡ w.outside) × (q.orders ≡ w.orders) × (q.step ≡ w.step)
  unfolding settle capture
  settle-Same p o e w = ground arith

  record_fill-After :
      (o : BrokerOrder D) (e : FillEvent D) (r : Result (Unit {0})) (w : World D) (s : System D)
      → Shows order i out Possible w s
      → s.stage i ≡ done
      → After order i out Possible s done (record_fill o e (r, w)).1
  unfolding record_fill
  record_fill-After o e (err m) w s shown at = stays order i out Possible w s done shown at
  record_fill-After o e (ok _) w s shown at =
      update_order_fill-After order i out Possible plays o.provider o.provider_order_id
        (new_status o e) (new_filled_quantity o e) (new_average_price o e) w s shown at

  apply_fill-After :
      (p : FillProcessor D) (e : FillEvent D) (r : Result (BrokerOrder D)) (w : World D)
      (s : System D)
      → Shows order i out Possible w s
      → s.stage i ≡ done
      → After order i out Possible s done (apply_fill p e (r, w)).1
  unfolding apply_fill
  apply_fill-After p e (err m) w s shown at = stays order i out Possible w s done shown at
  apply_fill-After p e (ok o) w s shown at =
      let (same, rows, step) = settle-Same p o e w in
      record_fill-After o e (settle p o e w).0 (settle p o e w).1 s
        (same ∙ shown.0, shown.1 ∙ sym rows, subst (λ n. Possible n s) (sym step) shown.2) at

  process_fill-After :
      (p : FillProcessor D) (e : FillEvent D) (w : World D) (s : System D)
      → Shows order i out Possible w s
      → s.stage i ≡ done
      → After order i out Possible s done (process_fill p e w).1
  unfolding process_fill get_order_by_provider_order_id
  process_fill-After p e w s shown at =
      let found = (get_order_by_provider_order_id e.provider e.provider_order_id w).0 in
      elim (Bool-cases (at_most e.executed_quantity d.zero)) [
        | inl bad ↦ rw bad (stays order i out Possible w s done shown at)
        | inr good ↦ elim (Bool-cases (at_most e.fill_price d.zero)) [
          | inl bad ↦ rw (good, bad) (stays order i out Possible w s done shown at)
          | inr fine ↦
              rw (good, fine)
                (then_After order i out Possible s (turn w) (apply_fill p e (found, turn w)).1 done
                  done (observe order i out Possible plays w s done shown at)
                  (λ t st at_t. apply_fill-After p e found (turn w) t st at_t))
        ]
      ]

  pub sync_fill-After :
      (server : PregaoServer D) (req : ExecuteTradeRequest) (result : OrderResult D) (w : World D)
      (s : System D)
      → FillsByWorker server
      → Shows order i out Possible w s
      → s.stage i ≡ done
      → After order i out Possible s done (sync_fill server req result w)
  unfolding sync_fill
  sync_fill-After server req result w s (inl absent) shown at =
      rw (absent, sync_fill) (stays order i out Possible w s done shown at)
  sync_fill-After server req result w s (inr (p, is)) shown at =
      elim (Bool-cases (above result.executed_quantity d.zero)) [
        | inl some_filled ↦
            rw (is, sync_fill)
              (rw some_filled (process_fill-After p (fill_event server req result) w s shown at))
        | inr nothing ↦
            rw (is, sync_fill) (rw nothing (stays order i out Possible w s done shown at))
      ]

  pub confirm-After :
      (server : PregaoServer D) (o : BrokerOrder D) (result : OrderResult D) (w : World D)
      (s : System D)
      → o.id ≡ (order i).id
      → Shows order i out Possible w s
      → s.stage i ≡ accepted
      → After order i out Possible s done (confirm server o result w).1
  unfolding confirm
  confirm-After server o result w s named shown at = elim (Option-cases server.fill_processor) [
    | inl absent ↦
        rw (absent, confirm)
          (rw named (
            confirm_order-After order i out Possible plays result.provider_order_id
              (order_status result) result.executed_quantity result.average_price w s shown at))
    | inr (p, is) ↦
        rw (is, confirm)
          (rw named (
            confirm_order-After order i out Possible plays result.provider_order_id
              (order_status result) d.zero d.zero w s shown at))
  ]

  pub release_reservation-After :
      (o : BrokerOrder D) (w : World D) (s : System D)
      → o.id ≡ (order i).id
      → Shows order i out Possible w s
      → s.stage i ≡ releasing
      → After order i out Possible s done (release_reservation o w)
  unfolding release_reservation
  release_reservation-After o w s named shown at =
      rw named (release_order-After order i out Possible plays w s shown at)
