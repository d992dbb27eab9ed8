-- ===== src/Service/Reserve.antt =====
-- `reserveOrder` and `releaseReservation`: the gate that lets one request for a trade intent through.
pub mod Rounds
pub mod Outcomes
pub mod Waiting
use Prim.Native.String.{◌++◌}
use pregao.Prelude.{
  ℕ, zero, suc, ◌+◌, Bool, true, false, not, ◌&&◌, String, Option, none, some, if◌then◌else◌, ltb,
}
use pregao.Prelude.Text.{◌=ₛ◌}
use pregao.Errors.{
  Error, Result, ok, err, errors_is, error_text, Sentinel, Reply, reply, status, Code, context_code,
}
use pregao.Decimal.{Decimals}
use pregao.Uuid.{Uuids}
use pregao.Db.Models.{BrokerOrder, status_pending}
use pregao.Db.Orders.{
  reserve_order, release_order, get_order_by_intent_id, get_order_by_idempotency_key,
}
use pregao.World.{World, turn, now}
use pregao.Service.Server.{PregaoServer}

-- The cases of the `switch` in reserveOrder.
pub data Existing (D : Type 0) : Type 0 where
  -- A reservation that is pending, or that was released meanwhile.
  in_flight : Existing D
  recorded : BrokerOrder D → Existing D
  unreadable : Error → Existing D

module _ {D : Type 0} where
  unfoldable pub read_existing : Result (BrokerOrder D) → Existing D
  read_existing (err e) = if errors_is e Sentinel.order_not_found then in_flight else unreadable e
  read_existing (ok order) =
      if not (order.status =ₛ status_pending) then recorded order else in_flight

  -- The second look, by the idempotency key, when the first found no order.
  abbrev pub or_by_key :
      BrokerOrder D → Result (BrokerOrder D) × World D → Result (BrokerOrder D) × World D
  or_by_key order (ok existing, w) = (ok existing, w)
  or_by_key order (err e, w) =
      if errors_is e Sentinel.order_not_found && not (order.idempotency_key =ₛ "")
      then get_order_by_idempotency_key order.tenant_id order.idempotency_key w
      else (err e, w)

  unfoldable pub load_existing : BrokerOrder D → World D → Result (BrokerOrder D) × World D
  load_existing order w = or_by_key order (get_order_by_intent_id order.trade_intent_id w)

-- What the loop ends with: `reply none` when this request holds the reservation, else the recorded
-- order. The order comes back as ReserveOrder left it.
abbrev pub Outcome : Type 0 → Type 0
Outcome D = Reply (Option (BrokerOrder D)) × BrokerOrder D × World D

module _ {D : Type 0} ⦃d : Decimals D⦄ ⦃u : Uuids⦄ where
  -- The end of a round that found the reservation held: the deadline, the context, the next round.
  abbrev pub wait_turn :
      ℕ → ℕ → (World D → Option (Outcome D)) → BrokerOrder D → World D → Option (Outcome D)
  wait_turn poll deadline again order w =
      if not (ltb (now w) deadline)
      then some (
        status Code.aborted (
            "trade intent "
            ++ u.show order.trade_intent_id
            ++ " is still being executed by another request"),
        order,
        w,
      )
      else elim (w.outside.ctx_error w.step) [
        | some e ↦ some (status (context_code e) (error_text e), order, w)
        | none ↦ again (record (turn w) { slept = w.slept + poll })
      ]

  abbrev pub on_existing :
      ℕ
      → ℕ
      → (World D → Option (Outcome D))
      → BrokerOrder D
      → Existing D
      → World D
      → Option (Outcome D)
  on_existing poll deadline again order in_flight w = wait_turn poll deadline again order w
  on_existing poll deadline again order (recorded existing) w =
      some (reply (some existing), order, w)
  on_existing poll deadline again order (unreadable e) w =
      some
        (status Code.internal ("database error loading existing order: " ++ error_text e), order, w)

  -- One round of the loop, by what ReserveOrder answered.
  abbrev pub on_reserve :
      ℕ
      → ℕ
      → (BrokerOrder D → World D → Option (Outcome D))
      → Result Bool × BrokerOrder D × World D
      → Option (Outcome D)
  on_reserve poll deadline again (err e, order, w) = some (
    status Code.internal ("database error reserving trade execution: " ++ error_text e),
    order,
    w,
  )
  on_reserve poll deadline again (ok true, order, w) = some (reply none, order, w)
  on_reserve poll deadline again (ok false, order, w) =
      let (found, q) = load_existing order w in
      on_existing poll deadline (again order) order (read_existing found) q

  -- The loop; `none` is for fuel that ran out.
  unfoldable pub reserve_loop : ℕ → ℕ → ℕ → BrokerOrder D → World D → Option (Outcome D)
  reserve_loop zero poll deadline order w = none
  reserve_loop (suc fuel) poll deadline order w =
      on_reserve poll deadline (λ o q. reserve_loop fuel poll deadline o q) (reserve_order order w)

  -- `reserveOrder`, its deadline set from the clock.
  unfoldable pub reserve : ℕ → PregaoServer D → BrokerOrder D → World D → Option (Outcome D)
  reserve fuel s order w =
      reserve_loop fuel s.reservation_poll (now w + s.reservation_wait) order (turn w)

  -- `releaseReservation`: a failure is only logged.
  unfoldable pub release_reservation : BrokerOrder D → World D → World D
  release_reservation order w = (release_order order.id w).1
