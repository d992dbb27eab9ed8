-- ===== src/Service/Reserve/Waiting.antt =====
-- A request that waits for another request of the same trade intent: it gets the order that the
-- other one recorded, once that is settled.
use pregao.Prelude.{
  ℕ, zero, suc, ◌+◌, ◌*◌, ◌≤◌, ◌<◌, ◌≡◌, refl, subst, true, false, ◌==◌, Option, none, some, List,
  arith, Bool-cases, inl, inr, find,
}
use pregao.Prelude.Text.{◌=ₛ◌}
use pregao.Errors.{ok, reply}
use pregao.Decimal.{Decimals}
use pregao.Uuid.{Uuids}
use pregao.Db.Models.{BrokerOrder, Row, status_pending}
use pregao.Db.Orders.{
  reserve_order, insert_order, insert_row, prepare, get_order_by_intent_id, scan_row,
}
use pregao.Db.Orders.Lifecycle.{prepared}
use pregao.World.{World, Outside, turn, now, IsUp, IsMonotone}
use pregao.Service.Reserve.{Outcome, load_existing, read_existing, reserve_loop}
use pregao.Service.Reserve.Rounds.{clock_mono}
use pregao.Service.Execute.Replay.{any_of_intent}

module _ {D : Type 0} where
  abbrev pub find_intent : ℕ → List (Row D) → Option (Row D)
  find_intent intent rows = find (λ r. r.trade_intent_id == intent) rows

  -- A schedule under which the row of an intent stays, and is settled from the `by`-th operation on;
  -- no statement fails, and the context is not done.
  pub record Settles (intent by : ℕ) (o : Outside D) : Type 0 where
    pub stays :
        (n : ℕ) (rows : List (Row D)) (r : Row D)
        → find_intent intent rows ≡ some r
        → (q : Row D) × (find_intent intent (o.others n rows) ≡ some q)
    pub settled :
        (n : ℕ) (rows : List (Row D)) (r q : Row D)
        → by ≤ n
        → find_intent intent rows ≡ some r
        → find_intent intent (o.others n rows) ≡ some q
        → (q.status =ₛ status_pending) ≡ false
    pub up : IsUp o
    pub live : (n : ℕ) → o.ctx_error n ≡ none

  load_existing-found :
      (o : BrokerOrder D) (r : Row D) (w : World D)
      → IsUp w.outside
      → find_intent o.trade_intent_id (turn w).orders ≡ some r
      → load_existing o w ≡ (ok (scan_row r), turn w)
  unfolding load_existing get_order_by_intent_id
  load_existing-found o r w up found = ground (arith, up w.step, found)

module _ {D : Type 0} ⦃d : Decimals D⦄ where
  reserve_order-held :
      (o : BrokerOrder D) (r : Row D) (w : World D)
      → IsUp w.outside
      → find_intent o.trade_intent_id (turn w).orders ≡ some r
      → reserve_order o w ≡ (ok false, prepared o w, turn w)
  unfolding reserve_order insert_order insert_row prepare
  reserve_order-held o r w up found =
      ground (arith, up w.step, any_of_intent (insert_row (prepared o w)) r (turn w).orders found)

module _ {D : Type 0} ⦃d : Decimals D⦄ ⦃u : Uuids⦄ where
  -- The world of the next round.
  abbrev slept_on : ℕ → World D → World D
  slept_on poll w = record (turn (turn (turn w))) { slept = w.slept + poll }

  round-settled :
      (fuel poll deadline : ℕ) (o : BrokerOrder D) (r q : Row D) (w : World D)
      → IsUp w.outside
      → find_intent o.trade_intent_id (turn w).orders ≡ some r
      → find_intent o.trade_intent_id (turn (turn w)).orders ≡ some q
      → (q.status =ₛ status_pending) ≡ false
      → reserve_loop (suc fuel) poll deadline o w
        ≡ some (reply (some (scan_row q)), prepared o w, turn (turn w))
  unfolding reserve_loop read_existing prepare
  round-settled fuel poll deadline o r q w up held found settled =
      rw (reserve_order-held o r w up held)
        (rw (load_existing-found (prepared o w) q (turn w) up found) (rw settled refl))

  round-waits :
      (fuel poll deadline : ℕ) (o : BrokerOrder D) (r q : Row D) (w : World D)
      → IsUp w.outside
      → find_intent o.trade_intent_id (turn w).orders ≡ some r
      → find_intent o.trade_intent_id (turn (turn w)).orders ≡ some q
      → (q.status =ₛ status_pending) ≡ true
      → now (turn (turn w)) < deadline
      → w.outside.ctx_error (suc (suc w.step)) ≡ none
      → reserve_loop (suc fuel) poll deadline o w
        ≡ reserve_loop fuel poll deadline (prepared o w) (slept_on poll w)
  unfolding reserve_loop read_existing prepare
  round-waits fuel poll deadline o r q w up held found pending early live =
      rw (reserve_order-held o r w up held) (
        rw (load_existing-found (prepared o w) q (turn w) up found)
          (ground (arith, pending, early, live)))

  -- The loop ends with the settled row of the intent, and no call was made.
  abbrev pub Takes : World D → ℕ → Option (Outcome D) → Type 0
  Takes w intent answer =
      (q : Row D) × (o : BrokerOrder D) × (v : World D) × (answer
        ≡ some (reply (some (scan_row q)), o, v))
      × (find_intent intent v.orders ≡ some q)
      × ((q.status =ₛ status_pending) ≡ false)
      × (v.calls ≡ w.calls)

  in_time :
      (o : Outside D) (step slept k poll deadline : ℕ)
      → IsMonotone o
      → o.clock (step + 3 * suc k) + slept + suc k * poll < deadline
      → o.clock (suc (suc step)) + slept < deadline
  in_time o step slept k poll deadline mono h =
      let same : (3 * k + 1) + suc (suc step) ≡ step + 3 * suc k = omega arith in
      let later : o.clock (suc (suc step)) ≤ o.clock (step + 3 * suc k) =
        subst (λ n. o.clock (suc (suc step)) ≤ o.clock n) same
          (clock_mono o mono (suc (suc step)) (3 * k + 1)) in
      omega (arith, later, h)

  next_in_time :
      (o : Outside D) (step slept k poll deadline : ℕ)
      → o.clock (step + 3 * suc k) + slept + suc k * poll < deadline
      → o.clock (suc (suc (suc step)) + 3 * k) + (slept + poll) + k * poll < deadline
  next_in_time o step slept k poll deadline h =
      let same : step + 3 * suc k ≡ suc (suc (suc step)) + 3 * k = omega arith in
      omega (arith, subst (λ n. o.clock n + slept + suc k * poll < deadline) same h)

  -- A round ends with the settled row, or its row is still pending.
  by_status :
      (fuel poll deadline : ℕ) (o : BrokerOrder D) (r : Row D) (w : World D)
      → IsUp w.outside
      → ((q : Row D) × (find_intent o.trade_intent_id (turn w).orders ≡ some q))
      → find_intent o.trade_intent_id (turn (turn w)).orders ≡ some r
      → ((r.status =ₛ status_pending) ≡ true
          → Takes w o.trade_intent_id (reserve_loop (suc fuel) poll deadline o w))
      → Takes w o.trade_intent_id (reserve_loop (suc fuel) poll deadline o w)
  by_status fuel poll deadline o r w up (q, held) found wait =
      elim (Bool-cases (r.status =ₛ status_pending)) [
        | inr settled ↦ (
          r,
          prepared o w,
          turn (turn w),
          round-settled fuel poll deadline o q r w up held found settled,
          found,
          settled,
          refl,
        )
        | inl pending ↦ wait pending
      ]

  pub reserve_loop-Takes :
      (rounds poll deadline by : ℕ) (o : BrokerOrder D) (r : Row D) (w : World D)
      → Settles o.trade_intent_id by w.outside
      → IsMonotone w.outside
      → find_intent o.trade_intent_id w.orders ≡ some r
      → by ≤ w.step + 3 * rounds + 1
      → w.outside.clock (w.step + 3 * rounds) + w.slept + rounds * poll < deadline
      → Takes w o.trade_intent_id (reserve_loop (suc rounds) poll deadline o w)
  unfolding prepare
  reserve_loop-Takes zero poll deadline by o r w s mono held soon early =
      let (r1, h1) = s.stays w.step w.orders r held in
      let (r2, h2) = s.stays (suc w.step) (turn w).orders r1 h1 in
      by_status zero poll deadline o r2 w s.up (r1, h1) h2
        λ pending.
          absurd
            (let settled = s.settled (suc w.step) (turn w).orders r1 r2 (omega arith) h1 h2 in cc)
  reserve_loop-Takes (suc k) poll deadline by o r w s mono held soon early =
      let (r1, h1) = s.stays w.step w.orders r held in
      let (r2, h2) = s.stays (suc w.step) (turn w).orders r1 h1 in
      let (r3, h3) = s.stays (suc (suc w.step)) (turn (turn w)).orders r2 h2 in
      by_status (suc k) poll deadline o r2 w s.up (r1, h1) h2
        λ pending.
          rw
            (round-waits (suc k) poll deadline o r1 r2 w s.up h1 h2 pending
              (in_time w.outside w.step w.slept k poll deadline mono early)
              (s.live (suc (suc w.step))))
            (reserve_loop-Takes k poll deadline by (prepared o w) r3 (slept_on poll w) s mono h3
              (omega arith) (next_in_time w.outside w.step w.slept k poll deadline early))
