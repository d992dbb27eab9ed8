-- ===== src/Service/Reserve/Outcomes.antt =====
-- What reserveOrder has done when it returns, with no other request between and no statement failing.
use pregao.Prelude.{
  ℕ, zero, suc, ◌+◌, ◌≡◌, refl, ◌⊎◌, inl, inr, Bool, false, ◌&&◌, Option, none, some, List, ◌∷◌,
  arith, Bool-cases, Option-cases, ltb, ◌==◌, find, any, sym, subst,
}
use pregao.Prelude.Text.{◌=ₛ◌}
use pregao.Errors.{Result, ok, err, reply, status, errors_is, Sentinel}
use pregao.Decimal.{Decimals}
use pregao.Uuid.{Uuids}
use pregao.Db.Models.{BrokerOrder, Row, status_pending}
use pregao.Db.Orders.{
  get_order_by_intent_id, get_order_by_idempotency_key, insert_row, conflicts, prepare, scan_row,
  null_eq,
}
use pregao.Db.Orders.Lifecycle.{prepared, reserve_order-free, reserve_order-taken}
use pregao.World.{World, turn, now, IsAlone, IsUp}
use pregao.Service.Server.{PregaoServer}
use pregao.Service.Reserve.{
  Outcome, load_existing, read_existing, wait_turn, on_existing, reserve_loop, reserve,
}

abbrev pub Holds {ℓ κ} : {A : Type ℓ} → (A → Type κ) → Option A → Type κ
Holds P none = Unit
Holds P (some a) = P a

module _ {D : Type 0} where
  -- Nothing but the rows, the step and the sleep may differ.
  pub record Kept (w q : World D) : Type 0 where
    pub same : q.outside ≡ w.outside
    pub silent : q.calls ≡ w.calls
    pub secret : q.secrets ≡ w.secrets
    pub credited : q.credentials ≡ w.credentials

  pub record Stays (w q : World D) : Type 0 where
    pub kept : Kept w q
    pub rows : q.orders ≡ w.orders

  abbrev pub by_intent : BrokerOrder D → Row D → Bool
  by_intent o r = r.trade_intent_id == o.trade_intent_id

  abbrev pub by_key : BrokerOrder D → Row D → Bool
  by_key o r = r.tenant_id =ₛ o.tenant_id && null_eq r.idempotency_key o.idempotency_key

  -- `x` is the row of the order's intent, or of its tenant's key.
  abbrev pub Recorded : BrokerOrder D → BrokerOrder D → List (Row D) → Type 0
  Recorded order x rows =
      (r : Row D) × (x ≡ scan_row r)
      × ((find (by_intent order) rows ≡ some r) ⊎ (find (by_key order) rows ≡ some r))

  load_existing-Stays :
      (o : BrokerOrder D) (w : World D) → IsAlone w.outside → Stays w (load_existing o w).1
  unfolding load_existing get_order_by_intent_id get_order_by_idempotency_key
  load_existing-Stays o w alone = ground (arith, alone w.step w.orders, alone (suc w.step) w.orders)

  load_existing-Recorded :
      (o x : BrokerOrder D) (w : World D)
      → IsAlone w.outside
      → IsUp w.outside
      → (load_existing o w).0 ≡ ok x
      → Recorded o x w.orders
  unfolding load_existing get_order_by_intent_id get_order_by_idempotency_key
  load_existing-Recorded o x w alone up e = elim (Option-cases (find (by_intent o) w.orders)) [
    | inr (r, er) ↦ (r, ground (arith, er, facts), inl er)
    | inl en ↦ elim (Option-cases (find (by_key o) w.orders)) [
      | inr (r, er) ↦ (r, ground (arith, en, er, facts), inr er)
      | inl en' ↦ absurd (ground (arith, en, en', facts))
    ]
  ]
    where
      facts :
          (w.outside.others w.step w.orders ≡ w.orders)
          × (w.outside.others (suc w.step) w.orders ≡ w.orders)
          × (w.outside.fault w.step ≡ none)
          × (w.outside.fault (suc w.step) ≡ none)
      facts = (alone w.step w.orders, alone (suc w.step) w.orders, up w.step, up (suc w.step))

module _ {D : Type 0} ⦃d : Decimals D⦄ where
  abbrev pub Reserved : World D → Outcome D → Type 0
  Reserved w (reply none, o, q) =
      Kept w q
      × (q.orders ≡ insert_row o ∷ w.orders)
      × (any (conflicts (insert_row o)) w.orders ≡ false)
      × (o.status ≡ status_pending)
  Reserved w (reply (some x), o, q) =
      Stays w q × ((x.status =ₛ status_pending) ≡ false) × Recorded o x w.orders
  Reserved w (status c m, o, q) = Stays w q

  Reserved-shift : (w v : World D) (x : Outcome D) → Stays w v → Reserved v x → Reserved w x
  Reserved-shift w v (reply none, o, q) s h = ground arith
  Reserved-shift w v (reply (some x), o, q) s h =
      (ground arith, h.1, subst (Recorded o x) s.rows h.2)
  Reserved-shift w v (status c m, o, q) s h = ground arith

module _ {D : Type 0} ⦃d : Decimals D⦄ ⦃u : Uuids⦄ where
  -- A round that found the table taken, from the world that ReserveOrder left.
  taken_round :
      (poll deadline : ℕ) (again : World D → Option (Outcome D)) (o : BrokerOrder D) (w : World D)
      → IsAlone w.outside
      → IsUp w.outside
      → ((q : World D) → Stays w q → Holds (Reserved w) (again q))
      → Holds (Reserved w) (
          on_existing poll deadline again o
            (read_existing (load_existing o w).0)
            (load_existing o w).1)
  unfolding read_existing
  taken_round poll deadline again o w alone up h = go (load_existing o w).0 refl
    where
      q : World D
      q = (load_existing o w).1

      stays : Stays w q
      stays = load_existing-Stays o w alone

      wait : Holds (Reserved w) (wait_turn poll deadline again o q)
      wait = elim (Bool-cases (ltb (now q) deadline)) [
        | inr late ↦ rw late stays
        | inl early ↦ elim (Option-cases (q.outside.ctx_error q.step)) [
          | inr (e, done) ↦ rw (early, done) stays
          | inl live ↦
              rw (early, live)
                (h (record (turn q) { slept = q.slept + poll })
                  (ground
                    (arith, stays, subst IsAlone (sym stays.kept.same) alone q.step q.orders)))
        ]
      ]

      go :
          (r : Result (BrokerOrder D))
          → (load_existing o w).0 ≡ r
          → Holds (Reserved w) (on_existing poll deadline again o (read_existing r) q)
      go (err e) eq = elim (Bool-cases (errors_is e Sentinel.order_not_found)) [
        | inl released ↦ rw released wait
        | inr broken ↦ rw broken stays
      ]
      go (ok x) eq = elim (Bool-cases (x.status =ₛ status_pending)) [
        | inl pending ↦ rw pending wait
        | inr settled ↦ rw settled (stays, settled, load_existing-Recorded o x w alone up eq)
      ]

  shift :
      (w v : World D) (x : Option (Outcome D))
      → Stays w v
      → Holds (Reserved v) x
      → Holds (Reserved w) x
  shift w v none s h = tt
  shift w v (some x) s h = Reserved-shift w v x s h

  -- The world of a round that found the table taken.
  abbrev after_taken : World D → World D
  after_taken w = record (turn w) { orders = w.orders }

  after_taken-Stays : (w : World D) → Stays w (after_taken w)
  after_taken-Stays w = ground arith

  -- The loop, on any fuel.
  pub reserve_loop-Reserved :
      (fuel poll deadline : ℕ) (order : BrokerOrder D) (w : World D)
      → IsAlone w.outside
      → IsUp w.outside
      → Holds (Reserved w) (reserve_loop fuel poll deadline order w)
  unfolding reserve_loop prepare
  reserve_loop-Reserved zero poll deadline order w alone up = tt
  reserve_loop-Reserved (suc fuel) poll deadline order w alone up =
      let ih = reserve_loop-Reserved fuel poll deadline (prepared order w) in
      elim (Bool-cases (any (conflicts (insert_row (prepared order w))) w.orders)) [
        | inr free ↦ rw (reserve_order-free order w alone up free) (
          record { same = refl; silent = refl; secret = refl; credited = refl },
          refl,
          free,
          refl,
        )
        | inl taken ↦ rw (reserve_order-taken order w alone up taken) (
            shift w (after_taken w) _ (after_taken-Stays w) (
              taken_round poll deadline _ (prepared order w) (after_taken w) alone up λ q s.
                shift (after_taken w) q _ s
                  (ih q (subst IsAlone (sym s.kept.same) alone) (subst IsUp (sym s.kept.same) up))))
      ]

  -- What reserveOrder leaves when it returns. Holding the reservation: one new row, pending, that
  -- conflicts with none. A recorded order: the row of the intent or the key, not pending, and the
  -- table as it was. An error: the table as it was. This when no statement fails and no other
  -- request comes between.
  pub reserve-Reserved :
      (fuel : ℕ) (s : PregaoServer D) (order : BrokerOrder D) (w : World D)
      → IsAlone w.outside
      → IsUp w.outside
      → Holds (Reserved w) (reserve fuel s order w)
  unfolding reserve
  reserve-Reserved fuel s order w alone up = shift w (turn w) _ (turn-Stays w alone) (
      reserve_loop-Reserved fuel s.reservation_poll (now w + s.reservation_wait) order (turn w)
        alone up)
    where
      turn-Stays : (w : World D) → IsAlone w.outside → Stays w (turn w)
      turn-Stays w alone = ground (arith, alone w.step w.orders)
