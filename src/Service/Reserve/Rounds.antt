-- ===== src/Service/Reserve/Rounds.antt =====
-- The loop of reserveOrder ends: each round that does not return sleeps for the poll interval, so the
-- clock reaches the deadline.
use pregao.Prelude.{
  ℕ, zero, suc, ◌+◌, ◌*◌, ◌-◌, ◌≤◌, ◌≡◌, refl, Bool, true, false, Option, some, arith, Bool-cases,
  Option-cases, inl, inr, ltb, sym, subst,
}
use pregao.Errors.{Result, ok, err}
use pregao.Decimal.{Decimals}
use pregao.Uuid.{Uuids}
use pregao.Db.Models.{BrokerOrder}
use pregao.Db.Orders.{reserve_order, get_order_by_intent_id, get_order_by_idempotency_key}
use pregao.World.{World, Outside, turn, now, IsMonotone}
use pregao.Service.Server.{PregaoServer}
use pregao.Service.Reserve.{
  Existing, in_flight, recorded, unreadable, Outcome, load_existing, read_existing, wait_turn,
  on_existing, on_reserve, reserve_loop, reserve,
}

module _ {D : Type 0} where
  -- `q` comes after `w`, and no sleep lies between.
  pub record Passed (w q : World D) : Type 0 where
    pub same : q.outside ≡ w.outside
    pub later : w.step ≤ q.step
    pub awake : q.slept ≡ w.slept

  pub Passed-trans : (w q v : World D) → Passed w q → Passed q v → Passed w v
  Passed-trans w q v a b = ground arith

  pub clock_mono : (o : Outside D) → IsMonotone o → (n k : ℕ) → o.clock n ≤ o.clock (k + n)
  clock_mono o m n zero = ground arith
  clock_mono o m n (suc k) = grind (arith, clock_mono o m n k, m (k + n))

  -- The clock does not run backwards over what passed.
  now-Passed : (w q : World D) → IsMonotone w.outside → Passed w q → now w ≤ now q
  now-Passed w q m p = ground (arith, clock_mono w.outside m w.step (q.step - w.step))

  select-Passed : (w : World D) → Passed w (turn w)
  select-Passed w = ground arith

  load_existing-Passed : (o : BrokerOrder D) (w : World D) → Passed w (load_existing o w).1
  unfolding load_existing get_order_by_intent_id get_order_by_idempotency_key
  load_existing-Passed o w = ground arith

module _ {D : Type 0} ⦃d : Decimals D⦄ where
  reserve_order-Passed : (o : BrokerOrder D) (w : World D) → Passed w (reserve_order o w).2
  unfolding reserve_order
  reserve_order-Passed o w = ground arith

abbrev pub Returns {ℓ} : {A : Type ℓ} → Option A → Type ℓ
Returns {A = A} o = (a : A) × (o ≡ some a)

module _ {D : Type 0} ⦃d : Decimals D⦄ ⦃u : Uuids⦄ where
  wait_turn_total :
      (poll deadline : ℕ) (again : World D → Option (Outcome D)) (o : BrokerOrder D) (w : World D)
      → (ltb (now w) deadline ≡ true → Returns (again (record (turn w) { slept = w.slept + poll })))
      → Returns (wait_turn poll deadline again o w)
  wait_turn_total poll deadline again o w h = elim (Bool-cases (ltb (now w) deadline)) [
    | inr late ↦ rw late (_, refl)
    | inl early ↦ elim (Option-cases (w.outside.ctx_error w.step)) [
      | inl live ↦ rw (early, live) (h early)
      | inr (e, done) ↦ rw (early, done) (_, refl)
    ]
  ]

  on_existing_total :
      (poll deadline : ℕ) (again : World D → Option (Outcome D)) (o : BrokerOrder D)
      (x : Existing D) (w : World D)
      → (ltb (now w) deadline ≡ true → Returns (again (record (turn w) { slept = w.slept + poll })))
      → Returns (on_existing poll deadline again o x w)
  on_existing_total poll deadline again o in_flight w h = wait_turn_total poll deadline again o w h
  on_existing_total poll deadline again o (recorded x) w h = (_, refl)
  on_existing_total poll deadline again o (unreadable e) w h = (_, refl)

  -- A round returns if the next one does, where the deadline lies ahead of what has passed.
  on_reserve_total :
      (poll deadline : ℕ) (again : BrokerOrder D → World D → Option (Outcome D))
      (r : Result Bool × BrokerOrder D × World D)
      → ((o : BrokerOrder D) (q : World D)
          → Passed r.2 q
          → ltb (now q) deadline ≡ true
          → Returns (again o (record (turn q) { slept = q.slept + poll })))
      → Returns (on_reserve poll deadline again r)
  on_reserve_total poll deadline again (err e, o, w) h = (_, refl)
  on_reserve_total poll deadline again (ok true, o, w) h = (_, refl)
  on_reserve_total poll deadline again (ok false, o, w) h =
      let q = (load_existing o w).1 in
      on_existing_total poll deadline (again o) o (read_existing (load_existing o w).0) q
        (h o q (load_existing-Passed o w))

  after_sleep :
      (poll : ℕ) (w q : World D)
      → IsMonotone w.outside
      → Passed w q
      → now w + poll ≤ now (record (turn q) { slept = q.slept + poll })
  after_sleep poll w q m p =
      ground (arith, now-Passed w q m p, subst IsMonotone (sym p.same) m q.step)

  sleep-IsMonotone : (w q : World D) → IsMonotone w.outside → Passed w q → IsMonotone q.outside
  sleep-IsMonotone w q m p = subst IsMonotone (sym p.same) m

  since : (order : BrokerOrder D) (w q : World D) → Passed (reserve_order order w).2 q → Passed w q
  since order w q p = Passed-trans w (reserve_order order w).2 q (reserve_order-Passed order w) p

  pub reserve_loop_total :
      (f poll deadline : ℕ) (order : BrokerOrder D) (w : World D)
      → IsMonotone w.outside
      → deadline ≤ now w + f * poll
      → Returns (reserve_loop (suc f) poll deadline order w)
  unfolding reserve_loop
  reserve_loop_total zero poll deadline order w m h =
      on_reserve_total poll deadline (reserve_loop zero poll deadline) (reserve_order order w)
        λ o q p early. absurd (ground (arith, now-Passed w q m (since order w q p)))
  reserve_loop_total (suc f) poll deadline order w m h =
      on_reserve_total poll deadline (reserve_loop (suc f) poll deadline) (reserve_order order w)
        λ o q p early.
          let passed = since order w q p in
          reserve_loop_total f poll deadline o (record (turn q) { slept = q.slept + poll })
            (sleep-IsMonotone w q m passed) (omega (arith, after_sleep poll w q m passed))

  -- With a clock that does not run backwards, reserveOrder returns within one round more than the
  -- number of poll intervals that cover the wait.
  pub reserve_total :
      (rounds : ℕ) (s : PregaoServer D) (order : BrokerOrder D) (w : World D)
      → IsMonotone w.outside
      → s.reservation_wait ≤ rounds * s.reservation_poll
      → Returns (reserve (suc rounds) s order w)
  unfolding reserve
  reserve_total rounds s order w m h =
      reserve_loop_total rounds s.reservation_poll (now w + s.reservation_wait) order (turn w) m
        (omega (arith, m w.step))
