-- ===== src/Service/Execute/Quiet.antt =====
-- reserveOrder and releaseReservation make no call and hold no secret; neither does what follows the
-- broker's answer.
use pregao.Prelude.{
  ◌⊎◌, none, some, ℕ, zero, suc, ◌+◌, ◌≡◌, refl, ◌∙◌, true, false, Bool, Option, arith, Bool-cases,
  Option-cases, inl, inr, ltb,
}
use pregao.Errors.{Result, ok, err}
use pregao.Decimal.{Decimals, above}
use pregao.Broker.{OrderResult}
use pregao.Uuid.{Uuids}
use pregao.Db.Models.{BrokerOrder}
use pregao.Db.Orders.{
  confirm_order, update_order_fill, get_order_by_provider_order_id, reserve_order, release_order,
  get_order_by_intent_id, get_order_by_idempotency_key,
}
use pregao.World.{World, turn, now}
use pregao.Service.Server.{PregaoServer, ExecuteTradeRequest}
use pregao.Worker.{FillProcessor, FillEvent, process_fill, apply_fill, record_fill, settle, capture}
use pregao.Service.Execute.{confirm, sync_fill, fill_event}
use pregao.Service.Reserve.{
  Outcome, Existing, in_flight, recorded, unreadable, reserve, reserve_loop, on_reserve,
  on_existing, wait_turn, read_existing, load_existing, or_by_key,
}
use pregao.Service.Reserve.Outcomes.{Holds}

module _ {D : Type 0} where
  -- The calls and the secrets of the request are the same.
  abbrev pub Quiet : World D → World D → Type 0
  Quiet w q = (q.secrets ≡ w.secrets) × (q.calls ≡ w.calls)

  Quiet-trans : (w v q : World D) → Quiet w v → Quiet v q → Quiet w q
  Quiet-trans w v q a b = (b.0 ∙ a.0, b.1 ∙ a.1)

module _ {D : Type 0} ⦃d : Decimals D⦄ where
  reserve_order-Quiet : (o : BrokerOrder D) (w : World D) → Quiet w (reserve_order o w).2
  unfolding reserve_order
  reserve_order-Quiet o w = ground arith

  pub release_order-Quiet : (id : ℕ) (w : World D) → Quiet w (release_order id w).1
  unfolding release_order
  release_order-Quiet id w = ground arith

  or_by_key-Quiet :
      (o : BrokerOrder D) (x : Result (BrokerOrder D) × World D) → Quiet x.1 (or_by_key o x).1
  unfolding get_order_by_idempotency_key
  or_by_key-Quiet o (ok e, q) = (refl, refl)
  or_by_key-Quiet o (err e, q) = ground arith

  load_existing-Quiet : (o : BrokerOrder D) (w : World D) → Quiet w (load_existing o w).1
  unfolding load_existing get_order_by_intent_id
  load_existing-Quiet o w = or_by_key-Quiet o (get_order_by_intent_id o.trade_intent_id w)

module _ {D : Type 0} ⦃d : Decimals D⦄ ⦃u : Uuids⦄ where
  -- An outcome with the calls and the secrets of `w`.
  abbrev pub KeepsQuiet : World D → Outcome D → Type 0
  KeepsQuiet w x = Quiet w x.2

  wait_turn-Quiet :
      (poll deadline : ℕ) (again : World D → Option (Outcome D)) (o : BrokerOrder D) (w q : World D)
      → Quiet w q
      → ((v : World D) → Quiet w v → Holds (KeepsQuiet w) (again v))
      → Holds (KeepsQuiet w) (wait_turn poll deadline again o q)
  wait_turn-Quiet poll deadline again o w q same h = elim (Bool-cases (ltb (now q) deadline)) [
    | inr late ↦ rw late same
    | inl early ↦ elim (Option-cases (q.outside.ctx_error q.step)) [
      | inl going ↦ rw (early, going) (h _ same)
      | inr (e, done) ↦ rw (early, done) same
    ]
  ]

  on_existing-Quiet :
      (poll deadline : ℕ) (again : World D → Option (Outcome D)) (o : BrokerOrder D)
      (x : Existing D) (w q : World D)
      → Quiet w q
      → ((v : World D) → Quiet w v → Holds (KeepsQuiet w) (again v))
      → Holds (KeepsQuiet w) (on_existing poll deadline again o x q)
  on_existing-Quiet poll deadline again o in_flight w q same h =
      wait_turn-Quiet poll deadline again o w q same h
  on_existing-Quiet poll deadline again o (recorded e) w q same h = same
  on_existing-Quiet poll deadline again o (unreadable e) w q same h = same

  on_reserve-Quiet :
      (poll deadline : ℕ) (again : BrokerOrder D → World D → Option (Outcome D))
      (x : Result Bool × BrokerOrder D × World D) (w : World D)
      → Quiet w x.2
      → ((o : BrokerOrder D) (v : World D) → Quiet w v → Holds (KeepsQuiet w) (again o v))
      → Holds (KeepsQuiet w) (on_reserve poll deadline again x)
  on_reserve-Quiet poll deadline again (err e, o, q) w same h = same
  on_reserve-Quiet poll deadline again (ok true, o, q) w same h = same
  on_reserve-Quiet poll deadline again (ok false, o, q) w same h =
      on_existing-Quiet poll deadline (again o) o (read_existing (load_existing o q).0) w
        (load_existing o q).1 (Quiet-trans w q (load_existing o q).1 same (load_existing-Quiet o q))
        (h o)

  reserve_loop-Quiet :
      (fuel poll deadline : ℕ) (o : BrokerOrder D) (w q : World D)
      → Quiet w q
      → Holds (KeepsQuiet w) (reserve_loop fuel poll deadline o q)
  unfolding reserve_loop
  reserve_loop-Quiet zero poll deadline o w q same = tt
  reserve_loop-Quiet (suc fuel) poll deadline o w q same =
      on_reserve-Quiet poll deadline (λ o' v. reserve_loop fuel poll deadline o' v)
        (reserve_order o q) w (Quiet-trans w q (reserve_order o q).2 same (reserve_order-Quiet o q))
        (λ o' v e. reserve_loop-Quiet fuel poll deadline o' w v e)

  pub reserve-Quiet :
      (fuel : ℕ) (s : PregaoServer D) (o : BrokerOrder D) (w : World D)
      → Holds (KeepsQuiet w) (reserve fuel s o w)
  unfolding reserve
  reserve-Quiet fuel s o w =
      reserve_loop-Quiet fuel s.reservation_poll (now w + s.reservation_wait) o w (turn w)
        (refl, refl)

  settle-secrets :
      (p : FillProcessor D) (o : BrokerOrder D) (e : FillEvent D) (w : World D)
      → (settle p o e w).1.secrets ≡ w.secrets
  unfolding settle capture
  settle-secrets p o e w = ground arith

  record_fill-secrets :
      (o : BrokerOrder D) (e : FillEvent D) (x : Result (Unit {0}) × World D)
      → (record_fill o e x).1.secrets ≡ x.1.secrets
  unfolding record_fill update_order_fill
  record_fill-secrets o e (err m, w) = refl
  record_fill-secrets o e (ok _, w) = ground arith

  apply_fill-secrets :
      (p : FillProcessor D) (e : FillEvent D) (x : Result (BrokerOrder D) × World D)
      → (apply_fill p e x).1.secrets ≡ x.1.secrets
  unfolding apply_fill
  apply_fill-secrets p e (err m, w) = refl
  apply_fill-secrets p e (ok o, w) =
      record_fill-secrets o e (settle p o e w) ∙ settle-secrets p o e w

  process_fill-secrets :
      (p : FillProcessor D) (e : FillEvent D) (w : World D)
      → (process_fill p e w).1.secrets ≡ w.secrets
  unfolding process_fill get_order_by_provider_order_id
  process_fill-secrets p e w = ground (
    arith,
    apply_fill-secrets p e (get_order_by_provider_order_id e.provider e.provider_order_id w),
  )

  -- The server's processor is the one of the worker, or there is none.
  abbrev pub FillsByWorker : PregaoServer D → Type 0
  FillsByWorker server =
      (server.fill_processor ≡ none)
      ⊎ ((p : FillProcessor D) × (server.fill_processor ≡ some (process_fill p)))

  confirm-secrets :
      (s : PregaoServer D) (o : BrokerOrder D) (r : OrderResult D) (w : World D)
      → (confirm s o r w).1.secrets ≡ w.secrets
  unfolding confirm confirm_order
  confirm-secrets s o r w = ground arith

  sync_fill-secrets :
      (s : PregaoServer D) (req : ExecuteTradeRequest) (r : OrderResult D) (w : World D)
      → FillsByWorker s
      → (sync_fill s req r w).secrets ≡ w.secrets
  unfolding sync_fill
  sync_fill-secrets s req r w (inl absent) = rw (absent, sync_fill) refl
  sync_fill-secrets s req r w (inr (p, is)) = elim (Bool-cases (above r.executed_quantity d.zero)) [
    | inl filled ↦ rw (is, sync_fill) (rw filled (process_fill-secrets p (fill_event s req r) w))
    | inr nothing ↦ rw (is, sync_fill) (rw nothing refl)
  ]

  -- From the broker's answer to the zeroing the secrets stay.
  pub after_place-secrets :
      (s : PregaoServer D) (req : ExecuteTradeRequest) (o : BrokerOrder D) (r : OrderResult D)
      (w : World D)
      → FillsByWorker s
      → (sync_fill s req r (confirm s o r w).1).secrets ≡ w.secrets
  after_place-secrets s req o r w worker =
      sync_fill-secrets s req r (confirm s o r w).1 worker ∙ confirm-secrets s o r w
