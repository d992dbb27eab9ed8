-- ===== src/Service/Interleaving/Rounds.antt =====
-- The rounds of reserveOrder as steps of one request among many: where the loop leaves the request.
use pregao.Prelude.{
  ℕ, zero, suc, ◌+◌, ◌≡◌, ◌≢◌, refl, inl, inr, Bool, true, false, Option, Bool-cases, Option-cases,
  ltb,
}
use pregao.Prelude.Text.{◌=ₛ◌}
use pregao.Errors.{Sentinel, Result, ok, err, errors_is}
use pregao.Decimal.{Decimals}
use pregao.Uuid.{Uuids}
use pregao.Db.Models.{BrokerOrder, status_pending}
use pregao.Db.Orders.{reserve_order}
use pregao.World.{World, Outside, turn, now}
use pregao.Service.Server.{PregaoServer}
use pregao.Service.Reserve.{
  Outcome, load_existing, read_existing, wait_turn, on_existing, on_reserve, reserve_loop, reserve,
}
use pregao.Service.Reserve.Outcomes.{Holds}
use pregao.Service.Interleaving.{reserving, holding, System}
use pregao.Service.Interleaving.Environment.{Plays, Shows, observe, stays}
use pregao.Service.Interleaving.Seen.{Seen, load_existing-Seen}
use pregao.Service.Interleaving.Reserving.{
  Prepared-keys, Prepared, order-Prepared, reserve_order-After, load_existing-Goes, leaving, Ends,
  Ends-after, stage_after,
}

module _ {D : Type 0} ⦃d : Decimals D⦄ ⦃u : Uuids⦄ (order : ℕ → BrokerOrder D) (i : ℕ)
    (out : Outside D) (Possible : ℕ → System D → Type 0) (plays : Plays order i out Possible)
    (ne : (order i).id ≢ 0) where
  wait_turn-Ends :
      (poll deadline : ℕ) (again : World D → Option (Outcome D)) (o : BrokerOrder D) (w : World D)
      (s : System D)
      → Prepared order i out Possible plays o
      → Shows order i out Possible w s
      → s.stage i ≡ reserving
      → ((q : World D) (t : System D)
          → Shows order i out Possible q t
          → t.stage i ≡ reserving
          → Holds (Ends order i out Possible plays t q) (again q))
      → Holds (Ends order i out Possible plays s w) (wait_turn poll deadline again o w)
  wait_turn-Ends poll deadline again o w s p shown at rest =
      elim (Bool-cases (ltb (now w) deadline)) [
        | inr late ↦ rw late ((leaving order i out Possible plays w s shown at, refl), p.named, tt)
        | inl early ↦ elim (Option-cases (w.outside.ctx_error w.step)) [
          | inr (e, over) ↦
              rw (early, over)
                ((leaving order i out Possible plays w s shown at, refl), p.named, tt)
          | inl live ↦
              rw (early, live)
                (Ends-after order i out Possible plays s reserving w
                  (record (turn w) { slept = w.slept + poll })
                  (again (record (turn w) { slept = w.slept + poll }))
                  (observe order i out Possible plays w s reserving shown at, refl)
                  (λ t st at_t. rest (record (turn w) { slept = w.slept + poll }) t st at_t))
        ]
      ]

  on_existing-Ends :
      (poll deadline : ℕ) (again : World D → Option (Outcome D)) (o : BrokerOrder D)
      (r : Result (BrokerOrder D)) (w : World D) (s : System D)
      → Prepared order i out Possible plays o
      → Shows order i out Possible w s
      → s.stage i ≡ reserving
      → ((q : World D) (t : System D)
          → Shows order i out Possible q t
          → t.stage i ≡ reserving
          → Holds (Ends order i out Possible plays t q) (again q))
      → ((x : BrokerOrder D)
          → r ≡ ok x
          → (x.status =ₛ status_pending) ≡ false
          → Seen order i out Possible x)
      → Holds
          (Ends order i out Possible plays s w)
          (on_existing poll deadline again o (read_existing r) w)
  unfolding read_existing
  on_existing-Ends poll deadline again o (err e) w s p shown at rest seen =
      elim (Bool-cases (errors_is e Sentinel.order_not_found)) [
        | inl gone ↦ rw gone (wait_turn-Ends poll deadline again o w s p shown at rest)
        | inr broken ↦
            rw broken ((leaving order i out Possible plays w s shown at, refl), p.named, tt)
      ]
  on_existing-Ends poll deadline again o (ok x) w s p shown at rest seen =
      elim (Bool-cases (x.status =ₛ status_pending)) [
        | inl pending ↦ rw pending (wait_turn-Ends poll deadline again o w s p shown at rest)
        | inr settled ↦
            rw settled (
              (leaving order i out Possible plays w s shown at, refl),
              p.named,
              seen x refl settled,
            )
      ]

  on_reserve-Ends :
      (poll deadline : ℕ) (again : BrokerOrder D → World D → Option (Outcome D)) (r : Result Bool)
      (o : BrokerOrder D) (w : World D) (s : System D)
      → Prepared order i out Possible plays o
      → Shows order i out Possible w s
      → s.stage i ≡ stage_after order i out Possible plays r
      → ((q : World D) (t : System D)
          → Shows order i out Possible q t
          → t.stage i ≡ reserving
          → Holds (Ends order i out Possible plays t q) (again o q))
      → Holds (Ends order i out Possible plays s w) (on_reserve poll deadline again (r, o, w))
  on_reserve-Ends poll deadline again (err e) o w s p shown at rest =
      ((leaving order i out Possible plays w s shown at, refl), p.named, tt)
  on_reserve-Ends poll deadline again (ok true) o w s p shown at rest =
      ((stays order i out Possible w s holding shown at, refl), p.named, tt)
  on_reserve-Ends poll deadline again (ok false) o w s p shown at rest =
      let q = (load_existing o w).1 in
      let found = (load_existing o w).0 in
      Ends-after order i out Possible plays s reserving w q
        (on_existing poll deadline (again o) o (read_existing found) q)
        (load_existing-Goes order i out Possible plays o w s shown at)
        (λ t st at_t.
          on_existing-Ends poll deadline (again o) o found q t p st at_t rest (λ x is settled.
            load_existing-Seen order i out Possible plays o x w s
              (Prepared-keys order i out Possible plays o p) shown at is settled))

  reserve_loop-Ends :
      (fuel poll deadline : ℕ) (o : BrokerOrder D) (w : World D) (s : System D)
      → Prepared order i out Possible plays o
      → Shows order i out Possible w s
      → s.stage i ≡ reserving
      → Holds (Ends order i out Possible plays s w) (reserve_loop fuel poll deadline o w)
  unfolding reserve_loop
  reserve_loop-Ends zero poll deadline o w s p shown at = tt
  reserve_loop-Ends (suc fuel) poll deadline o w s p shown at =
      let r = (reserve_order o w).0 in
      let o' = (reserve_order o w).1 in
      let q = (reserve_order o w).2 in
      let again = λ (x : BrokerOrder D) (v : World D). reserve_loop fuel poll deadline x v in
      let (after, p', silent) =
        reserve_order-After order i out Possible plays o w s ne p shown at in
      Ends-after order i out Possible plays s (stage_after order i out Possible plays r) w q
        (on_reserve poll deadline again (r, o', q)) (after, silent)
        (λ t st at_t.
          on_reserve-Ends poll deadline again r o' q t p' st at_t
            (λ v x sx ax. reserve_loop-Ends fuel poll deadline o' v x p' sx ax))

  -- reserveOrder, when it returns: steps of the other requests and at most two of its own, after
  -- which the request holds the reservation or is done.
  pub reserve-Ends :
      (fuel : ℕ) (server : PregaoServer D) (w : World D) (s : System D)
      → Shows order i out Possible w s
      → s.stage i ≡ reserving
      → Holds (Ends order i out Possible plays s w) (reserve fuel server (order i) w)
  unfolding reserve
  reserve-Ends fuel server w s shown at =
      let o = order i in
      let limit = now w + server.reservation_wait in
      Ends-after order i out Possible plays s reserving w (turn w)
        (reserve_loop fuel server.reservation_poll limit o (turn w))
        (observe order i out Possible plays w s reserving shown at, refl)
        (λ t st at_t.
          reserve_loop-Ends fuel server.reservation_poll limit o (turn w) t
            (order-Prepared order i out Possible plays) st at_t)
