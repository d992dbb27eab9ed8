-- ===== src/Service/Interleaving/Reserving.antt =====
-- The loop of reserveOrder as steps of one request among many.
use pregao.Prelude.{
  ap, ℕ, ◌≡◌, ◌≢◌, refl, ◌∙◌, inl, inr, Bool, true, false, not, ◌&&◌, Option, none, some, ◌∷◌,
  arith, ◌==◌, Bool-cases, Option-cases, any, if◌then◌else◌,
}
use pregao.Prelude.Text.{◌=ₛ◌}
use pregao.Errors.{Sentinel, Result, ok, err, Reply, reply, errors_is}
use pregao.Decimal.{Decimals}
use pregao.Db.Models.{BrokerOrder}
use pregao.Db.Orders.{
  reserve_order, prepare, insert_order, insert_row, conflicts, get_order_by_intent_id,
  get_order_by_idempotency_key,
}
use pregao.World.{World, Outside, turn, now}
use pregao.Service.Reserve.{Outcome, load_existing, or_by_key}
use pregao.Service.Reserve.Outcomes.{Holds}
use pregao.Service.Interleaving.{Stage, reserving, holding, done, System, reserves, leaves}
use pregao.Service.Interleaving.Seen.{Seen}
use pregao.Service.Interleaving.Environment.{
  Reach-trans, Plays, Shows, After, then_After, stays, observe, moves,
}

pick : ℕ → ℕ → ℕ
pick a b = if a == 0 then b else a

module _ {D : Type 0} ⦃d : Decimals D⦄ where
  -- Of two preparations of an order the first counts.
  prepare-prepare :
      (f m f' m' : ℕ) (o : BrokerOrder D)
      → prepare f' m' (prepare f m o) ≡ prepare (pick f f') (pick m m') o
  unfolding prepare pick
  prepare-prepare f m f' m' o = ground arith

module _ {D : Type 0} ⦃d : Decimals D⦄ (order : ℕ → BrokerOrder D) (i : ℕ) (out : Outside D)
    (Possible : ℕ → System D → Type 0) (plays : Plays order i out Possible) where
  -- However often the loop has prepared the order, it inserts a row of request `i`.
  pub record Prepared (o : BrokerOrder D) : Type 0 where
    pub named : o.id ≡ (order i).id
    again : (f m : ℕ) → (f' : ℕ) × (m' : ℕ) × (prepare f m o ≡ prepare f' m' (order i))

  pub order-Prepared : Prepared (order i)
  order-Prepared = record { named = refl; again = λ f m. (f, m, refl) }

  prepare-Prepared :
      (f m : ℕ) (o : BrokerOrder D) → (order i).id ≢ 0 → Prepared o → Prepared (prepare f m o)
  unfolding prepare
  prepare-Prepared f m o ne p = record {
    named = ground (arith, p.named);
    again = λ f' m'.
        let (f'', m'', e) = p.again (pick f f') (pick m m') in
        (f'', m'', prepare-prepare f m f' m' o ∙ e);
  }

  -- Where the answer of ReserveOrder puts the request.
  abbrev pub stage_after : Result Bool → Stage
  stage_after (ok true) = holding
  stage_after _ = reserving

  inserting :
      (o : BrokerOrder D) (f m : ℕ) (w : World D) (s : System D)
      → o ≡ prepare f m (order i)
      → any (conflicts (insert_row o)) w.orders ≡ false
      → Shows order i out Possible w s
      → s.stage i ≡ reserving
      → After order i out Possible s holding (record w { orders = insert_row o ∷ w.orders })
  unfolding insert_order
  inserting o f m w s is free shown at =
      moves order i out Possible plays w (record w { orders = insert_row o ∷ w.orders }) s holding
        (insert_row o ∷ w.orders) s.placed shown
        (reserves i f m (insert_row o ∷ w.orders) at (rw (shown.1, ← is) (rw free refl)) refl) refl
        refl refl

  pub reserve_order-After :
      (o : BrokerOrder D) (w : World D) (s : System D)
      → (order i).id ≢ 0
      → Prepared o
      → Shows order i out Possible w s
      → s.stage i ≡ reserving
      → let (r, o', q) = reserve_order o w in
        After order i out Possible s (stage_after r) q × Prepared o' × (q.calls ≡ w.calls)
  unfolding reserve_order insert_order
  reserve_order-After o w s ne p shown at =
      let o' = prepare (w.outside.new_uuid w.step) (now w) o in
      let p' = prepare-Prepared (w.outside.new_uuid w.step) (now w) o ne p in
      let (t, r, shown', at') = observe order i out Possible plays w s reserving shown at in
      elim (Option-cases (w.outside.fault w.step)) [
        | inr (e, down) ↦ rw (down, reserve_order) ((t, r, shown', at'), p', refl)
        | inl up ↦ elim (Bool-cases (any (conflicts (insert_row o')) (turn w).orders)) [
          | inl taken ↦ rw (up, reserve_order) (rw taken ((t, r, shown', at'), p', refl))
          | inr free ↦
              rw (up, reserve_order)
                (rw free (
                  then_After order i out Possible s (turn w)
                      (record (turn w) { orders = insert_row o' ∷ (turn w).orders }) reserving
                      holding (t, r, shown', at')
                      (λ v sv av.
                        let (f, m, e) = p.again (w.outside.new_uuid w.step) (now w) in
                        inserting o' f m (turn w) v e free sv av),
                  p',
                  refl,
                ))
        ]
      ]

  pub Prepared-keys :
      (o : BrokerOrder D)
      → Prepared o
      → (o.trade_intent_id ≡ (order i).trade_intent_id)
        × (o.tenant_id ≡ (order i).tenant_id)
        × (o.idempotency_key ≡ (order i).idempotency_key)
  unfolding prepare
  Prepared-keys o p =
      let (f, m, e) = p.again 0 0 in
      (ap (λ y. y.trade_intent_id) e, ap (λ y. y.tenant_id) e, ap (λ y. y.idempotency_key) e)

  -- The request goes from `s` to `b` without a call.
  abbrev pub Goes : System D → World D → Stage → World D → Type 0
  Goes s w b q = After order i out Possible s b q × (q.calls ≡ w.calls)

  or_by_key-Goes :
      (o : BrokerOrder D) (r : Result (BrokerOrder D)) (w : World D) (s : System D)
      → Shows order i out Possible w s
      → s.stage i ≡ reserving
      → Goes s w reserving (or_by_key o (r, w)).1
  unfolding get_order_by_idempotency_key
  or_by_key-Goes o (ok x) w s shown at = (stays order i out Possible w s reserving shown at, refl)
  or_by_key-Goes o (err e) w s shown at =
      elim (Bool-cases (errors_is e Sentinel.order_not_found && not (o.idempotency_key =ₛ ""))) [
        | inl again ↦ rw again (observe order i out Possible plays w s reserving shown at, refl)
        | inr ends ↦ rw ends (stays order i out Possible w s reserving shown at, refl)
      ]

  pub load_existing-Goes :
      (o : BrokerOrder D) (w : World D) (s : System D)
      → Shows order i out Possible w s
      → s.stage i ≡ reserving
      → Goes s w reserving (load_existing o w).1
  unfolding load_existing get_order_by_intent_id
  load_existing-Goes o w s shown at =
      let (t, r, shown', at') = observe order i out Possible plays w s reserving shown at in
      let ((t', to', shown2, at2), silent) =
        or_by_key-Goes o (get_order_by_intent_id o.trade_intent_id w).0 (turn w) t shown' at' in
      ((t', Reach-trans order r to', shown2, at2), silent)

  pub leaving :
      (w : World D) (s : System D)
      → Shows order i out Possible w s
      → s.stage i ≡ reserving
      → After order i out Possible s done w
  leaving w s shown at =
      moves order i out Possible plays w w s done s.rows s.placed shown (leaves i at refl) refl refl
        shown.1

  -- Where the outcome of reserveOrder puts the request.
  abbrev pub stage_at : Reply (Option (BrokerOrder D)) → Stage
  stage_at (reply none) = holding
  stage_at _ = done

  -- The order that answers a duplicate is recorded.
  abbrev pub Told : Reply (Option (BrokerOrder D)) → Type 0
  Told (reply (some x)) = Seen order i out Possible x
  Told _ = Unit

  abbrev pub Ends : System D → World D → Outcome D → Type 0
  Ends s w (r, o, q) = Goes s w (stage_at r) q × (o.id ≡ (order i).id) × Told r

  pub Ends-after :
      (s : System D) (b : Stage) (w v : World D) (x : Option (Outcome D))
      → Goes s w b v
      → ((t : System D) → Shows order i out Possible v t → t.stage i ≡ b → Holds (Ends t v) x)
      → Holds (Ends s w) x
  Ends-after s b w v none go f = tt
  Ends-after s b w v (some (r, o, q)) ((t, to, shown, at), silent) f =
      let (((t', to', shown', at'), silent'), named, told) = f t shown at in
      (((t', Reach-trans order to to', shown', at'), silent' ∙ silent), named, told)
