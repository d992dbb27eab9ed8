-- ===== src/Worker/Settlement.antt =====
-- What ProcessFill leaves behind: nothing in the table when it fails, one settlement when it ends.
use pregao.Prelude.{
  ℕ, ◌+◌, ◌≤◌, ◌≡◌, refl, ◌∙◌, ap, sym, subst, true, false, Bool-cases, inl, inr, arith, String,
  List, [], ◌∷◌, update_if,
}
use pregao.Errors.{Result, ok, err, failed}
use pregao.Decimal.{Decimals, at_most}
use pregao.Uuid.{Uuids}
use pregao.Calls.{
  Call, capture_hold, credit, sync_broker_execution, open_broker_account, place_market_order,
}
use pregao.Db.Models.{BrokerOrder}
use pregao.Db.Orders.{get_order_by_provider_order_id, update_order_fill, is_placed_as, filled_to}
use pregao.World.{World, now, IsAlone}
use pregao.Worker.Fill.{
  FillEvent, FillProcessor, settle, record_fill, apply_fill, process_fill, new_status,
  new_filled_quantity, new_average_price,
}

module _ {D : Type 0} ⦃d : Decimals D⦄ ⦃u : Uuids⦄ where
  abbrev pub SameRows : World D → World D → Type 0
  SameRows w q = (q.orders ≡ w.orders) × (q.outside ≡ w.outside)

  settle-SameRows :
      (p : FillProcessor D) (o : BrokerOrder D) (e : FillEvent D) (w : World D)
      → SameRows w (settle p o e w).1
  unfolding settle
  settle-SameRows p o e w = ground arith

  -- The calls that move money or shares.
  abbrev pub settles : Call D → ℕ
  settles (capture_hold _) = 1
  settles (credit _) = 1
  settles (sync_broker_execution _) = 1
  settles (open_broker_account _) = 0
  settles (place_market_order _) = 0

  abbrev pub settlements : List (Call D) → ℕ
  settlements [] = 0
  settlements (c ∷ cs) = settles c + settlements cs

  settle-settlements :
      (p : FillProcessor D) (o : BrokerOrder D) (e : FillEvent D) (w : World D)
      → settlements (settle p o e w).1.calls ≤ settlements w.calls + 1
  unfolding settle
  settle-settlements p o e w = ground arith

  update_fails :
      (pr i s : String) (q p : D) (w : World D)
      → IsAlone w.outside
      → failed (update_order_fill pr i s q p w).0 ≡ true
      → (update_order_fill pr i s q p w).1.orders ≡ w.orders
  unfolding update_order_fill
  update_fails pr i s q p w alone h = ground (arith, alone w.step w.orders)

  update_calls :
      (pr i s : String) (q p : D) (w : World D) → (update_order_fill pr i s q p w).1.calls ≡ w.calls
  unfolding update_order_fill
  update_calls pr i s q p w = ground arith

  record_fill-clean :
      (o : BrokerOrder D) (e : FillEvent D) (r : Result (Unit {0})) (w v : World D)
      → IsAlone w.outside
      → SameRows w v
      → failed (record_fill o e (r, v)).0 ≡ true
      → (record_fill o e (r, v)).1.orders ≡ w.orders
  unfolding record_fill
  record_fill-clean o e (err m) w v alone same h = same.0
  record_fill-clean o e (ok _) w v alone same h =
      update_fails o.provider o.provider_order_id (new_status o e) (new_filled_quantity o e)
        (new_average_price o e) v (subst IsAlone (sym same.1) alone) (ground arith)
      ∙ same.0

  apply_fill-clean :
      (p : FillProcessor D) (e : FillEvent D) (r : Result (BrokerOrder D)) (w v : World D)
      → IsAlone w.outside
      → SameRows w v
      → failed (apply_fill p e (r, v)).0 ≡ true
      → (apply_fill p e (r, v)).1.orders ≡ w.orders
  unfolding apply_fill
  apply_fill-clean p e (err m) w v alone same h = same.0
  apply_fill-clean p e (ok o) w v alone same h =
      let s = settle-SameRows p o e v in
      record_fill-clean o e (settle p o e v).0 w (settle p o e v).1 alone
        (s.0 ∙ same.0, s.1 ∙ same.1) h

  lookup-SameRows :
      (e : FillEvent D) (w : World D)
      → IsAlone w.outside
      → SameRows w (get_order_by_provider_order_id e.provider e.provider_order_id w).1
  unfolding get_order_by_provider_order_id
  lookup-SameRows e w alone = (alone w.step w.orders, refl)

  -- With no other request between, a ProcessFill that returns an error has changed no row: a fill
  -- whose settlement failed is not recorded, on any of its error paths.
  pub process_fill-clean :
      (p : FillProcessor D) (e : FillEvent D) (w : World D)
      → IsAlone w.outside
      → failed (process_fill p e w).0 ≡ true
      → (process_fill p e w).1.orders ≡ w.orders
  unfolding process_fill
  process_fill-clean p e w alone h = ground (
    arith,
    apply_fill-clean p e (get_order_by_provider_order_id e.provider e.provider_order_id w).0 w
        (get_order_by_provider_order_id e.provider e.provider_order_id w).1 alone
        (lookup-SameRows e w alone),
  )

  pub record_fill-calls :
      (o : BrokerOrder D) (e : FillEvent D) (x : Result (Unit {0}) × World D)
      → (record_fill o e x).1.calls ≡ x.1.calls
  unfolding record_fill
  record_fill-calls o e (err m, v) = refl
  record_fill-calls o e (ok _, v) = update_calls _ _ _ _ _ v

  apply_fill-settlements :
      (p : FillProcessor D) (e : FillEvent D) (x : Result (BrokerOrder D) × World D)
      → settlements (apply_fill p e x).1.calls ≤ settlements x.1.calls + 1
  unfolding apply_fill
  apply_fill-settlements p e (err m, v) = omega arith
  apply_fill-settlements p e (ok o, v) =
      rw (record_fill-calls o e (settle p o e v)) (settle-settlements p o e v)

  -- One ProcessFill asks for at most one settlement, whichever clients are connected and whatever
  -- they and the database answer.
  pub process_fill-settlements :
      (p : FillProcessor D) (e : FillEvent D) (w : World D)
      → settlements (process_fill p e w).1.calls ≤ settlements w.calls + 1
  unfolding process_fill get_order_by_provider_order_id
  process_fill-settlements p e w = ground (
    arith,
    apply_fill-settlements p e (get_order_by_provider_order_id e.provider e.provider_order_id w),
  )

  -- What a ProcessFill that ended well has done.
  abbrev pub Recorded : FillEvent D → World D → World D → Type 0
  Recorded e w q =
      (o : BrokerOrder D) × (time : ℕ) × ((get_order_by_provider_order_id e.provider
          e.provider_order_id w).0
        ≡ ok o)
      × (q.orders
          ≡ update_if (is_placed_as o.provider o.provider_order_id)
              (filled_to (new_status o e) (new_filled_quantity o e) (new_average_price o e) time)
              w.orders)

  update_ok :
      (pr i s : String) (q p : D) (w : World D)
      → IsAlone w.outside
      → failed (update_order_fill pr i s q p w).0 ≡ false
      → (update_order_fill pr i s q p w).1.orders
        ≡ update_if (is_placed_as pr i) (filled_to s q p (now w)) w.orders
  unfolding update_order_fill
  update_ok pr i s q p w alone h = ground (arith, alone w.step w.orders)

  record_fill-ok :
      (o : BrokerOrder D) (e : FillEvent D) (r : Result (Unit {0})) (w v : World D)
      → IsAlone w.outside
      → SameRows w v
      → failed (record_fill o e (r, v)).0 ≡ false
      → (record_fill o e (r, v)).1.orders
        ≡ update_if
            (is_placed_as o.provider o.provider_order_id)
            (filled_to (new_status o e) (new_filled_quantity o e) (new_average_price o e) (now v))
            w.orders
  unfolding record_fill
  record_fill-ok o e (err m) w v alone same h = cc
  record_fill-ok o e (ok _) w v alone same h =
      update_ok o.provider o.provider_order_id (new_status o e) (new_filled_quantity o e)
        (new_average_price o e) v (subst IsAlone (sym same.1) alone) (ground arith)
      ∙ ap
          (update_if (is_placed_as o.provider o.provider_order_id)
            (filled_to (new_status o e) (new_filled_quantity o e) (new_average_price o e) (now v)))
          same.0

  apply_fill-ok :
      (p : FillProcessor D) (e : FillEvent D) (r : Result (BrokerOrder D)) (w v : World D)
      → IsAlone w.outside
      → (get_order_by_provider_order_id e.provider e.provider_order_id w).0 ≡ r
      → SameRows w v
      → failed (apply_fill p e (r, v)).0 ≡ false
      → Recorded e w (apply_fill p e (r, v)).1
  unfolding apply_fill
  apply_fill-ok p e (err m) w v alone found same h = cc
  apply_fill-ok p e (ok o) w v alone found same h =
      let s = settle-SameRows p o e v in
      (
        o,
        now (settle p o e v).1,
        found,
        record_fill-ok o e (settle p o e v).0 w (settle p o e v).1 alone
            (s.0 ∙ same.0, s.1 ∙ same.1) h,
      )

  -- With no other request between, a ProcessFill that returns no error had a positive quantity and
  -- price, found the order, and set the rows of that broker order id to the new status, the summed
  -- quantity and the new average price, and no other row.
  pub process_fill-ok :
      (p : FillProcessor D) (e : FillEvent D) (w : World D)
      → IsAlone w.outside
      → failed (process_fill p e w).0 ≡ false
      → (at_most e.executed_quantity d.zero ≡ false)
        × (at_most e.fill_price d.zero ≡ false)
        × Recorded e w (process_fill p e w).1
  unfolding process_fill
  process_fill-ok p e w alone h = elim (Bool-cases (at_most e.executed_quantity d.zero)) [
    | inl bad ↦ absurd (ground arith)
    | inr positive ↦ elim (Bool-cases (at_most e.fill_price d.zero)) [
      | inl bad ↦ absurd (ground arith)
      | inr priced ↦ (
        positive,
        priced,
        rw (positive, priced)
            (apply_fill-ok p e _ w _ alone refl (lookup-SameRows e w alone) (ground arith)),
      )
    ]
  ]
