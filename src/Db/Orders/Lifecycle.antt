-- ===== src/Db/Orders/Lifecycle.antt =====
-- The life of one row of broker_orders: reserved, then confirmed or released. The statements are
-- those of orders_repo.go, and here no other request comes between.
use pregao.Prelude.{
  ℕ, suc, ◌≡◌, refl, Bool, true, false, String, List, [], ◌∷◌, arith, any, remove_if, update_if,
  ◌⊎◌, ap, ◌∙◌,
}
use pregao.Prelude.Text.{◌=ₛ◌}
use text.Mathlib.TextEquality.{eq_iff}
use pregao.Errors.{ok, err, sentinel, Sentinel}
use pregao.Decimal.{Decimals}
use pregao.Db.Models.{Row, BrokerOrder, status_pending}
use pregao.World.{World, turn, IsAlone, IsUp, now}
use pregao.Db.Orders.{
  conflicts, insert_row, insert_order, prepare, reserve_order, confirm_order, release_order,
  get_order_by_intent_id, confirmed, is_reservation, scan_row,
}

module _ {D : Type 0} where
  -- A row without a conflict shares its id with none.
  remove_if-no_conflict :
      (r : Row D) (rows : List (Row D))
      → any (conflicts r) rows ≡ false
      → remove_if (is_reservation r.id) rows ≡ rows
  unfolding conflicts
  remove_if-no_conflict r [] h = refl
  remove_if-no_conflict r (x ∷ rows) h = ground (arith, remove_if-no_conflict r rows)

  pub remove_if-none :
      (p : Row D → Bool) (rows : List (Row D)) → any p rows ≡ false → remove_if p rows ≡ rows
  remove_if-none p [] h = refl
  remove_if-none p (r ∷ rows) h = ground (arith, remove_if-none p rows)

  pub remove_if-insert :
      (r : Row D) (rows : List (Row D))
      → r.status ≡ status_pending
      → any (conflicts r) rows ≡ false
      → remove_if (is_reservation r.id) (r ∷ rows) ≡ rows
  remove_if-insert r rows e free =
      ground (arith, remove_if-no_conflict r rows free, eq_iff r.status status_pending)

  -- A reservation is one no longer once its status is another.
  any-update_if_settled :
      (id : ℕ) (f : Row D → Row D) (rows : List (Row D))
      → ((r : Row D) → ((f r).status =ₛ status_pending) ≡ false)
      → any (is_reservation id) (update_if (is_reservation id) f rows) ≡ false
  any-update_if_settled id f [] h = refl
  any-update_if_settled id f (r ∷ rows) h = ground (arith, any-update_if_settled id f rows h, h r)

module _ {D : Type 0} ⦃d : Decimals D⦄ where
  -- The order as ReserveOrder leaves it at the next operation of `w`.
  abbrev pub prepared : BrokerOrder D → World D → BrokerOrder D
  prepared o w = prepare (w.outside.new_uuid w.step) (now w) o

  -- A table that takes the new row answers `true` and has the row in front.
  pub reserve_order-free :
      (o : BrokerOrder D) (w : World D)
      → IsAlone w.outside
      → IsUp w.outside
      → any (conflicts (insert_row (prepared o w))) w.orders ≡ false
      → reserve_order o w
        ≡ (ok true, prepared o w, record (turn w) { orders = insert_row (prepared o w) ∷ w.orders })
  unfolding reserve_order insert_order
  reserve_order-free o w alone up free = ground (arith, up w.step, alone w.step w.orders, free)

  pub release_order-alone :
      (id : ℕ) (w : World D)
      → IsAlone w.outside
      → IsUp w.outside
      → release_order id w
        ≡ (ok tt, record (turn w) { orders = remove_if (is_reservation id) w.orders })
  unfolding release_order
  release_order-alone id w alone up = ground (arith, up w.step, alone w.step w.orders)

  -- The world after a reservation that found the table free.
  abbrev pub after_insert : BrokerOrder D → World D → World D
  after_insert o w = record (turn w) { orders = insert_row (prepared o w) ∷ w.orders }

  -- With no other request between and no statement failing: releasing a reservation that was just
  -- made, in a table that had room for it, leaves the rows that were there before it.
  pub release_order-reserve_order :
      (o : BrokerOrder D) (w : World D)
      → IsAlone w.outside
      → IsUp w.outside
      → any (conflicts (insert_row (prepared o w))) w.orders ≡ false
      → (release_order (prepared o w).id (reserve_order o w).2).1.orders ≡ w.orders
  unfolding insert_row prepare
  release_order-reserve_order o w alone up free = rw (reserve_order-free o w alone up free) (
      ap (λ x. x.1.orders) (release_order-alone (prepared o w).id (after_insert o w) alone up)
      ∙ remove_if-insert (insert_row (prepared o w)) w.orders refl free)

  pub reserve_order-taken :
      (o : BrokerOrder D) (w : World D)
      → IsAlone w.outside
      → IsUp w.outside
      → any (conflicts (insert_row (prepared o w))) w.orders ≡ true
      → reserve_order o w ≡ (ok false, prepared o w, record (turn w) { orders = w.orders })
  unfolding reserve_order insert_order
  reserve_order-taken o w alone up taken = ground (arith, up w.step, alone w.step w.orders, taken)

  -- Two requests compete for one row.
  abbrev pub Compete : BrokerOrder D → BrokerOrder D → Type 0
  Compete o' o =
      (o'.trade_intent_id ≡ o.trade_intent_id)
      ⊎ ((o'.tenant_id ≡ o.tenant_id)
          × (o'.idempotency_key ≡ o.idempotency_key)
          × ((o'.idempotency_key =ₛ "") ≡ false))

  Compete-conflicts :
      (o' o : BrokerOrder D) (w' w : World D)
      → Compete o' o
      → conflicts (insert_row (prepared o' w')) (insert_row (prepared o w)) ≡ true
  unfolding conflicts insert_row prepare
  Compete-conflicts o' o w' w c =
      ground (arith, eq_iff o.tenant_id o'.tenant_id, eq_iff o'.idempotency_key o.idempotency_key)

  -- With no other request between and no statement failing: after a reservation in a table that has
  -- room for its row the intent reads back as the inserted row, and a second reservation for the
  -- intent, or for the tenant's non-empty key, is refused and writes nothing.
  pub reserve_order-holds :
      (o o' : BrokerOrder D) (w : World D)
      → IsAlone w.outside
      → IsUp w.outside
      → any (conflicts (insert_row (prepared o w))) w.orders ≡ false
      → Compete o' o
      → let q = (reserve_order o w).2 in
        ((get_order_by_intent_id o.trade_intent_id q).0 ≡ ok (scan_row (insert_row (prepared o w))))
        × ((reserve_order o' q).0 ≡ ok false)
        × ((reserve_order o' q).2.orders ≡ q.orders)
  unfolding get_order_by_intent_id insert_row prepare
  reserve_order-holds o o' w alone up free c = rw (reserve_order-free o w alone up free) (
    ground (arith, up (suc w.step), alone (suc w.step) (after_insert o w).orders),
    ap (λ x. x.0) refused,
    ap (λ x. x.2.orders) refused,
  )
    where
      taken :
          any (conflicts (insert_row (prepared o' (after_insert o w)))) (after_insert o w).orders
          ≡ true
      taken = ground (arith, Compete-conflicts o' o (after_insert o w) w c)

      refused : reserve_order o' (after_insert o w) ≡ (
        ok false,
        prepared o' (after_insert o w),
        record (turn (after_insert o w)) { orders = (after_insert o w).orders },
      )
      refused = reserve_order-taken o' (after_insert o w) alone up taken

module _ {D : Type 0} ⦃d : Decimals D⦄ where
  update_result :
      (id : ℕ) (i s : String) (q p : D) (w : World D)
      → IsAlone w.outside
      → IsUp w.outside
      → any (is_reservation id) w.orders ≡ true
      → confirm_order id i s q p w ≡ (
        ok tt,
        record (turn w) {
          orders = update_if (is_reservation id) (confirmed i s q p (now w)) w.orders;
        },
      )
  unfolding confirm_order
  update_result id i s q p w alone up found =
      ground (arith, up w.step, alone w.step w.orders, found)

  update_missing :
      (id : ℕ) (i s : String) (q p : D) (w : World D)
      → IsAlone w.outside
      → IsUp w.outside
      → any (is_reservation id) w.orders ≡ false
      → (confirm_order id i s q p w).0 ≡ err (sentinel Sentinel.order_not_found)
  unfolding confirm_order
  update_missing id i s q p w alone up missing =
      ground (arith, up w.step, alone w.step w.orders, missing)

  -- The world after ConfirmOrder found its reservation.
  abbrev pub after_confirm : ℕ → String → String → D → D → World D → World D
  after_confirm id i s q p w = record (turn w) {
    orders = update_if (is_reservation id) (confirmed i s q p (now w)) w.orders;
  }

  -- With no other request between and no statement failing: a confirmation of a reservation that is
  -- there, with a status other than PENDING, settles it: it cannot be confirmed again, and
  -- releasing it removes no row.
  pub confirm_order-settles :
      (id : ℕ) (i s : String) (q p : D) (i' s' : String) (q' p' : D) (w : World D)
      → IsAlone w.outside
      → IsUp w.outside
      → any (is_reservation id) w.orders ≡ true
      → (s =ₛ status_pending) ≡ false
      → let w' = (confirm_order id i s q p w).1 in
        ((confirm_order id i s q p w).0 ≡ ok tt)
        × ((confirm_order id i' s' q' p' w').0 ≡ err (sentinel Sentinel.order_not_found))
        × ((release_order id w').1.orders ≡ w'.orders)
  confirm_order-settles id i s q p i' s' q' p' w alone up found settled =
      rw (update_result id i s q p w alone up found) (
        refl,
        update_missing id i' s' q' p' (after_confirm id i s q p w) alone up gone,
        ap (λ x. x.1.orders) (release_order-alone id (after_confirm id i s q p w) alone up)
            ∙ remove_if-none (is_reservation id) (after_confirm id i s q p w).orders gone,
      )
    where
      gone : any (is_reservation id) (after_confirm id i s q p w).orders ≡ false
      gone = any-update_if_settled id (confirmed i s q p (now w)) w.orders (λ r. settled)
