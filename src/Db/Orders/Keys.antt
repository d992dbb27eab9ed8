-- ===== src/Db/Orders/Keys.antt =====
-- The unique constraints of broker_orders, as an invariant of the statements in orders_repo.go.
use pregao.Prelude.{
  ℕ, ◌≡◌, refl, Bool, false, String, List, [], ◌∷◌, arith, any, remove_if, update_if,
}
use pregao.Decimal.{Decimals}
use pregao.Db.Models.{Row, BrokerOrder}
use pregao.World.{World, turn, now}
use pregao.Db.Orders.{
  conflicts, insert_row, insert_order, reserve_order, release_order, confirmed, filled_to,
  update_orders, is_reservation, prepare,
}

module _ {D : Type 0} where
  -- No two rows break a unique constraint.
  abbrev pub IsUnique : List (Row D) → Type 0
  IsUnique [] = Unit
  IsUnique (r ∷ rows) = (any (conflicts r) rows ≡ false) × IsUnique rows

  any-remove_if :
      (p q : Row D → Bool) (rows : List (Row D))
      → any p rows ≡ false
      → any p (remove_if q rows) ≡ false
  any-remove_if p q [] h = refl
  any-remove_if p q (r ∷ rows) h = ground (arith, any-remove_if p q rows)

  pub remove_if-IsUnique :
      (q : Row D → Bool) (rows : List (Row D)) → IsUnique rows → IsUnique (remove_if q rows)
  remove_if-IsUnique q [] h = tt
  remove_if-IsUnique q (r ∷ rows) h =
      ground (arith, remove_if-IsUnique q rows h.1, any-remove_if (conflicts r) q rows h.0)

  module _ (f : Row D → Row D) (seen : (o r : Row D) → conflicts o (f r) ≡ conflicts o r)
      (sees : (o r : Row D) → conflicts (f o) r ≡ conflicts o r) where
    any-update_if :
        (o : Row D) (q : Row D → Bool) (rows : List (Row D))
        → any (conflicts o) (update_if q f rows) ≡ any (conflicts o) rows
    any-update_if o q [] = refl
    any-update_if o q (r ∷ rows) = ground (arith, any-update_if o q rows, seen o r)

    any-sees :
        (o : Row D) (rows : List (Row D)) → any (conflicts (f o)) rows ≡ any (conflicts o) rows
    any-sees o [] = refl
    any-sees o (r ∷ rows) = ground (arith, any-sees o rows, sees o r)

    pub update_if-IsUnique :
        (q : Row D → Bool) (rows : List (Row D)) → IsUnique rows → IsUnique (update_if q f rows)
    update_if-IsUnique q [] h = tt
    update_if-IsUnique q (r ∷ rows) h = ground (
      arith,
      update_if-IsUnique q rows h.1,
      any-update_if r q rows,
      any-update_if (f r) q rows,
      any-sees r rows,
    )

module _ {D : Type 0} ⦃d : Decimals D⦄ where
  confirmed_seen :
      (i s : String) (q p : D) (time : ℕ) (o r : Row D)
      → conflicts o (confirmed i s q p time r) ≡ conflicts o r
  unfolding conflicts
  confirmed_seen i s q p time o r = refl

  confirmed_sees :
      (i s : String) (q p : D) (time : ℕ) (o r : Row D)
      → conflicts (confirmed i s q p time o) r ≡ conflicts o r
  unfolding conflicts
  confirmed_sees i s q p time o r = refl

  filled_seen :
      (s : String) (q p : D) (time : ℕ) (o r : Row D)
      → conflicts o (filled_to s q p time r) ≡ conflicts o r
  unfolding conflicts
  filled_seen s q p time o r = refl

  filled_sees :
      (s : String) (q p : D) (time : ℕ) (o r : Row D)
      → conflicts (filled_to s q p time o) r ≡ conflicts o r
  unfolding conflicts
  filled_sees s q p time o r = refl

  pub confirmed-IsUnique :
      (i s : String) (q p : D) (time : ℕ) (w : Row D → Bool) (rows : List (Row D))
      → IsUnique rows
      → IsUnique (update_if w (confirmed i s q p time) rows)
  confirmed-IsUnique i s q p time =
      update_if-IsUnique _ (confirmed_seen i s q p time) (confirmed_sees i s q p time)

  pub filled-IsUnique :
      (s : String) (q p : D) (time : ℕ) (w : Row D → Bool) (rows : List (Row D))
      → IsUnique rows
      → IsUnique (update_if w (filled_to s q p time) rows)
  filled-IsUnique s q p time =
      update_if-IsUnique _ (filled_seen s q p time) (filled_sees s q p time)

  pub insert_order-IsUnique :
      (r : Row D) (rows : List (Row D)) → IsUnique rows → IsUnique (insert_order r rows).1
  unfolding insert_order
  insert_order-IsUnique r rows h = ground arith

  -- What holds of the rows before a statement and after its write holds after the statement.
  pub update_orders_rule :
      (P : List (Row D) → Type 0) (m : String) (q : Row D → Bool) (f : Row D → Row D) (w : World D)
      → P (turn w).orders
      → P (update_if q f (turn w).orders)
      → P (update_orders m q f w).1.orders
  update_orders_rule P m q f w same written = ground arith

  pub release_order_rule :
      (P : List (Row D) → Type 0) (id : ℕ) (w : World D)
      → P (turn w).orders
      → P (remove_if (is_reservation id) (turn w).orders)
      → P (release_order id w).1.orders
  unfolding release_order
  release_order_rule P id w same written = ground arith

  pub reserve_order_rule :
      (P : List (Row D) → Type 0) (o : BrokerOrder D) (w : World D)
      → P (turn w).orders
      → P
          (insert_order
            (insert_row (prepare (w.outside.new_uuid w.step) (now w) o))
            (turn w).orders).1
      → P (reserve_order o w).2.orders
  unfolding reserve_order
  reserve_order_rule P o w same written = ground arith
