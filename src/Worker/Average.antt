-- ===== src/Worker/Average.antt =====
-- The weighted average price of ProcessFill, newAvgPrice in fill_processor.go, over any number of
-- fills.
use pregao.Prelude.{
  refl, subst, List, [], ◌∷◌, ◌≡◌, ◌∙◌, ap, sym, true, Bool-cases, inl, inr, arith,
}
use pregao.Decimal.{Decimals, DecimalLaws, is_zero}
use pregao.Db.Models.{BrokerOrder}
use pregao.Worker.Fill.{FillEvent, new_filled_quantity, new_average_price, new_status}

module _ {D : Type 0} ⦃d : Decimals D⦄ where
  -- What the order has cost: quantity times average price.
  abbrev pub cost : BrokerOrder D → D
  cost order = d.mul order.filled_quantity order.average_fill_price

  -- The order once a fill is recorded on it, in columns that keep its numbers.
  abbrev pub after_fill : BrokerOrder D → FillEvent D → BrokerOrder D
  after_fill o e = record o {
    status = new_status o e;
    filled_quantity = new_filled_quantity o e;
    average_fill_price = new_average_price o e;
  }

  abbrev pub after_fills : BrokerOrder D → List (FillEvent D) → BrokerOrder D
  after_fills o [] = o
  after_fills o (e ∷ es) = after_fills (after_fill o e) es

  -- What was executed in all, and what it cost, from a quantity and a cost on.
  abbrev pub total_quantity : D → List (FillEvent D) → D
  total_quantity q [] = q
  total_quantity q (e ∷ es) = total_quantity (d.add q e.executed_quantity) es

  abbrev pub total_cost : D → List (FillEvent D) → D
  total_cost v [] = v
  total_cost v (e ∷ es) = total_cost (d.add v (d.mul e.executed_quantity e.fill_price)) es

  -- After each of the fills the cost so far is divided by the quantity so far without a remainder.
  abbrev pub DividesEach : D → D → List (FillEvent D) → Type 0
  DividesEach v q [] = Unit
  DividesEach v q (e ∷ es) =
      let v' = d.add v (d.mul e.executed_quantity e.fill_price) in
      let q' = d.add q e.executed_quantity in (d.mul q' (d.div v' q') ≡ v') × DividesEach v' q' es

module _ {D : Type 0} ⦃d : Decimals D⦄ (laws : DecimalLaws D) where
  is_zero→eq : (x : D) → is_zero x ≡ true → x ≡ d.zero
  is_zero→eq x h = laws.compare_eq x d.zero (ground arith)

  -- One fill: the new average price, times the new quantity, is the old cost plus the fill's value, whenever
  -- the quotient that the code takes is exact.
  new_average_price-cost :
      (order : BrokerOrder D) (event : FillEvent D)
      → (let total = d.add (cost order) (d.mul event.executed_quantity event.fill_price) in
          let n = new_filled_quantity order event in d.mul n (d.div total n) ≡ total)
      → d.mul (new_filled_quantity order event) (new_average_price order event)
        ≡ d.add (cost order) (d.mul event.executed_quantity event.fill_price)
  unfolding new_average_price
  new_average_price-cost order event exact = elim (Bool-cases (is_zero order.filled_quantity)) [
    | inr more ↦ rw more exact
    | inl first ↦ let e = is_zero→eq order.filled_quantity first in rw first (first_fill e)
  ]
    where
      q : D
      q = event.executed_quantity

      first_fill :
          order.filled_quantity ≡ d.zero
          → d.mul (d.add order.filled_quantity q) event.fill_price
            ≡ d.add (cost order) (d.mul q event.fill_price)
      first_fill e =
          ap (λ x. d.mul x event.fill_price) (ap (λ x. d.add x q) e ∙ plus_zero q)
          ∙ sym (plus_zero (d.mul q event.fill_price))
          ∙ ap (λ x. d.add x (d.mul q event.fill_price))
              (sym (
                ap (λ x. d.mul x order.average_fill_price) e
                ∙ laws.mul_comm d.zero order.average_fill_price
                ∙ laws.mul_zero order.average_fill_price))
        where
          plus_zero : (x : D) → d.add d.zero x ≡ x
          plus_zero x = laws.add_comm d.zero x ∙ laws.add_zero x

  -- After any number of fills, recorded one after the other in columns that keep the numbers, the
  -- filled quantity of an order is the sum of the executed quantities on top of what was filled
  -- before, and this quantity times the average price is the sum of the fills' values on top of the
  -- cost before, if after each fill the cost so far is divided by the quantity so far without a
  -- remainder.
  pub after_fills-total_cost :
      (es : List (FillEvent D)) (o : BrokerOrder D)
      → DividesEach (cost o) o.filled_quantity es
      → ((after_fills o es).filled_quantity ≡ total_quantity o.filled_quantity es)
        × (cost (after_fills o es) ≡ total_cost (cost o) es)
  after_fills-total_cost [] o h = (refl, refl)
  after_fills-total_cost (e ∷ es) o (exact, h) =
      let paid = new_average_price-cost o e exact in
      let (quantity, price) = after_fills-total_cost es (after_fill o e) (
        subst (λ v. DividesEach v (d.add o.filled_quantity e.executed_quantity) es) (sym paid) h) in
      (quantity, price ∙ ap (λ v. total_cost v es) paid)
