-- ===== src/Webhook/Answers.antt =====
-- What the webhook's answers say of the orders: a broker that repeats a report until it is answered
-- with 200 relies on it.
use pregao.Prelude.{false, ◌≡◌, refl, sym, ◌∙◌, ap, String, Bool-cases, inl, inr, ◌==◌}
use pregao.Prelude.Text.{◌=ₛ◌}
use pregao.Errors.{Result, ok, err, failed}
use pregao.Decimal.{Decimals, at_most}
use pregao.Uuid.{Uuids}
use pregao.World.{World, IsAlone}
use pregao.Worker.{FillEvent, FillProcessor, process_fill}
use pregao.Worker.Settlement.{process_fill-clean, Recorded}
use pregao.Webhook.Handler.{
  Json, Reading, fill, ignored, bad_request, processed, answer_reading, read_payload,
  handle_order_webhook,
}

module _ {D : Type 0} ⦃d : Decimals D⦄ ⦃u : Uuids⦄ ⦃j : Json D⦄ where
  processed-clean :
      (p : FillProcessor D) (e : FillEvent D) (w : World D) (r : Result (Unit {0})) (q : World D)
      → IsAlone w.outside
      → process_fill p e w ≡ (r, q)
      → ((processed (r, q)).0.status_code == 200) ≡ false
      → (processed (r, q)).1.orders ≡ w.orders
  processed-clean p e w (ok _) q alone h s = cc
  processed-clean p e w (err m) q alone h s =
      ap (λ x. x.1.orders) (sym h) ∙ process_fill-clean p e w alone (ap (λ x. failed x.0) h)

  answer_reading-clean :
      (p : FillProcessor D) (w : World D) (x : Reading D)
      → IsAlone w.outside
      → ((answer_reading (process_fill p) w x).0.status_code == 200) ≡ false
      → (answer_reading (process_fill p) w x).1.orders ≡ w.orders
  answer_reading-clean p w (bad_request m) alone h = refl
  answer_reading-clean p w ignored alone h = refl
  answer_reading-clean p w (fill e) alone h =
      processed-clean p e w (process_fill p e w).0 (process_fill p e w).1 alone refl h

  -- With no other request between: a webhook call that is not answered with 200 changed no row, so
  -- that the broker may repeat its report.
  pub handle_order_webhook-clean :
      (p : FillProcessor D) (method body : String) (w : World D)
      → IsAlone w.outside
      → ((handle_order_webhook (process_fill p) method body w).0.status_code == 200) ≡ false
      → (handle_order_webhook (process_fill p) method body w).1.orders ≡ w.orders
  unfolding handle_order_webhook
  handle_order_webhook-clean p method body w alone = elim (Bool-cases (method =ₛ "POST")) [
    | inl post ↦ rw post (answer_reading-clean p w (read_payload body) alone)
    | inr other ↦ rw other (λ h. refl)
  ]

  -- What an answer of 200 says: the report was none of an execution, and nothing was done, or its
  -- fill is recorded.
  abbrev pub Accepted : FillProcessor D → World D → Reading D → World D → Type 0
  Accepted p w (fill e) q =
      (at_most e.executed_quantity d.zero ≡ false)
      × (at_most e.fill_price d.zero ≡ false)
      × Recorded e w q
  Accepted p w ignored q = q ≡ w
  Accepted p w (bad_request m) q = ⊥
