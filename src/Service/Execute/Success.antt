-- ===== src/Service/Execute/Success.antt =====
-- A trade that goes through: one order at the broker, and its row confirmed.
use pregao.Prelude.{
  ℕ, suc, ◌≡◌, refl, ◌∙◌, true, false, none, some, List, ◌∷◌, [], arith, ap, any, find, update_if,
}
use text.Mathlib.TextEquality.{eq_iff}
use pregao.Errors.{ok, reply}
use pregao.Decimal.{Decimals}
use pregao.Uuid.{Uuids}
use pregao.Calls
use pregao.Broker.{OrderResult}
use pregao.Vault.{PlaintextCredentials}
use pregao.Db.Models.{BrokerOrder, BrokerCredential, Row, status_pending}
use pregao.Db.Orders.{insert_row, conflicts, prepare, is_reservation, confirmed, confirm_order}
use pregao.Db.Orders.Lifecycle.{prepared, reserve_order-free, after_insert}
use pregao.Db.Credentials.{get_credentials, is_for}
use pregao.World.{World, turn, now, log, IsAlone, IsUp}
use pregao.Service.Server.{PregaoServer, ExecuteTradeRequest, resolve_provider}
use pregao.Service.Reserve.{reserve, reserve_loop}
use pregao.Service.Execute.{
  validate, build_order, proceed, execute_trade, dispatch, decrypt_and_place, place, finish,
  confirm, sync_fill, zero_secrets, hold_secrets, order_status, market_order,
}

module _ {D : Type 0} where
  -- Where a row has no conflict, no other row has its id.
  update_if-no_conflict :
      (o : Row D) (f : Row D → Row D) (rows : List (Row D))
      → any (conflicts o) rows ≡ false
      → update_if (is_reservation o.id) f rows ≡ rows
  unfolding conflicts
  update_if-no_conflict o f [] h = refl
  update_if-no_conflict o f (r ∷ rows) h = ground (arith, update_if-no_conflict o f rows)

  update_if-insert :
      (o : Row D) (f : Row D → Row D) (rows : List (Row D))
      → o.status ≡ status_pending
      → any (conflicts o) rows ≡ false
      → update_if (is_reservation o.id) f (o ∷ rows) ≡ f o ∷ rows
  update_if-insert o f rows pending free =
      ground (arith, update_if-no_conflict o f rows free, eq_iff o.status status_pending)

  any_reserved :
      (o : Row D) (rows : List (Row D))
      → o.status ≡ status_pending
      → any (is_reservation o.id) (o ∷ rows) ≡ true
  any_reserved o rows pending = ground (arith, eq_iff o.status status_pending)

module _ {D : Type 0} ⦃d : Decimals D⦄ ⦃u : Uuids⦄ where
  -- What ConfirmOrder records as filled, and at which price: nothing where a fill processor follows.
  abbrev pub recorded_quantity : PregaoServer D → OrderResult D → D
  recorded_quantity s result = elim s.fill_processor [
    | none ↦ result.executed_quantity
    | some process ↦ d.zero
  ]

  abbrev pub recorded_price : PregaoServer D → OrderResult D → D
  recorded_price s result = elim s.fill_processor [
    | none ↦ result.average_price
    | some process ↦ d.zero
  ]

  confirm-orders :
      (s : PregaoServer D) (o : BrokerOrder D) (result : OrderResult D) (w : World D)
      → IsAlone w.outside
      → IsUp w.outside
      → any (is_reservation o.id) w.orders ≡ true
      → ((confirm s o result w).1.orders
          ≡ update_if
              (is_reservation o.id)
              (confirmed result.provider_order_id
                (order_status result)
                (recorded_quantity s result)
                (recorded_price s result)
                (now w))
              w.orders)
        × ((confirm s o result w).1.calls ≡ w.calls)
  unfolding confirm confirm_order
  confirm-orders s o result w alone up found =
      ground (arith, up w.step, alone w.step w.orders, found)

  -- The world after the broker's answer.
  abbrev pub after_place : ExecuteTradeRequest → D → PlaintextCredentials → World D → World D
  after_place req qty creds w =
      log (Calls.place_market_order (market_order req qty)) (hold_secrets creds (turn w))

  -- With the tenant's credentials, and a broker that takes the order.
  dispatch-placed :
      (s : PregaoServer D) (req : ExecuteTradeRequest) (qty : D) (cred : BrokerCredential)
      (creds : PlaintextCredentials) (result : OrderResult D) (w : World D)
      → w.outside.fault w.step ≡ none
      → find (is_for req.tenant_id (resolve_provider s req.provider)) w.credentials ≡ some cred
      → s.vault_client.decrypt_credentials cred.api_key_ciphertext cred.api_secret_ciphertext
        ≡ ok creds
      → s.broker_client.place_market_order creds (market_order req qty) ≡ ok result
      → dispatch s req qty w ≡ (reply (result, creds), after_place req qty creds w)
  unfolding dispatch get_credentials decrypt_and_place place
  dispatch-placed s req qty cred creds result w up found decrypted taken =
      rw (up, found) (rw decrypted (rw (taken, place) refl))

  reserve-free :
      (fuel : ℕ) (s : PregaoServer D) (o : BrokerOrder D) (w : World D)
      → IsAlone w.outside
      → IsUp w.outside
      → any (conflicts (insert_row (prepared o (turn w)))) (turn w).orders ≡ false
      → reserve (suc fuel) s o w ≡ some (reply none, prepared o (turn w), after_insert o (turn w))
  unfolding reserve reserve_loop
  reserve-free fuel s o w alone up free = rw (reserve_order-free o (turn w) alone up free) refl

  -- The row that reserves a valid request.
  abbrev pub new_row : PregaoServer D → ExecuteTradeRequest → ℕ → D → World D → Row D
  new_row s req intent qty w =
      insert_row
        (prepared (build_order s req (w.outside.new_uuid w.step) intent qty) (turn (turn w)))

  -- When no statement fails and no other request comes between: a valid request whose new row
  -- conflicts with none, with credentials that are stored and that decrypt, and a broker that takes
  -- the order, is answered in the first round with the broker's order id and status. One call was
  -- made before sync_fill, the market order, and the new row, in front of the rows as they were, is
  -- confirmed with the order id, the status, and the quantity and price filled, or zeros where a
  -- fill processor is to add them; sync_fill and the wiping of the secrets end the request.
  pub execute_trade-fresh :
      (fuel : ℕ) (s : PregaoServer D) (req : ExecuteTradeRequest) (intent : ℕ) (qty : D)
      (cred : BrokerCredential) (creds : PlaintextCredentials) (result : OrderResult D)
      (w : World D)
      → IsAlone w.outside
      → IsUp w.outside
      → validate req ≡ reply (intent, qty)
      → any (conflicts (new_row s req intent qty w)) w.orders ≡ false
      → find (is_for req.tenant_id (resolve_provider s req.provider)) w.credentials ≡ some cred
      → s.vault_client.decrypt_credentials cred.api_key_ciphertext cred.api_secret_ciphertext
        ≡ ok creds
      → s.broker_client.place_market_order creds (market_order req qty) ≡ ok result
      → (c : World D) × (time : ℕ) × (execute_trade (suc fuel) s req w
          ≡ some (
            reply (record {
              provider_order_id = result.provider_order_id;
              status = order_status result;
            }),
            zero_secrets creds (sync_fill s req result c),
          ))
        × (c.orders
            ≡ confirmed result.provider_order_id
                (order_status result)
                (recorded_quantity s result)
                (recorded_price s result)
                time
                (new_row s req intent qty w)
              ∷ w.orders)
        × (c.calls ≡ Calls.place_market_order (market_order req qty) ∷ w.calls)
  unfolding execute_trade proceed finish insert_row prepare
  execute_trade-fresh fuel s req intent qty cred creds result w alone up valid free found decrypted
        taken =
      (
        (confirm s o result p).1,
        now p,
        rw (valid, execute_trade)
            (rw (reserve-free fuel s order (turn w) alone up (ap (any (conflicts r)) start ∙ free))
              (ap (λ x. some (finish s req o x)) placed)),
        recorded.0
            ∙ ap (update_if (is_reservation o.id) f) rows
            ∙ update_if-insert r f w.orders refl free,
        recorded.1,
      )
    where
      order : BrokerOrder D
      order = build_order s req (w.outside.new_uuid w.step) intent qty

      v : World D
      v = turn (turn w)

      o : BrokerOrder D
      o = prepared order v

      r : Row D
      r = insert_row o

      p : World D
      p = after_place req qty creds (after_insert order v)

      f : Row D → Row D
      f =
          confirmed result.provider_order_id (order_status result) (recorded_quantity s result)
            (recorded_price s result) (now p)

      start : v.orders ≡ w.orders
      start = alone (suc w.step) (turn w).orders ∙ alone w.step w.orders

      rows : p.orders ≡ r ∷ w.orders
      rows = alone _ _ ∙ ap (λ xs. r ∷ xs) start

      placed : dispatch s req qty (after_insert order v) ≡ (reply (result, creds), p)
      placed =
          dispatch-placed s req qty cred creds result (after_insert order v) (up _) found decrypted
            taken

      recorded :
          ((confirm s o result p).1.orders ≡ update_if (is_reservation o.id) f p.orders)
          × ((confirm s o result p).1.calls ≡ p.calls)
      recorded =
          confirm-orders s o result p alone up
            (ap (any (is_reservation o.id)) rows ∙ any_reserved r w.orders refl)
