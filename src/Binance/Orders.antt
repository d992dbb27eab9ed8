-- ===== src/Binance/Orders.antt =====
-- What `PlaceMarketOrder` of internal/broker/binance/client.go sends and answers, and what it leaves
-- of the credentials.
use pregao.Prelude.{
  subst, true, false, ◌≡◌, refl, sym, ◌∙◌, ap, String, Option, none, some, List, [], ◌∷◌,
  Bool-cases, inl, inr,
}
use pregao.Prelude.Text.{◌=ₛ◌}
use pregao.Errors.{Result, ok, err, relabel, failed, and_then-ok, guard-ok, ok-failed}
use pregao.Decimal.{Decimals, at_most}
use pregao.Vault.{Bytes, PlaintextCredentials, zero_credentials, arrays_of, wipe}
use pregao.Vault.Wiped.{Wiped, map-wipe-Wiped}
use pregao.Broker.{MarketOrderRequest, OrderResult}
use pregao.Db.Models.{status_pending}
use pregao.Http.{Response}
use pregao.Binance.Wire.{Wire, Request}
use pregao.Binance.Quantity.{get_default_step_size, truncate_to_step_size, map_order_status-settled}
use pregao.Binance.Client.{
  Client, Signed, lacks_credentials, round_trip, order_request, request_of, read_order_response,
  read_order_body, accept_order, order_result, place_market_order,
}

module _ ⦃x : Wire⦄ where
  round_trip-zeroed {ℓ} :
      {A : Type ℓ} (c : Client) (m : String) (read : Response → Result A)
      (z : Option PlaintextCredentials × List Bytes) (r : Result Request)
      → ((round_trip c m read z r).credentials ≡ z.0) × ((round_trip c m read z r).arrays ≡ z.1)
  round_trip-zeroed c m read z (ok r) = (refl, refl)
  round_trip-zeroed c m read z (err e) = (refl, refl)

module _ {D : Type 0} ⦃d : Decimals D⦄ ⦃x : Wire⦄ where
  -- Unless one of the credentials is missing or empty, PlaceMarketOrder leaves the credentials
  -- without arrays, and every byte of the arrays that they had is zero, at the same length,
  -- whatever the broker answers.
  pub place_market_order-Wiped :
      (c : Client) (creds : PlaintextCredentials) (req : MarketOrderRequest D)
      → lacks_credentials creds ≡ false
      → let p = place_market_order c (some creds) req in
        (p.credentials ≡ some (record { api_key = none; api_secret = none }))
        × Wiped p.arrays (arrays_of creds)
  unfolding place_market_order zero_credentials wipe
  place_market_order-Wiped c creds req h =
      let z = zero_credentials (some creds) in
      let same =
        round_trip-zeroed c "binance order request failed" read_order_response z
          (order_request c creds req) in
      rw h (
        same.0,
        subst (λ as_. Wiped as_ (arrays_of creds)) (sym same.1) (map-wipe-Wiped (arrays_of creds)),
      )

  -- An order that may be placed: the quantity is positive, and is still after it was cut down to the
  -- step size of its symbol.
  abbrev pub IsPlaceable : MarketOrderRequest D → Type 0
  IsPlaceable req =
      (at_most req.quantity d.zero ≡ false)
      × (step : D) × (get_default_step_size req.symbol ≡ ok step)
      × (at_most (truncate_to_step_size req.quantity step).0 d.zero ≡ false)

  order_request-IsPlaceable :
      (c : Client) (cs : PlaintextCredentials) (req : MarketOrderRequest D) (r : Request)
      → order_request c cs req ≡ ok r
      → IsPlaceable req
  unfolding order_request request_of
  order_request-IsPlaceable c cs req r h =
      let positive = guard-ok _ _ _ r h in
      let (step, found, made) = and_then-ok (get_default_step_size req.symbol) _ r positive.1 in
      (positive.0, step, found, (guard-ok _ _ _ r made).0)

  read_order_response-settled :
      (resp : Response) (r : OrderResult D)
      → read_order_response resp ≡ ok r
      → (r.status =ₛ status_pending) ≡ false
  unfolding read_order_response order_result
  read_order_response-settled resp r h =
      let (body, _, read) =
        and_then-ok (relabel "failed to read order response" resp.body) (read_order_body resp) r
          h in
      let (o, _, made) =
        and_then-ok (relabel "failed to unmarshal order response" (x.read_order body))
          (accept_order resp) r (guard-ok _ _ _ r read).1 in
      ap (λ s. elim s [ ok v ↦ v.status =ₛ status_pending | err e ↦ false ])
        (sym (guard-ok _ _ (ok (order_result x.format_int o)) r made).1)
      ∙ map_order_status-settled o.status

  abbrev trip : Client → PlaintextCredentials → Result Request → Signed (OrderResult D)
  trip c creds q =
      round_trip c "binance order request failed" read_order_response
        (zero_credentials (some creds)) q

  -- With credentials, a market order is a round trip of its request.
  place_market_order-trip :
      (c : Client) (creds : PlaintextCredentials) (req : MarketOrderRequest D)
      → lacks_credentials creds ≡ false
      → place_market_order c (some creds) req ≡ trip c creds (order_request c creds req)
  unfolding place_market_order
  place_market_order-trip c creds req h = rw h refl

  -- Without, it is refused.
  place_market_order-lacks :
      (c : Client) (creds : PlaintextCredentials) (req : MarketOrderRequest D)
      → lacks_credentials creds ≡ true
      → (failed (place_market_order c (some creds) req).answer ≡ true)
        × ((place_market_order c (some creds) req).sent ≡ [])
  unfolding place_market_order
  place_market_order-lacks c creds req h = rw h (refl, refl)

  -- A round trip with an answer sent one request, which could be made.
  trip-sent :
      (c : Client) (creds : PlaintextCredentials) (q : Result Request) (r : OrderResult D)
      → (trip c creds q).answer ≡ ok r
      → (request : Request) × ((trip c creds q).sent ≡ request ∷ [])
        × (q ≡ ok request)
        × ((r.status =ₛ status_pending) ≡ false)
  trip-sent c creds (err e) r h = cc
  trip-sent c creds (ok request) r h =
      let (resp, _, read) =
        and_then-ok (relabel "binance order request failed" (x.send c.http_client request))
          read_order_response r h in
      (request, refl, refl, read_order_response-settled resp r read)

  -- When PlaceMarketOrder with credentials answers with an order, it sent exactly one request, the
  -- one that order_request makes; the quantity was positive, and is still after it was cut down to
  -- the step size of the symbol; and the status of the order is not PENDING, so that the row it is
  -- recorded in is no reservation any more.
  pub place_market_order-sends :
      (c : Client) (creds : PlaintextCredentials) (req : MarketOrderRequest D) (r : OrderResult D)
      → (place_market_order c (some creds) req).answer ≡ ok r
      → (request : Request) × ((place_market_order c (some creds) req).sent ≡ request ∷ [])
        × (order_request c creds req ≡ ok request)
        × IsPlaceable req
        × ((r.status =ₛ status_pending) ≡ false)
  place_market_order-sends c creds req r h = elim (Bool-cases (lacks_credentials creds)) [
    | inl lacking ↦ absurd (ok-failed _ r h (place_market_order-lacks c creds req lacking).0)
    | inr have ↦
        let same = place_market_order-trip c creds req have in
        let (request, sent, made, settled) =
          trip-sent c creds (order_request c creds req) r (sym (ap (λ p. p.answer) same) ∙ h) in
        (
          request,
          ap (λ p. p.sent) same ∙ sent,
          made,
          order_request-IsPlaceable c creds req request made,
          settled,
        )
  ]

  trip-refused :
      (c : Client) (creds : PlaintextCredentials) (req : MarketOrderRequest D) (q : Result Request)
      → order_request c creds req ≡ q
      → ¬ (IsPlaceable req)
      → (failed (trip c creds q).answer ≡ true) × ((trip c creds q).sent ≡ [])
  trip-refused c creds req (err e) made h = (refl, refl)
  trip-refused c creds req (ok r) made h = absurd (h (order_request-IsPlaceable c creds req r made))

  -- PlaceMarketOrder, of a quantity that is not positive, or that is not after it was cut down to
  -- the step size, or whose step size does not parse, fails and sends nothing.
  pub place_market_order-refuses :
      (c : Client) (creds : PlaintextCredentials) (req : MarketOrderRequest D)
      → ¬ (IsPlaceable req)
      → (failed (place_market_order c (some creds) req).answer ≡ true)
        × ((place_market_order c (some creds) req).sent ≡ [])
  place_market_order-refuses c creds req h = elim (Bool-cases (lacks_credentials creds)) [
    | inl lacking ↦ place_market_order-lacks c creds req lacking
    | inr have ↦
        subst (λ p. (failed p.answer ≡ true) × (p.sent ≡ []))
          (sym (place_market_order-trip c creds req have))
          (trip-refused c creds req (order_request c creds req) refl h)
  ]
