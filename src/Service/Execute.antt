-- ===== src/Service/Execute.antt =====
-- `ExecuteTrade`: the checks of the request, the reservation, the dispatch to the broker, and the
-- record of what the broker answered.
pub mod Failure
pub mod Replay
pub mod Waiting
pub mod Success
pub mod Quiet
pub mod Destination
pub mod Secrets
use Prim.Native.String.{◌++◌}
use pregao.Prelude.{ℕ, Bool, ◌||◌, String, Option, none, some, List, [], ◌∷◌, if◌then◌else◌}
use pregao.Prelude.Text.{◌=ₛ◌, to_upper, trim_space}
use pregao.Errors.{
  Error, Result, ok, err, errors_is, error_text, Sentinel, Reply, reply, status, Code,
}
use pregao.Decimal.{Decimals, at_most, above}
use pregao.Uuid.{Uuids}
use pregao.Vault.{Bytes, PlaintextCredentials, arrays_of, zero_credentials}
use pregao.Broker.{MarketOrderRequest, OrderResult}
use pregao.Calls.{Call, place_market_order}
use pregao.Db.Models.{
  BrokerOrder, BrokerCredential, status_pending, status_submitted, side_buy, side_sell,
}
use pregao.Db.Orders.{confirm_order}
use pregao.Db.Credentials.{get_credentials}
use pregao.Worker.{FillEvent}
use pregao.World.{World, turn, log}
use pregao.Service.Server.{
  PregaoServer, ExecuteTradeRequest, ExecuteTradeResponse, TradeSide, sell, resolve_provider,
}
use pregao.Service.Reserve.{Outcome, reserve, release_reservation}

-- `sideStr`
unfoldable pub side_string : TradeSide → String
side_string sell = side_sell
side_string _ = side_buy

-- `Zero` of the credentials that were returned last, whose arrays it leaves in place of theirs.
abbrev pub zero_newest : PlaintextCredentials → List (List Bytes) → List (List Bytes)
zero_newest c [] = []
zero_newest c (arrays ∷ rest) = (zero_credentials (some c)).1 ∷ rest

module _ {D : Type 0} where
  -- The deferred `plaintextCreds.Zero()`.
  abbrev pub zero_secrets : PlaintextCredentials → World D → World D
  zero_secrets c w = record w { secrets = zero_newest c w.secrets }

  abbrev pub hold_secrets : PlaintextCredentials → World D → World D
  hold_secrets c w = record w { secrets = arrays_of c ∷ w.secrets }

  -- `orderStatus`
  unfoldable pub order_status : OrderResult D → String
  order_status result = if result.status =ₛ "" then status_submitted else result.status

  unfoldable pub execute_response : BrokerOrder D → ExecuteTradeResponse
  execute_response order = record {
    provider_order_id = order.provider_order_id;
    status = order.status;
  }

module _ {D : Type 0} ⦃d : Decimals D⦄ ⦃u : Uuids⦄ where
  -- The quotes of `%q` stand for a text with nothing to escape.
  abbrev pub parse_request : ExecuteTradeRequest → Reply (ℕ × D)
  parse_request req = elim (u.parse req.trade_intent_id) [
    | err e ↦ status Code.invalid_argument ("invalid trade_intent_id UUID format: " ++ error_text e)
    | ok intent ↦
        let bad : Reply (ℕ × D) =
          status Code.invalid_argument
            ("invalid quantity \"" ++ req.quantity ++ "\": must be a positive decimal") in
        elim (d.parse req.quantity) [
          | err e ↦ bad
          | ok qty ↦ if at_most qty d.zero then bad else reply (intent, qty)
        ]
  ]

  -- The checks of the request, in their order; the intent and the quantity when all pass.
  unfoldable pub validate : ExecuteTradeRequest → Reply (ℕ × D)
  validate req =
      if trim_space req.trade_intent_id =ₛ ""
      then status Code.invalid_argument "trade_intent_id is required"
      else if trim_space req.tenant_id =ₛ ""
      then status Code.invalid_argument "tenant_id is required"
      else if trim_space req.user_id =ₛ ""
      then status Code.invalid_argument "user_id is required"
      else if trim_space req.symbol =ₛ ""
      then status Code.invalid_argument "symbol is required"
      else if trim_space req.quantity =ₛ ""
      then status Code.invalid_argument "quantity is required"
      else parse_request req

  -- The BrokerOrder that Step 1 builds, at a new id.
  unfoldable pub build_order : PregaoServer D → ExecuteTradeRequest → ℕ → ℕ → D → BrokerOrder D
  build_order s req id intent qty = record {
    id = id;
    trade_intent_id = intent;
    tenant_id = req.tenant_id;
    user_id = req.user_id;
    provider = resolve_provider s req.provider;
    provider_order_id = "";
    symbol = to_upper req.symbol;
    side = side_string req.side;
    target_quantity = qty;
    status = status_pending;
    filled_quantity = d.zero;
    average_fill_price = d.zero;
    idempotency_key = req.idempotency_key;
    portfolio_id = req.portfolio_id;
    livro_hold_id = req.livro_hold_id;
    created_at = 0;
    updated_at = 0;
  }

  unfoldable pub market_order : ExecuteTradeRequest → D → MarketOrderRequest D
  market_order req qty = record {
    symbol = to_upper req.symbol;
    side = side_string req.side;
    quantity = qty;
    client_order_id = req.trade_intent_id;
  }

  -- Step 4, with the credentials in memory.
  unfoldable pub place :
      PregaoServer D
      → ExecuteTradeRequest
      → D
      → PlaintextCredentials
      → World D
      → Reply (OrderResult D × PlaintextCredentials) × World D
  place s req qty creds w =
      let sent = log (place_market_order (market_order req qty)) (hold_secrets creds w) in
      elim (s.broker_client.place_market_order creds (market_order req qty)) [
        | err e ↦ (
          status Code.unavailable ("broker rejected order execution: " ++ error_text e),
          zero_secrets creds sent,
        )
        | ok result ↦ (reply (result, creds), sent)
      ]

  -- Step 3.
  unfoldable pub decrypt_and_place :
      PregaoServer D
      → ExecuteTradeRequest
      → D
      → Result BrokerCredential × World D
      → Reply (OrderResult D × PlaintextCredentials) × World D
  decrypt_and_place s req qty (err e, w) = (
    if errors_is e Sentinel.credentials_not_found
        then status Code.failed_precondition (
            "broker credentials not found for tenant "
            ++ req.tenant_id
            ++ ", provider "
            ++ resolve_provider s req.provider)
        else status Code.internal ("database error loading broker credentials: " ++ error_text e),
    w,
  )
  decrypt_and_place s req qty (ok cred, w) =
      elim (s.vault_client.decrypt_credentials cred.api_key_ciphertext cred.api_secret_ciphertext) [
        | err e ↦
            (status Code.internal ("cryptographic transit decryption failed: " ++ error_text e), w)
        | ok creds ↦ place s req qty creds w
      ]

  -- Steps 2 to 4: what happens while a failure still releases the reservation.
  unfoldable pub dispatch :
      PregaoServer D
      → ExecuteTradeRequest
      → D
      → World D
      → Reply (OrderResult D × PlaintextCredentials) × World D
  dispatch s req qty w =
      decrypt_and_place s req qty
        (get_credentials req.tenant_id (resolve_provider s req.provider) w)

  unfoldable pub fill_event : PregaoServer D → ExecuteTradeRequest → OrderResult D → FillEvent D
  fill_event s req result = record {
    provider = resolve_provider s req.provider;
    provider_order_id = result.provider_order_id;
    symbol = to_upper req.symbol;
    side = side_string req.side;
    status = order_status result;
    executed_quantity = result.executed_quantity;
    fill_price = result.average_price;
  }

  -- Step 5: the fill processor, where there is one, starts from nothing filled.
  unfoldable pub confirm :
      PregaoServer D → BrokerOrder D → OrderResult D → World D → Result (Unit {0}) × World D
  confirm s order result w = elim s.fill_processor [
    | none ↦
        confirm_order order.id result.provider_order_id (order_status result)
          result.executed_quantity result.average_price w
    | some _ ↦ confirm_order order.id result.provider_order_id (order_status result) d.zero d.zero w
  ]

  -- Step 6; the processor's error is only logged.
  unfoldable pub sync_fill :
      PregaoServer D → ExecuteTradeRequest → OrderResult D → World D → World D
  sync_fill s req result w = elim s.fill_processor [
    | none ↦ w
    | some process ↦
        if above result.executed_quantity d.zero then (process (fill_event s req result) w).1 else w
  ]

  -- From the answer of the dispatch on, with the two deferred calls.
  unfoldable pub finish :
      PregaoServer D
      → ExecuteTradeRequest
      → BrokerOrder D
      → Reply (OrderResult D × PlaintextCredentials) × World D
      → Reply ExecuteTradeResponse × World D
  finish s req order (status code message, w) = (status code message, release_reservation order w)
  finish s req order (reply (result, creds), w) = (
    reply (record { provider_order_id = result.provider_order_id; status = order_status result }),
    zero_secrets creds (sync_fill s req result (confirm s order result w).1),
  )

  -- From the answer of the reservation on.
  unfoldable pub proceed :
      PregaoServer D → ExecuteTradeRequest → D → Outcome D → Reply ExecuteTradeResponse × World D
  proceed s req qty (status code message, order, w) = (status code message, w)
  proceed s req qty (reply (some existing), order, w) = (reply (execute_response existing), w)
  proceed s req qty (reply none, order, w) = finish s req order (dispatch s req qty w)

  abbrev pub proceed_if :
      PregaoServer D
      → ExecuteTradeRequest
      → D
      → Option (Outcome D)
      → Option (Reply ExecuteTradeResponse × World D)
  proceed_if s req qty none = none
  proceed_if s req qty (some outcome) = some (proceed s req qty outcome)

  -- `ExecuteTrade`; `none` is for fuel that ran out in the reservation loop.
  unfoldable pub execute_trade :
      ℕ
      → PregaoServer D
      → ExecuteTradeRequest
      → World D
      → Option (Reply ExecuteTradeResponse × World D)
  execute_trade fuel s req w = elim (validate req) [
    | status code message ↦ some (status code message, w)
    | reply (intent, qty) ↦
        proceed_if s req qty
          (reserve fuel s (build_order s req (w.outside.new_uuid w.step) intent qty) (turn w))
  ]
