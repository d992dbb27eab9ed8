-- ===== src/Worker/Fill.antt =====
-- `ProcessFill` of internal/worker/fill_processor.go, with its guards, the weighted average, the
-- settlement against one of the downstream services, and the update of the order.
use Prim.Native.String.{◌++◌}
use pregao.Prelude.{◌||◌, String, Option, none, some, if◌then◌else◌}
use pregao.Prelude.Text.{◌=ₛ◌, equal_fold}
use pregao.Errors.{Result, ok, err, other, wrap}
use pregao.Decimal.{Decimals, at_most, at_least, is_zero}
use pregao.Uuid.{Uuids}
use pregao.Client.Ativos.{AtivosClient, SyncExecutionParams, Action}
use pregao.Client.Livro.{LivroClient, CaptureHoldParams, CreditParams}
use pregao.Calls.{capture_hold, credit, sync_broker_execution, open_broker_account}
use pregao.Db.Models.{BrokerOrder, status_partial, status_filled, side_buy, side_sell}
use pregao.Db.Orders.{get_order_by_provider_order_id, update_order_fill}
use pregao.World.{World, log}

pub record FillEvent (D : Type 0) : Type 0 where
  pub provider : String
  pub provider_order_id : String
  pub symbol : String
  pub side : String
  pub status : String
  pub executed_quantity : D
  pub fill_price : D

-- The clients of the struct fillProcessor; its repository is the world's.
pub record FillProcessor (D : Type 0) : Type 0 where
  pub livro_client : Option (LivroClient D)
  pub ativos_client : Option (AtivosClient D)

-- A call's error under the message of its caller.
abbrev pub or_wrap : String → Result (Unit {0}) → Result (Unit {0})
or_wrap message (ok _) = ok tt
or_wrap message (err e) = err (wrap message e)

module _ {D : Type 0} ⦃d : Decimals D⦄ where
  -- `newFilledQty`
  abbrev pub new_filled_quantity : BrokerOrder D → FillEvent D → D
  new_filled_quantity order event = d.add order.filled_quantity event.executed_quantity

  -- `newAvgPrice`
  unfoldable pub new_average_price : BrokerOrder D → FillEvent D → D
  new_average_price order event =
      if is_zero order.filled_quantity
      then event.fill_price
      else d.div
          (d.add (d.mul order.filled_quantity order.average_fill_price)
            (d.mul event.executed_quantity event.fill_price))
          (new_filled_quantity order event)

  -- `newStatus`
  unfoldable pub new_status : BrokerOrder D → FillEvent D → String
  new_status order event =
      if equal_fold event.status status_filled
        || at_least (new_filled_quantity order event) order.target_quantity
      then status_filled
      else status_partial

  module _ ⦃u : Uuids⦄ where
    -- The key of a fill: a prefix, the intent, the broker's order id and the filled quantity.
    unfoldable pub fill_key : String → BrokerOrder D → FillEvent D → String
    fill_key prefix order event =
        prefix
        ++ u.show order.trade_intent_id
        ++ "-"
        ++ order.provider_order_id
        ++ "-"
        ++ d.show (new_filled_quantity order event)

    unfoldable pub sync_params : BrokerOrder D → FillEvent D → SyncExecutionParams D
    sync_params order event = record {
      tenant_id = order.tenant_id;
      portfolio_id = order.portfolio_id;
      trade_intent_id = u.show order.trade_intent_id;
      ticker = order.symbol;
      action = if equal_fold order.side side_sell then Action.sell else Action.buy;
      executed_shares = event.executed_quantity;
      executed_price = event.fill_price;
      idempotency_key = fill_key "sync-ativos-" order event;
    }

    unfoldable pub capture_params : String → BrokerOrder D → FillEvent D → CaptureHoldParams D
    capture_params account order event = record {
      hold_id =
          if order.livro_hold_id =ₛ "" then u.show order.trade_intent_id else order.livro_hold_id;
      amount = d.mul event.executed_quantity event.fill_price;
      destination_account_id = account;
      description = "Execution fill for order " ++ order.provider_order_id;
      idempotency_key = fill_key "cap-" order event;
      release_remainder = new_status order event =ₛ status_filled;
    }

    unfoldable pub credit_params : BrokerOrder D → FillEvent D → CreditParams D
    credit_params order event = record {
      tenant_id = order.tenant_id;
      account_id = order.user_id;
      amount = d.mul event.executed_quantity event.fill_price;
      currency = "USD";
      description = "Sale execution proceeds for order " ++ order.provider_order_id;
      reference = u.show order.trade_intent_id;
      idempotency_key = fill_key "credit-" order event;
    }

    -- The branch of a purchase: the clearing account, then the capture of the hold.
    unfoldable pub capture :
        LivroClient D → BrokerOrder D → FillEvent D → World D → Result (Unit {0}) × World D
    capture livro order event w =
        let asked = log (open_broker_account order.tenant_id) w in
        elim (livro.get_or_create_broker_account order.tenant_id) [
          | err e ↦ (err (wrap "failed to resolve broker clearing account in livro" e), asked)
          | ok account ↦
              let params = capture_params account order event in
              (
                or_wrap "livro CaptureHold failed" (livro.capture_hold params),
                log (capture_hold params) asked,
              )
        ]

    -- Step 2 of ProcessFill: Ativos if it is connected, else Livro, else nothing.
    unfoldable pub settle :
        FillProcessor D → BrokerOrder D → FillEvent D → World D → Result (Unit {0}) × World D
    unfolding capture
    settle p order event w = elim p.ativos_client [
      | some ativos ↦
          let params = sync_params order event in
          (
            or_wrap "ativos SyncBrokerExecution failed" (ativos.sync_broker_execution params),
            log (sync_broker_execution params) w,
          )
      | none ↦ elim p.livro_client [
        | none ↦ (ok tt, w)
        | some livro ↦
            if equal_fold order.side side_buy
            then capture livro order event w
            else if equal_fold order.side side_sell
            then (let params = credit_params order event in
                (or_wrap "livro Credit failed" (livro.credit params), log (credit params) w))
            else (ok tt, w)
      ]
    ]

    -- The end of ProcessFill, once the fill has settled.
    unfoldable pub record_fill :
        BrokerOrder D → FillEvent D → Result (Unit {0}) × World D → Result (Unit {0}) × World D
    record_fill order event (err e, w) = (err e, w)
    record_fill order event (ok _, w) =
        let (r, q) =
          update_order_fill order.provider order.provider_order_id (new_status order event)
            (new_filled_quantity order event) (new_average_price order event) w in
        (or_wrap "failed to update broker_orders record" r, q)

    -- ProcessFill after the order was looked up.
    unfoldable pub apply_fill :
        FillProcessor D
        → FillEvent D
        → Result (BrokerOrder D) × World D
        → Result (Unit {0}) × World D
    apply_fill p event (err e, w) = (
      err (wrap ("failed to lookup order by provider_order_id " ++ event.provider_order_id) e),
      w,
    )
    apply_fill p event (ok order, w) = record_fill order event (settle p order event w)

    -- `ProcessFill`
    unfoldable pub process_fill :
        FillProcessor D → FillEvent D → World D → Result (Unit {0}) × World D
    process_fill p event w =
        if at_most event.executed_quantity d.zero
        then (err (other ("invalid executed quantity: " ++ d.show event.executed_quantity)), w)
        else if at_most event.fill_price d.zero
        then (err (other ("invalid fill price: " ++ d.show event.fill_price)), w)
        else apply_fill p event
            (get_order_by_provider_order_id event.provider event.provider_order_id w)
