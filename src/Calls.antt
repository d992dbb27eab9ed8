-- ===== src/Calls.antt =====
-- The calls by which a request changes something outside the service, as a log. The source keeps no
-- such log: the theorems speak of it.
use pregao.Prelude.{String}
use pregao.Broker.{MarketOrderRequest}
use pregao.Client.Livro.{CaptureHoldParams, CreditParams}
use pregao.Client.Ativos.{SyncExecutionParams}

pub data Call (D : Type 0) : Type 0 where
  place_market_order : MarketOrderRequest D → Call D
  capture_hold : CaptureHoldParams D → Call D
  credit : CreditParams D → Call D
  sync_broker_execution : SyncExecutionParams D → Call D
  -- `GetOrCreateBrokerAccount`, which may open the account of a tenant.
  open_broker_account : String → Call D
