-- ===== src/Client/Ativos.antt =====
-- internal/client/ativos/client.go: the calls of the portfolio service. The generated stub is a
-- parameter, and a nil client is `none` where the interface is used.
pub mod Grpc
use pregao.Prelude.{String}
use pregao.Errors.{Result}

pub data Action : Type 0 where
  buy sell : Action

pub record SyncExecutionParams (D : Type 0) : Type 0 where
  pub tenant_id : String
  pub portfolio_id : String
  pub trade_intent_id : String
  pub ticker : String
  pub action : Action
  pub executed_shares : D
  pub executed_price : D
  pub idempotency_key : String

-- The interface Client; a response is used only for its error.
pub record AtivosClient (D : Type 0) : Type 0 where
  pub sync_broker_execution : SyncExecutionParams D → Result (Unit {0})
