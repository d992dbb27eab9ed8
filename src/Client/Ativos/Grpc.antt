-- ===== src/Client/Ativos/Grpc.antt =====
-- internal/client/ativos/client.go: the portfolio client over gRPC. The generated stub is a
-- parameter.
use Prim.Native.String.{◌++◌}
use pregao.Prelude.{String}
use pregao.Errors.{Result, ok, relabel, and_then}
use pregao.Decimal.{Decimals}
use pregao.Client.Ativos.{Action, SyncExecutionParams, AtivosClient}

pub record SyncBrokerExecutionRequest : Type 0 where
  pub tenant_id : String
  pub portfolio_id : String
  pub trade_intent_id : String
  pub ticker : String
  pub action : Action
  pub executed_shares : String
  pub executed_price : String
  pub idempotency_key : String

-- The stub `ativosv1.PortfolioServiceClient`.
pub record PortfolioServiceClient : Type 0 where
  pub sync_broker_execution : SyncBrokerExecutionRequest → Result (Unit {0})

module _ {D : Type 0} ⦃d : Decimals D⦄ where
  abbrev pub sync_request : SyncExecutionParams D → SyncBrokerExecutionRequest
  sync_request p = record {
    tenant_id = p.tenant_id;
    portfolio_id = p.portfolio_id;
    trade_intent_id = p.trade_intent_id;
    ticker = p.ticker;
    action = p.action;
    executed_shares = d.show p.executed_shares;
    executed_price = d.show p.executed_price;
    idempotency_key = p.idempotency_key;
  }

  -- The client as its users see it.
  unfoldable pub grpc_ativos_client : PortfolioServiceClient → AtivosClient D
  grpc_ativos_client c = record {
    sync_broker_execution =
        λ p. relabel "ativos SyncBrokerExecution failed" (c.sync_broker_execution (sync_request p));
  }

  -- `NewClient`, of a connection that `grpc.Dial` gives and the stub on it.
  unfoldable pub dial_ativos :
      {C : Type 0}
      → (String → Result C)
      → (C → PortfolioServiceClient)
      → String
      → Result (AtivosClient D)
  unfolding grpc_ativos_client
  dial_ativos dial stub addr =
      and_then (relabel ("failed to dial ativos at " ++ addr) (dial addr))
        λ conn. ok (grpc_ativos_client (stub conn))
