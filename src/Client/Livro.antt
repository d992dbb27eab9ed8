-- ===== src/Client/Livro.antt =====
-- internal/client/livro/client.go: the calls of the ledger service. The generated stub is a
-- parameter, and a nil client is `none` where the interface is used.
pub mod Grpc
pub mod Account
use pregao.Prelude.{Bool, String}
use pregao.Errors.{Result}

pub record CaptureHoldParams (D : Type 0) : Type 0 where
  pub hold_id : String
  pub amount : D
  pub destination_account_id : String
  pub description : String
  pub idempotency_key : String
  pub release_remainder : Bool

pub record CreditParams (D : Type 0) : Type 0 where
  pub tenant_id : String
  pub account_id : String
  pub amount : D
  pub currency : String
  pub description : String
  pub reference : String
  pub idempotency_key : String

-- The interface Client; the responses of CaptureHold and Credit are used only for their errors.
pub record LivroClient (D : Type 0) : Type 0 where
  pub capture_hold : CaptureHoldParams D → Result (Unit {0})
  pub credit : CreditParams D → Result (Unit {0})
  pub get_balance : String → Result D
  pub get_or_create_broker_account : String → Result String
