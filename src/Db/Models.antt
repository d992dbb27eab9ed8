-- ===== src/Db/Models.antt =====
-- internal/db/models.go, and the tables of internal/db/migrations/001_initial_schema.sql as lists
-- of rows. A time is a number, and 0 is Go's zero time; a UUID is a number, and 0 is `uuid.Nil`.
use pregao.Prelude.{ℕ, String, Option}

abbrev pub status_pending : String
status_pending = "PENDING"

abbrev pub status_submitted : String
status_submitted = "SUBMITTED"

abbrev pub status_partial : String
status_partial = "PARTIAL"

abbrev pub status_filled : String
status_filled = "FILLED"

abbrev pub status_canceled : String
status_canceled = "CANCELED"

abbrev pub status_rejected : String
status_rejected = "REJECTED"

abbrev pub side_buy : String
side_buy = "BUY"

abbrev pub side_sell : String
side_sell = "SELL"

pub record BrokerCredential : Type 0 where
  pub id : ℕ
  pub tenant_id : String
  pub provider : String
  pub api_key_ciphertext : String
  pub api_secret_ciphertext : String
  pub created_at : ℕ

pub record BrokerOrder (D : Type 0) : Type 0 where
  pub id : ℕ
  pub trade_intent_id : ℕ
  pub tenant_id : String
  pub user_id : String
  pub provider : String
  pub provider_order_id : String
  pub symbol : String
  pub side : String
  pub target_quantity : D
  pub status : String
  pub filled_quantity : D
  pub average_fill_price : D
  pub idempotency_key : String
  pub portfolio_id : String
  pub livro_hold_id : String
  pub created_at : ℕ
  pub updated_at : ℕ

-- A row of broker_orders: four of its columns may be NULL.
pub record Row (D : Type 0) : Type 0 where
  pub id : ℕ
  pub trade_intent_id : ℕ
  pub tenant_id : String
  pub user_id : String
  pub provider : String
  pub provider_order_id : Option String
  pub symbol : String
  pub side : String
  pub target_quantity : D
  pub status : String
  pub filled_quantity : D
  pub average_fill_price : D
  pub idempotency_key : Option String
  pub portfolio_id : Option String
  pub livro_hold_id : Option String
  pub created_at : ℕ
  pub updated_at : ℕ
