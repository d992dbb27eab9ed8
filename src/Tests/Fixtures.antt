-- ===== src/Tests/Fixtures.antt =====
-- Data for the tests: whole numbers for decimals, printed numbers for UUIDs, a calm schedule.
use pregao.Prelude.{ℕ, suc, ◌+◌, ◌*◌, none, some, List, [], ◌∷◌}
use pregao.Prelude.Int.{ℤ, pos}
use pregao.Errors.{Result, ok, err, other}
use pregao.Decimal.Whole.{whole, digits, parse_ℤ}
use pregao.Uuid.{Uuids}
use pregao.Vault.{TransitClient}
use pregao.Broker.{BrokerClient, OrderResult, unspecified}
use pregao.Client.Livro.{LivroClient}
use pregao.Db.Models.{BrokerCredential, Row, status_filled, status_submitted}
use pregao.World.{World, Outside}
use pregao.Worker.{FillProcessor, FillEvent}
use pregao.Service.Server.{PregaoServer, ExecuteTradeRequest, buy}

abbrev pub natural : Result ℤ → Result ℕ
natural (ok (pos n)) = ok n
natural (ok _) = err (other "invalid UUID")
natural (err e) = err e

instance abbrev pub numbered : Uuids
numbered = record { parse = λ s. natural (parse_ℤ s); show = λ n. digits (suc n) n }

abbrev pub calm : Outside ℤ
calm = record {
  fault = λ n. none;
  others = λ n rows. rows;
  clock = λ n. 100 + n * 10;
  new_uuid = λ n. 1000 + n;
  ctx_error = λ n. none;
}

abbrev pub tenant_keys : BrokerCredential
tenant_keys = record {
  id = 1;
  tenant_id = "tenant-1";
  provider = "BINANCE";
  api_key_ciphertext = "vault:v1:k";
  api_secret_ciphertext = "vault:v1:s";
  created_at = 5;
}

abbrev pub world_with : List (Row ℤ) → World ℤ
world_with rows = record {
  orders = rows;
  credentials = tenant_keys ∷ [];
  calls = [];
  secrets = [];
  step = 0;
  slept = 0;
  outside = calm;
}

abbrev pub vault : TransitClient
vault = record {
  decrypt_credentials =
      λ k s. ok (record { api_key = some (1 ∷ 2 ∷ []); api_secret = some (3 ∷ 4 ∷ []) });
}

abbrev pub filled_result : OrderResult ℤ
filled_result = record {
  provider_order_id = "42";
  status = status_filled;
  executed_quantity = pos 5;
  cumulative_quote_quantity = pos 500;
  average_price = pos 100;
}

abbrev pub broker_that : Result (OrderResult ℤ) → BrokerClient ℤ
broker_that answer = record {
  get_book_tickers = λ symbols. ok [];
  validate_symbols = λ symbols. ok [];
  place_market_order = λ creds req. answer;
  get_account_balances = λ creds. ok [];
}

abbrev pub server_with : BrokerClient ℤ → PregaoServer ℤ
server_with broker = record {
  default_broker = unspecified;
  broker_client = broker;
  vault_client = vault;
  livro_client = none;
  fill_processor = none;
  reservation_wait = 300;
  reservation_poll = 100;
}

abbrev pub trade : ExecuteTradeRequest
trade = record {
  trade_intent_id = "7";
  tenant_id = "tenant-1";
  user_id = "user-1";
  provider = "binance";
  symbol = "btcusdt";
  side = buy;
  quantity = "5";
  idempotency_key = "idem-1";
  portfolio_id = "";
  livro_hold_id = "";
}

abbrev pub settled_row : Row ℤ
settled_row = record {
  id = 900;
  trade_intent_id = 7;
  tenant_id = "tenant-1";
  user_id = "user-1";
  provider = "BINANCE";
  provider_order_id = some "41";
  symbol = "BTCUSDT";
  side = "BUY";
  target_quantity = pos 10;
  status = status_submitted;
  filled_quantity = pos 2;
  average_fill_price = pos 100;
  idempotency_key = some "idem-0";
  portfolio_id = some "";
  livro_hold_id = some "";
  created_at = 50;
  updated_at = 50;
}

abbrev pub fill : FillEvent ℤ
fill = record {
  provider = "BINANCE";
  provider_order_id = "41";
  symbol = "BTCUSDT";
  side = "BUY";
  status = "PARTIALLY_FILLED";
  executed_quantity = pos 2;
  fill_price = pos 200;
}

-- A ledger that takes every call.
abbrev pub ledger : LivroClient ℤ
ledger = record {
  capture_hold = λ p. ok tt;
  credit = λ p. ok tt;
  get_balance = λ account. ok (pos 0);
  get_or_create_broker_account = λ tenant. ok "clearing";
}

abbrev pub standalone : FillProcessor ℤ
standalone = record { livro_client = some ledger; ativos_client = none }
