-- ===== src/Tests/Downstream.antt =====
-- Runs of the ledger client over gRPC and of the configuration, and their theorems at such runs.
use pregao.Prelude.{inr, ◌≡◌, refl, ◌↔◌, ◌⊎◌, String, Option, none, some, [], ◌∷◌, All}
use pregao.Prelude.Text.{trim_space}
use pregao.Prelude.Maps.{get_entry}
use pregao.Prelude.Int.{ℤ}
use pregao.Errors.{ok}
use pregao.Decimal.Whole.{whole}
use pregao.Config.{returned, panicked, load, require_env}
use pregao.Config.Complete.{load-first_missing, config_of}
use pregao.Client.Livro.Grpc.{
  LedgerServiceClient, AccountResponse, grpc_livro_client, get_or_create_broker_account, account_id,
}
use pregao.Client.Livro.Account.{Gives, GivesNone, get_or_create_broker_account_iff}
use pregao.Worker.{FillProcessor, process_fill}
use pregao.Worker.Clearing.{HasDestination, process_fill-HasDestination}
use pregao.Tests.Fixtures.{world_with, settled_row, fill, numbered}

abbrev account : String → Option AccountResponse
account id = some (record { account = some (record { id = id }) })

-- A ledger that cannot open the account, and knows it.
abbrev pub stub : LedgerServiceClient
stub = record {
  capture_hold = λ r. ok tt;
  credit = λ r. ok tt;
  get_balance = λ a. ok "0";
  initialize_account = λ r. ok (account "");
  get_account = λ l. ok (account "acc-9");
  quoted = λ s. s;
}

test_get_or_create_broker_account : get_or_create_broker_account stub "tenant-1" ≡ ok "acc-9"
unfolding get_or_create_broker_account account_id
test_get_or_create_broker_account = refl

get_or_create_broker_account_iff_example :
    (get_or_create_broker_account stub "tenant-1" ≡ ok "acc-9") ↔ (
      Gives (ok (account "")) "acc-9"
      ⊎ (GivesNone (ok (account "")) × Gives (ok (account "acc-9")) "acc-9"))
get_or_create_broker_account_iff_example = get_or_create_broker_account_iff stub "tenant-1" "acc-9"

abbrev on_grpc : FillProcessor ℤ
on_grpc = record { livro_client = some (grpc_livro_client stub); ativos_client = none }

process_fill-HasDestination_example :
    All HasDestination (process_fill on_grpc fill (world_with (settled_row ∷ []))).1.calls
process_fill-HasDestination_example =
    process_fill-HasDestination on_grpc fill (world_with (settled_row ∷ [])) (inr (stub, refl)) tt

or_unset : Option String → String
or_unset none = ""
or_unset (some s) = s

-- The first two variables are set, the second to blanks.
abbrev environment : String → String
environment key = or_unset (get_entry key (("PORT", "9090") ∷ ("HTTP_PORT", "  ") ∷ []))

load-first_missing_example :
    load environment ≡ panicked "missing required environment variable: HTTP_PORT"
unfolding trim_space or_unset
load-first_missing_example = load-first_missing environment

test_load : load (λ key. "binance/") ≡ returned (config_of (λ key. "binance/"))
unfolding load require_env trim_space
test_load = refl
