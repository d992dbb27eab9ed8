-- ===== src/Service/Balances.antt =====
-- `SyncBrokerBalances` of internal/service/service.go: the broker's balance in dollars against the
-- ledger's.
pub mod Figures
pub mod Outcomes
use Prim.Native.String.{◌++◌}
use pregao.Prelude.{Bool, String, Option, none, some, List, [], ◌∷◌, if◌then◌else◌}
use pregao.Prelude.Text.{◌=ₛ◌, trim_space}
use pregao.Prelude.Maps.{get_entry}
use pregao.Errors.{Sentinel, Result, ok, err, Reply, reply, status, Code, error_text, errors_is}
use pregao.Decimal.{Decimals, above, is_zero}
use pregao.Vault.{PlaintextCredentials}
use pregao.Client.Livro.{LivroClient}
use pregao.Calls.{open_broker_account}
use pregao.Db.Models.{BrokerCredential}
use pregao.Db.Credentials.{get_credentials}
use pregao.World.{World, log}
use pregao.Service.Server.{PregaoServer, resolve_provider}
use pregao.Service.Execute.{zero_secrets, hold_secrets}

pub record SyncBrokerBalancesRequest : Type 0 where
  pub tenant_id : String
  pub user_id : String
  pub provider : String

pub record SyncBrokerBalancesResponse : Type 0 where
  pub in_sync : Bool
  pub net_fiat_adjustment : String

-- The assets that stand for dollars, in the order in which they are looked up.
abbrev pub fiat_assets : List String
fiat_assets = "USDT" ∷ "USD" ∷ "BUSD" ∷ "USDC" ∷ []

-- The account of a call, or no account where it failed, which is only logged.
abbrev pub or_blank : Result String → String
or_blank (ok s) = s
or_blank (err e) = ""

module _ {D : Type 0} ⦃d : Decimals D⦄ where
  -- One turn of the loop: `bal` is the asset's entry.
  abbrev pub or_next : Option D → D → D
  or_next none next = next
  or_next (some bal) next = if above bal d.zero then bal else next

  -- `brokerFiatBal`
  unfoldable pub fiat_balance : List String → List (String × D) → D
  fiat_balance [] balances = d.zero
  fiat_balance (asset ∷ assets) balances =
      or_next (get_entry asset balances) (fiat_balance assets balances)

  -- The value of a call, or the zero value where it failed, which is only logged.
  abbrev pub or_zero : Result D → D
  or_zero (ok b) = b
  or_zero (err e) = d.zero

  -- `ledgerBal`, of an account.
  abbrev pub account_balance : LivroClient D → String → D
  account_balance livro account =
      if account =ₛ "" then d.zero else or_zero (livro.get_balance account)

  -- `ledgerBal`
  unfoldable pub ledger_balance : Option (LivroClient D) → SyncBrokerBalancesRequest → D
  ledger_balance none req = d.zero
  ledger_balance (some livro) req =
      if trim_space req.user_id =ₛ ""
      then account_balance livro (or_blank (livro.get_or_create_broker_account req.tenant_id))
      else account_balance livro (trim_space req.user_id)

  -- The call by which the ledger may open an account.
  unfoldable pub ask_ledger : Option (LivroClient D) → SyncBrokerBalancesRequest → World D → World D
  ask_ledger none req w = w
  ask_ledger (some livro) req w =
      if trim_space req.user_id =ₛ "" then log (open_broker_account req.tenant_id) w else w

  -- The response, from the two balances.
  unfoldable pub adjustment : D → D → SyncBrokerBalancesResponse
  adjustment fiat ledger = record {
    in_sync = is_zero (d.sub fiat ledger);
    net_fiat_adjustment = d.show_fixed (d.sub fiat ledger) 4;
  }

  -- From the broker's answer on.
  unfoldable pub on_balances :
      PregaoServer D
      → SyncBrokerBalancesRequest
      → Result (List (String × D))
      → World D
      → Reply SyncBrokerBalancesResponse × World D
  on_balances s req (err e) w =
      (status Code.unavailable ("failed to fetch broker balances: " ++ error_text e), w)
  on_balances s req (ok balances) w = (
    reply (adjustment (fiat_balance fiat_assets balances) (ledger_balance s.livro_client req)),
    ask_ledger s.livro_client req w,
  )

  -- From the vault's answer on, with the deferred wiping.
  unfoldable pub on_plaintext :
      PregaoServer D
      → SyncBrokerBalancesRequest
      → Result PlaintextCredentials
      → World D
      → Reply SyncBrokerBalancesResponse × World D
  on_plaintext s req (err e) w =
      (status Code.internal ("failed to decrypt broker credentials: " ++ error_text e), w)
  on_plaintext s req (ok creds) w =
      let (answer, q) =
        on_balances s req (s.broker_client.get_account_balances creds) (hold_secrets creds w) in
      (answer, zero_secrets creds q)

  -- From the answer of the credentials' table on.
  unfoldable pub on_credential :
      PregaoServer D
      → SyncBrokerBalancesRequest
      → Result BrokerCredential × World D
      → Reply SyncBrokerBalancesResponse × World D
  on_credential s req (err e, w) = (
    if errors_is e Sentinel.credentials_not_found
        then status Code.failed_precondition (
            "broker credentials not configured for tenant "
            ++ req.tenant_id
            ++ ", provider "
            ++ resolve_provider s req.provider)
        else status Code.internal ("database error: " ++ error_text e),
    w,
  )
  on_credential s req (ok cred, w) =
      on_plaintext s req
        (s.vault_client.decrypt_credentials cred.api_key_ciphertext cred.api_secret_ciphertext) w

  -- `SyncBrokerBalances`
  unfoldable pub sync_broker_balances :
      PregaoServer D
      → SyncBrokerBalancesRequest
      → World D
      → Reply SyncBrokerBalancesResponse × World D
  sync_broker_balances s req w =
      if trim_space req.tenant_id =ₛ ""
      then (status Code.invalid_argument "tenant_id is required", w)
      else on_credential s req (get_credentials req.tenant_id (resolve_provider s req.provider) w)
