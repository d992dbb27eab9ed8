-- ===== src/Tests/Service.antt =====
-- Runs of GetQuotes and of SyncBrokerBalances, and their theorems at such runs.
use pregao.Prelude.{◌≡◌, refl, ◌↔◌, String, some, List, [], ◌∷◌, true, false}
use pregao.Prelude.Text.{◌=ₛ◌, to_upper, trim_space}
use pregao.Prelude.Maps.{get_entry}
use pregao.Prelude.Int.{ℤ, pos, compare_ℤ, ◌-ℤ◌}
use pregao.Errors.{ok, err, other, reply}
use pregao.Decimal.Whole.{whole, digits, show_ℤ, parse_ℤ}
use pregao.Decimal.WholeLaws.{whole_laws}
use pregao.Broker.{provider_name, parse_broker}
use pregao.Cache.{redis_client, fresh_key, stale_key, read_value}
use pregao.Vault.Wiped.{AllWiped}
use pregao.Db.Credentials.{get_credentials}
use pregao.World.{World}
use pregao.Service.Server.{PregaoServer, resolve_provider}
use pregao.Service.Quotes.{GetQuotesRequest, Quote, get_quotes, clean_symbols, clean_from}
use pregao.Service.Quotes.Clean.{IsDistinct, has, clean_symbols-IsDistinct}
use pregao.Service.Quotes.Pointwise.{get_quotes-refines}
use pregao.Service.Balances.{
  SyncBrokerBalancesRequest, SyncBrokerBalancesResponse, sync_broker_balances, on_credential,
  on_plaintext, on_balances, adjustment, fiat_balance, ledger_balance,
}
use pregao.Service.Balances.Outcomes.{
  KeepsRows, Reported, sync_broker_balances-IsWiped, sync_broker_balances_iff,
}
use pregao.Tests.Fixtures.{broker_that, server_with, filled_result, world_with, settled_row}
use pregao.Tests.Quotes.{memory, prices, cache, value_of}

abbrev untidy : List String
untidy = " btcusdt" ∷ "BTCUSDT" ∷ "" ∷ "ethUsdt " ∷ []

test_clean_symbols : clean_symbols untidy ≡ "BTCUSDT" ∷ "ETHUSDT" ∷ []
unfolding clean_symbols clean_from to_upper trim_space
test_clean_symbols = refl

clean_symbols-IsDistinct_example :
    IsDistinct (clean_symbols untidy) × (has "ETHUSDT" (clean_symbols untidy) ≡ true)
unfolding to_upper trim_space
clean_symbols-IsDistinct_example = clean_symbols-IsDistinct untidy "ETHUSDT"

abbrev unreachable : PregaoServer ℤ
unreachable =
    server_with (record (broker_that (ok filled_result)) {
      get_book_tickers = λ asked. err (other "timeout");
    })

abbrev kept : List (String × String)
kept = ("pregao:quotes:BINANCE:BTCUSDT", "7") ∷ ("pregao:quotes:stale:BINANCE:ETHUSDT", "9") ∷ []

abbrev asked : GetQuotesRequest
asked = record { provider = ""; symbols = untidy }

abbrev old_quote : Quote
old_quote = record { symbol = "?"; price = "9"; timestamp = pos 0; is_stale_cache = true }

get_quotes-refines_example :
    get_entry "ETHUSDT" (get_quotes (redis_client cache) unreachable (pos 100) asked kept).0
    ≡ some old_quote
unfolding clean_symbols clean_from to_upper trim_space resolve_provider provider_name parse_broker
    fresh_key stale_key read_value show_ℤ digits parse_ℤ
get_quotes-refines_example =
    get_quotes-refines cache unreachable (pos 100) asked kept (λ k. value_of (get_entry k kept))
      "ETHUSDT" (λ keys. refl) (λ syms ts k h missing. cc)

abbrev funded : PregaoServer ℤ
funded = server_with (record (broker_that (ok filled_result)) {
  get_account_balances = λ creds. ok (("USDT", pos 0) ∷ ("USD", pos 12) ∷ []);
})

abbrev balances_request : SyncBrokerBalancesRequest
balances_request = record { tenant_id = "tenant-1"; user_id = "user-1"; provider = "" }

abbrev alone_world : World ℤ
alone_world = world_with (settled_row ∷ [])

abbrev twelve : SyncBrokerBalancesResponse
twelve = record { in_sync = false; net_fiat_adjustment = "12" }

sync_broker_balances-IsWiped_example :
    AllWiped (sync_broker_balances funded balances_request alone_world).1.secrets
    × KeepsRows alone_world (sync_broker_balances funded balances_request alone_world).1
sync_broker_balances-IsWiped_example =
    sync_broker_balances-IsWiped funded balances_request alone_world (λ n rows. refl) tt

test_sync_broker_balances :
    (sync_broker_balances funded balances_request alone_world).0 ≡ reply twelve
unfolding sync_broker_balances on_credential on_plaintext on_balances adjustment fiat_balance
    ledger_balance resolve_provider provider_name parse_broker trim_space to_upper compare_ℤ show_ℤ
    digits get_credentials ◌-ℤ◌
test_sync_broker_balances = refl

sync_broker_balances_iff_example :
    ((sync_broker_balances funded balances_request alone_world).0 ≡ reply twelve) ↔ (
      ((trim_space "tenant-1" =ₛ "") ≡ false) × Reported funded balances_request alone_world twelve)
sync_broker_balances_iff_example =
    sync_broker_balances_iff funded balances_request alone_world twelve whole_laws
