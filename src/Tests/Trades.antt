-- ===== src/Tests/Trades.antt =====
-- Runs of ExecuteTrade, and its theorems at such runs.
use pregao.Prelude.{inr, ℕ, find, ◌≡◌, refl, some, [], ◌∷◌, arith}
use pregao.Prelude.Int.{ℤ, pos, compare_ℤ}
use pregao.Prelude.Text.{trim_space, to_upper}
use pregao.Errors.{ok, err, other, reply}
use pregao.Decimal.Whole.{whole, parse_ℤ}
use pregao.Db.Orders.{scan_row, confirmed}
use pregao.World.{World, IsAlone, IsMonotone}
use pregao.Service.Server.{PregaoServer, resolve_provider}
use pregao.Service.Reserve.{reserve}
use pregao.Service.Reserve.Outcomes.{Holds, Reserved, reserve-Reserved}
use pregao.Service.Reserve.Rounds.{Returns}
use pregao.Service.Execute.{
  execute_trade, validate, build_order, execute_response, order_status, zero_secrets, sync_fill,
  market_order,
}
use pregao.Service.Execute.Failure.{FailsClean, execute_trade-FailsClean, execute_trade_total}
use pregao.Service.Execute.Success.{new_row, execute_trade-fresh}
use pregao.Calls
use pregao.Vault.Wiped.{AllWiped}
use pregao.Service.Execute.Secrets.{execute_trade-IsWiped}
use pregao.Vault.{PlaintextCredentials}
use pregao.Broker.{provider_name, parse_broker}
use pregao.Db.Credentials.{is_for}
use pregao.Service.Execute.Replay.{execute_trade-replay}
use pregao.Worker.{process_fill}
use pregao.Tests.Fixtures.{
  standalone, numbered, tenant_keys, calm, world_with, filled_result, broker_that, server_with,
  trade, settled_row,
}

abbrev good : PregaoServer ℤ
good = server_with (broker_that (ok filled_result))

abbrev down : PregaoServer ℤ
down = server_with (broker_that (err (other "binance unavailable")))

valid_trade : validate trade ≡ reply (7, pos 5)
unfolding validate trim_space parse_ℤ compare_ℤ
valid_trade = refl

abbrev opened : PlaintextCredentials
opened = record { api_key = some (1 ∷ 2 ∷ []); api_secret = some (3 ∷ 4 ∷ []) }

keys_found :
    find (is_for "tenant-1" (resolve_provider good "binance")) (world_with []).credentials
    ≡ some tenant_keys
unfolding resolve_provider to_upper trim_space provider_name parse_broker
keys_found = refl

calm-IsAlone : IsAlone calm
calm-IsAlone n rows = refl

calm-IsMonotone : IsMonotone calm
calm-IsMonotone n = omega arith

execute_trade-FailsClean_example :
    Holds
      (FailsClean (world_with (settled_row ∷ [])))
      (execute_trade 4 down trade (world_with (settled_row ∷ [])))
execute_trade-FailsClean_example =
    execute_trade-FailsClean 4 down trade (world_with (settled_row ∷ [])) calm-IsAlone (λ n. refl)

execute_trade_total_example : Returns (execute_trade 4 good trade (world_with []))
execute_trade_total_example =
    execute_trade_total 3 good trade (world_with []) calm-IsMonotone (omega arith)

reserve-Reserved_example :
    Holds
      (Reserved (world_with []))
      (reserve 4 good (build_order good trade 9 7 (pos 5)) (world_with []))
reserve-Reserved_example =
    reserve-Reserved 4 good (build_order good trade 9 7 (pos 5)) (world_with []) calm-IsAlone
      (λ n. refl)

execute_trade-replay_example :
    (q : World ℤ) × (execute_trade 4 good trade (world_with (settled_row ∷ []))
      ≡ some (reply (execute_response (scan_row settled_row)), q))
    × (q.orders ≡ settled_row ∷ [])
    × (q.calls ≡ [])
execute_trade-replay_example =
    execute_trade-replay 3 good trade 7 (pos 5) settled_row (world_with (settled_row ∷ []))
      calm-IsAlone (λ n. refl) valid_trade refl refl

-- A new intent goes to the broker once, and its row is confirmed.
execute_trade-fresh_example :
    (c : World ℤ) × (time : ℕ) × (execute_trade 4 good trade (world_with [])
      ≡ some (
        reply (record { provider_order_id = "42"; status = order_status filled_result }),
        zero_secrets opened (sync_fill good trade filled_result c),
      ))
    × (c.orders
        ≡ confirmed "42"
            (order_status filled_result)
            (pos 5)
            (pos 100)
            time
            (new_row good trade 7 (pos 5) (world_with []))
          ∷ [])
    × (c.calls ≡ Calls.place_market_order (market_order trade (pos 5)) ∷ [])
execute_trade-fresh_example =
    execute_trade-fresh 3 good trade 7 (pos 5) tenant_keys opened filled_result (world_with [])
      calm-IsAlone (λ n. refl) valid_trade refl keys_found refl refl

-- With the worker's processor, which settles with a ledger.
abbrev settling : PregaoServer ℤ
settling = record good { fill_processor = some (process_fill standalone) }

execute_trade-IsWiped_example :
    Holds (λ y. AllWiped y.1.secrets) (execute_trade 4 settling trade (world_with []))
execute_trade-IsWiped_example =
    execute_trade-IsWiped 4 settling trade (world_with []) (inr (standalone, refl)) tt
