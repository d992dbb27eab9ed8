-- ===== src/Tests/Orders.antt =====
-- The repository's theorems on concrete rows.
use pregao.Db.Credentials.{get_credentials, save_credentials}
use pregao.Db.Credentials.RoundTrip.{Carries, loaded, get_credentials-save_credentials}
use pregao.Prelude.{ℕ, ◌≡◌, refl, inl, String, none, [], ◌∷◌, arith, any, false, ◌+◌}
use pregao.Prelude.Int.{ℤ, pos}
use pregao.Errors.{ok, err, sentinel, Sentinel}
use pregao.Decimal.Whole.{whole}
use pregao.Db.Models.{Row, BrokerOrder, BrokerCredential}
use pregao.Db.Orders.{
  reserve_order, confirm_order, release_order, update_order_fill, get_order_by_intent_id, scan_row,
  insert_row, conflicts, prepare, insert_order,
}
use pregao.Db.Orders.Constraints.{IsKeyed, statements-IsKeyed}
use pregao.Db.Orders.Lifecycle.{
  prepared, release_order-reserve_order, reserve_order-holds, confirm_order-settles,
}
use pregao.Service.Interleaving.{
  System, Reach, here, next, reserves, accepts, holding, accepted, row, set_stage,
}
use pregao.Service.Interleaving.Held.{AllPairs}
use pregao.Service.Interleaving.OneOrder.{Rivals, start, placed_once}
use pregao.Tests.Fixtures.{world_with, settled_row, tenant_keys}

abbrev new_order : BrokerOrder ℤ
new_order = record {
  id = 9;
  trade_intent_id = 8;
  tenant_id = "tenant-1";
  user_id = "user-1";
  provider = "BINANCE";
  provider_order_id = "";
  symbol = "BTCUSDT";
  side = "BUY";
  target_quantity = pos 5;
  status = "";
  filled_quantity = pos 0;
  average_fill_price = pos 0;
  idempotency_key = "idem-1";
  portfolio_id = "";
  livro_hold_id = "";
  created_at = 0;
  updated_at = 0;
}

abbrev pending_row : Row ℤ
pending_row = record settled_row { status = "PENDING"; provider_order_id = none }

statements-IsKeyed_example :
    ((o : BrokerOrder ℤ) → IsKeyed (reserve_order o (world_with (settled_row ∷ []))).2.orders)
    × ((id : ℕ) (i s : String) (q p : ℤ)
        → IsKeyed (confirm_order id i s q p (world_with (settled_row ∷ []))).1.orders)
    × ((id : ℕ) → IsKeyed (release_order id (world_with (settled_row ∷ []))).1.orders)
    × ((pr i s : String) (q p : ℤ)
        → IsKeyed (update_order_fill pr i s q p (world_with (settled_row ∷ []))).1.orders)
statements-IsKeyed_example = statements-IsKeyed (world_with (settled_row ∷ [])) (tt, tt)

new_is_free :
    any
      (conflicts (insert_row (prepared new_order (world_with (settled_row ∷ [])))))
      (settled_row ∷ [])
    ≡ false
unfolding conflicts insert_row prepare
new_is_free = refl

release_order-reserve_order_example :
    (release_order
      (prepared new_order (world_with (settled_row ∷ []))).id
      (reserve_order new_order (world_with (settled_row ∷ []))).2).1.orders
    ≡ settled_row ∷ []
release_order-reserve_order_example =
    release_order-reserve_order new_order (world_with (settled_row ∷ [])) (λ n rows. refl)
      (λ n. refl) new_is_free

reserve_order-holds_example :
    let q = (reserve_order new_order (world_with (settled_row ∷ []))).2 in
    ((get_order_by_intent_id 8 q).0
      ≡ ok (scan_row (insert_row (prepared new_order (world_with (settled_row ∷ []))))))
    × ((reserve_order new_order q).0 ≡ ok false)
    × ((reserve_order new_order q).2.orders ≡ q.orders)
reserve_order-holds_example =
    reserve_order-holds new_order new_order (world_with (settled_row ∷ [])) (λ n rows. refl)
      (λ n. refl) new_is_free (inl refl)

confirm_order-settles_example :
    let w = (confirm_order 900 "42" "FILLED" (pos 5) (pos 100) (world_with (pending_row ∷ []))).1 in
    ((confirm_order 900 "42" "FILLED" (pos 5) (pos 100) (world_with (pending_row ∷ []))).0 ≡ ok tt)
    × ((confirm_order 900 "43" "FILLED" (pos 1) (pos 1) w).0
        ≡ err (sentinel Sentinel.order_not_found))
    × ((release_order 900 w).1.orders ≡ w.orders)
confirm_order-settles_example =
    confirm_order-settles 900 "42" "FILLED" (pos 5) (pos 100) "43" "FILLED" (pos 1) (pos 1)
      (world_with (pending_row ∷ [])) (λ n rows. refl) (λ n. refl) refl refl

-- Request n runs for an order of its own id and intent, without a key.
abbrev request : ℕ → BrokerOrder ℤ
request n = record new_order { id = n + 1; trade_intent_id = n + 8; idempotency_key = "" }

abbrev reserved : ℕ → System ℤ → System ℤ
reserved i s = record s { rows = row request 5 6 i ∷ s.rows; stage = set_stage i holding s.stage }

abbrev placed_by : ℕ → System ℤ → System ℤ
placed_by i s = record s { stage = set_stage i accepted s.stage; placed = i ∷ s.placed }

-- Both reserve, then the second is placed before the first.
abbrev two_placed : System ℤ
two_placed = placed_by 0 (placed_by 1 (reserved 1 (reserved 0 (start []))))

two_placed-Reach : Reach request (start []) two_placed
unfolding insert_order conflicts insert_row prepare
two_placed-Reach =
    next
      (next
        (next (next here (reserves 0 5 6 (row request 5 6 0 ∷ []) refl refl refl))
          (reserves 1 5 6 (row request 5 6 1 ∷ row request 5 6 0 ∷ []) refl refl refl))
        (accepts 1 refl refl))
      (accepts 0 refl refl)

placed_once_example : AllPairs (λ i j. ¬ Rivals request i j) (0 ∷ 1 ∷ [])
placed_once_example =
    placed_once request (λ i. omega arith) (λ i j e. omega arith) {rows = []} {t = two_placed} tt
      two_placed-Reach

-- Another tenant's credentials are saved, in a table that holds the first tenant's.
abbrev other_keys : BrokerCredential
other_keys = record tenant_keys {
  id = 0;
  tenant_id = "tenant-2";
  api_key_ciphertext = "vault:v1:k2";
}

get_credentials-save_credentials_example :
    ((save_credentials other_keys (world_with [])).0 ≡ ok tt)
    × Carries other_keys (
        loaded
          (get_credentials "tenant-2" "BINANCE" (save_credentials other_keys (world_with [])).1).0)
    × (loaded
          (get_credentials "tenant-1" "BINANCE" (save_credentials other_keys (world_with [])).1).0
        ≡ loaded (get_credentials "tenant-1" "BINANCE" (world_with [])).0)
get_credentials-save_credentials_example =
    get_credentials-save_credentials other_keys "tenant-1" "BINANCE" (world_with []) (λ n. refl)
      refl
