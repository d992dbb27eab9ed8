-- ===== src/Tests/Schedules.antt =====
-- A request among others: while it runs, another one reserves and is placed.
use pregao.Prelude.{
  ℕ, zero, suc, ◌+◌, ◌≤◌, ◌≡◌, refl, ◌∙◌, false, String, some, [], ◌∷◌, arith, if◌then◌else◌, ◌==◌,
  Bool-cases, any, inl, inr,
}
use pregao.Prelude.Int.{ℤ, pos, compare_ℤ}
use pregao.Prelude.Text.{trim_space}
use pregao.Errors.{ok, Reply}
use pregao.Decimal.Whole.{whole, parse_ℤ}
use pregao.Db.Models.{BrokerOrder}
use pregao.Db.Orders.{insert_order, conflicts}
use pregao.World.{World, Outside}
use pregao.Service.Server.{PregaoServer, ExecuteTradeResponse}
use pregao.Service.Execute.{execute_trade, build_order, validate}
use pregao.Service.Interleaving.{
  reserving, holding, accepted, done, System, set_stage, row, Reach, here, next, reserves, accepts,
}
use pregao.Service.Interleaving.Held.{AllPairs}
use pregao.Service.Interleaving.OneOrder.{start, Rivals}
use pregao.Service.Interleaving.Environment.{Plays}
use pregao.Service.Interleaving.Refines.{Explains, execute_trade-Reach}
use pregao.Tests.Fixtures.{
  numbered, calm, world_with, filled_result, broker_that, server_with, trade,
}

abbrev good : PregaoServer ℤ
good = server_with (broker_that (ok filled_result))

abbrev key : ℕ → String
key zero = "idem-1"
key (suc n) = ""

-- Request 0 runs for `trade`, the others for other intents.
abbrev request : ℕ → BrokerOrder ℤ
request n = record (build_order good trade 1000 7 (pos 5)) {
  id = 1000 + n;
  trade_intent_id = 7 + n;
  idempotency_key = key n;
}

-- Before operation 1, request 1 inserts its row if it can.
abbrev busy : Outside ℤ
busy = record calm {
  others = λ n rows. if n == 1 then (insert_order (row request 5 6 1) rows).1 else rows;
}

-- Up to there it is at its start.
abbrev Waits : ℕ → System ℤ → Type 0
Waits n s = n ≤ 1 → s.stage 1 ≡ reserving

abbrev after_placed : System ℤ → System ℤ
after_placed s = record s {
  rows = row request 5 6 1 ∷ s.rows;
  stage = set_stage 1 accepted (set_stage 1 holding s.stage);
  placed = 1 ∷ s.placed;
}

-- Request 1 reserves, and the broker accepts its order.
after_placed-Reach :
    (s : System ℤ)
    → s.stage 1 ≡ reserving
    → any (conflicts (row request 5 6 1)) s.rows ≡ false
    → Reach request s (after_placed s)
unfolding insert_order
after_placed-Reach s at free =
    next (next here (reserves 1 5 6 (row request 5 6 1 ∷ s.rows) at (rw free refl) refl))
      (accepts 1 refl refl)

busy-Plays : Plays request 0 busy Waits
unfolding insert_order
busy-Plays = record {
  acts = λ n s may. elim (Bool-cases (n == 1)) [
    | inr other ↦ (s, here, rw other refl, refl, λ le. may (omega arith))
    | inl now ↦ elim (Bool-cases (any (conflicts (row request 5 6 1)) s.rows)) [
      | inl taken ↦ (s, here, rw (now, taken) refl, refl, λ le. absurd (ground arith))
      | inr free ↦ (
        after_placed s,
        after_placed-Reach s (may (ground arith)) free,
        rw (now, free) refl,
        refl,
        λ le. absurd (ground arith),
      )
    ]
  ];
  own = λ n s t may st same le. same 1 (omega arith) ∙ may le;
}

abbrev busy_world : World ℤ
busy_world = record (world_with []) { outside = busy }

execute_trade-Reach_example :
    (y : Reply ExecuteTradeResponse × World ℤ) × (v : System ℤ) × (execute_trade 4 good trade
        busy_world
      ≡ some y)
    × Reach request (start []) v
    × (v.rows ≡ y.1.orders)
    × (v.stage 0 ≡ done)
    × Explains request 0 (Reach request (start [])) busy_world v y
    × AllPairs (λ j k. ¬ Rivals request j k) v.placed
unfolding validate trim_space parse_ℤ compare_ℤ build_order
execute_trade-Reach_example =
    execute_trade-Reach request 0 Waits [] (start []) 3 good trade 7 (pos 5) busy_world
      (λ j. omega arith) (λ j k e. omega arith) tt here refl refl (λ le. refl) busy-Plays (inl refl)
      refl refl (λ n. omega arith) (omega arith)
