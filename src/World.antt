-- ===== src/World.antt =====
-- The state that a request runs against: the two tables, and a schedule that answers for what lies
-- outside the request. The n-th operation of a request asks the schedule at n: what other requests
-- did to the tables before it, whether the statement failed, and what the clock says.
use pregao.Prelude.{ℕ, suc, ◌+◌, ◌≤◌, ◌≡◌, Option, none, List, ◌∷◌}
use pregao.Errors.{Error}
use pregao.Vault.{Bytes}
use pregao.Calls.{Call}
use pregao.Db.Models.{Row, BrokerCredential}

pub record Outside (D : Type 0) : Type 0 where
  -- The error of the n-th statement, which then changed nothing, or `none`.
  pub fault : ℕ → Option Error
  -- What other requests did to broker_orders before the n-th operation.
  pub others : ℕ → List (Row D) → List (Row D)
  -- The time at the n-th operation, in nanoseconds, less what the request itself has slept.
  pub clock : ℕ → ℕ
  -- `uuid.New`
  pub new_uuid : ℕ → ℕ
  -- `ctx.Err()`, when the context is done at the n-th operation.
  pub ctx_error : ℕ → Option Error

pub record World (D : Type 0) : Type 0 where
  pub orders : List (Row D)
  pub credentials : List BrokerCredential
  -- The calls so far, the newest first.
  pub calls : List (Call D)
  -- The arrays of the plaintext credentials that the vault client has returned to the request, those
  -- of one answer together, the newest first. What the client itself leaves is not among them.
  pub secrets : List (List Bytes)
  pub step : ℕ
  -- How long the request has slept, in `time.After`.
  pub slept : ℕ
  pub outside : Outside D

module _ {D : Type 0} where
  -- The world at the next operation: the other requests have moved.
  abbrev pub turn : World D → World D
  turn w = record w { orders = w.outside.others w.step w.orders; step = suc w.step }

  -- `time.Now`
  abbrev pub now : World D → ℕ
  now w = w.outside.clock w.step + w.slept

  abbrev pub log : Call D → World D → World D
  log c w = record w { calls = c ∷ w.calls }

  -- No other request touches the orders.
  abbrev pub IsAlone : Outside D → Type 0
  IsAlone o = (n : ℕ) (rows : List (Row D)) → o.others n rows ≡ rows

  -- Time does not run backwards.
  abbrev pub IsMonotone : Outside D → Type 0
  IsMonotone o = (n : ℕ) → o.clock n ≤ o.clock (suc n)

  -- No statement fails.
  abbrev pub IsUp : Outside D → Type 0
  IsUp o = (n : ℕ) → o.fault n ≡ none
