-- ===== src/Service/Interleaving.antt =====
-- ExecuteTrade as many requests run it at once, on any number of replicas: each statement and each
-- call of the broker is one step, and the steps of the requests come in any order. The statements
-- are those of Db/Orders. A fill of the webhook may come at any time.
pub mod Keys
pub mod Held
pub mod OneOrder
pub mod Environment
pub mod Seen
pub mod Reserving
pub mod Rounds
pub mod Statements
pub mod Finishing
pub mod Dispatching
pub mod Refines
use pregao.Prelude.{
  ℕ, Bool, true, false, ◌≡◌, String, List, ◌∷◌, update_if, remove_if, if◌then◌else◌, ◌==◌,
}
use pregao.Decimal.{Decimals}
use pregao.Db.Models.{Row, BrokerOrder}
use pregao.Db.Orders.{
  insert_row, insert_order, prepare, is_reservation, confirmed, is_placed_as, filled_to,
}

-- Where a request stands in ExecuteTrade.
pub data Stage : Type 0 where
  -- In the loop of reserveOrder.
  reserving : Stage
  -- Past the reservation; the broker has not answered.
  holding : Stage
  -- The dispatch failed; the deferred release is to come.
  releasing : Stage
  -- The broker accepted the order; ConfirmOrder is to come.
  accepted : Stage
  done : Stage

pub record System (D : Type 0) : Type 0 where
  pub rows : List (Row D)
  pub stage : ℕ → Stage
  -- The requests that heard from the broker that it accepted their order, the newest first.
  pub placed : List ℕ

abbrev pub set_stage : ℕ → Stage → (ℕ → Stage) → ℕ → Stage
set_stage i st f j = if j == i then st else f j

-- The n-th request runs for the order `order n`.
module _ {D : Type 0} ⦃d : Decimals D⦄ (order : ℕ → BrokerOrder D) where
  -- The row that request i inserts, at the given fresh id and time.
  abbrev pub row : ℕ → ℕ → ℕ → Row D
  row fresh time i = insert_row (prepare fresh time (order i))

  pub data Step (s t : System D) : Type 0 where
    reserves :
        (i fresh time : ℕ) (rows : List (Row D))
        → s.stage i ≡ reserving
        → insert_order (row fresh time i) s.rows ≡ (true, rows)
        → t ≡ record s { rows = rows; stage = set_stage i holding s.stage }
        → Step s t
    -- The insert was made, but the statement's answer was lost: the request ends with an error.
    reserves_unheard :
        (i fresh time : ℕ) (rows : List (Row D))
        → s.stage i ≡ reserving
        → insert_order (row fresh time i) s.rows ≡ (true, rows)
        → t ≡ record s { rows = rows; stage = set_stage i done s.stage }
        → Step s t
    -- A duplicate that got the recorded order, or gave up.
    leaves :
        (i : ℕ)
        → s.stage i ≡ reserving
        → t ≡ record s { stage = set_stage i done s.stage }
        → Step s t
    -- No credentials, no decryption, or an error of PlaceMarketOrder: one by which the broker refuses
    -- the order, or one by which the answer is lost though the broker may have taken it.
    fails :
        (i : ℕ)
        → s.stage i ≡ holding
        → t ≡ record s { stage = set_stage i releasing s.stage }
        → Step s t
    accepts :
        (i : ℕ)
        → s.stage i ≡ holding
        → t ≡ record s { stage = set_stage i accepted s.stage; placed = i ∷ s.placed }
        → Step s t
    releases :
        (i : ℕ)
        → s.stage i ≡ releasing
        → t ≡ record s {
          rows = remove_if (is_reservation (order i).id) s.rows;
          stage = set_stage i done s.stage;
        }
        → Step s t
    release_fails :
        (i : ℕ)
        → s.stage i ≡ releasing
        → t ≡ record s { stage = set_stage i done s.stage }
        → Step s t
    confirms :
        (i : ℕ) (order_id status : String) (filled price : D) (time : ℕ)
        → s.stage i ≡ accepted
        → t ≡ record s {
          rows =
              update_if
                (is_reservation (order i).id)
                (confirmed order_id status filled price time)
                s.rows;
          stage = set_stage i done s.stage;
        }
        → Step s t
    confirm_fails :
        (i : ℕ)
        → s.stage i ≡ accepted
        → t ≡ record s { stage = set_stage i done s.stage }
        → Step s t
    fills :
        (provider order_id status : String) (filled price : D) (time : ℕ)
        → t ≡ record s {
          rows =
              update_if
                (is_placed_as provider order_id)
                (filled_to status filled price time)
                s.rows;
        }
        → Step s t

  -- The systems that the steps lead to.
  pub data Reach (s : System D) : System D → Type 0 where
    here : Reach s s
    next : {t v : System D} → Reach s t → Step t v → Reach s v
