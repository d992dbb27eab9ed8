-- ===== src/Db/Orders.antt =====
-- internal/db/orders_repo.go: each method is one SQL statement on broker_orders. The constraints
-- are those of internal/db/migrations/001_initial_schema.sql: the primary key, the unique
-- trade_intent_id, and the partial unique index on (tenant_id, idempotency_key).
pub mod Keys
pub mod Constraints
pub mod Lifecycle
use pregao.Prelude.{
  ℕ, Bool, true, false, not, ◌&&◌, ◌||◌, String, Option, none, some, List, [], ◌∷◌, if◌then◌else◌,
  ◌==◌, find, any, remove_if, update_if,
}
use pregao.Prelude.Text.{◌=ₛ◌}
use pregao.Errors.{Error, Result, ok, err, wrap, sentinel, Sentinel}
use pregao.Decimal.{Decimals}
use pregao.Db.Models.{Row, BrokerOrder, status_pending}
use pregao.World.{World, turn, now}

-- SQL's `column = $1`, where the column may be NULL.
abbrev pub null_eq : Option String → String → Bool
null_eq none s = false
null_eq (some t) s = t =ₛ s

-- `if p != nil { o.F = *p }` on a zero `o.F`.
abbrev pub or_empty : Option String → String
or_empty none = ""
or_empty (some s) = s

module _ {D : Type 0} where
  -- The scan of a row into the struct.
  abbrev pub scan_row : Row D → BrokerOrder D
  scan_row r = record {
    id = r.id;
    trade_intent_id = r.trade_intent_id;
    tenant_id = r.tenant_id;
    user_id = r.user_id;
    provider = r.provider;
    provider_order_id = or_empty r.provider_order_id;
    symbol = r.symbol;
    side = r.side;
    target_quantity = r.target_quantity;
    status = r.status;
    filled_quantity = r.filled_quantity;
    average_fill_price = r.average_fill_price;
    idempotency_key = or_empty r.idempotency_key;
    portfolio_id = or_empty r.portfolio_id;
    livro_hold_id = or_empty r.livro_hold_id;
    created_at = r.created_at;
    updated_at = r.updated_at;
  }

  -- `scanOrder` on what `QueryRow` found.
  abbrev pub scan_order : Option Error → Option (Row D) → Result (BrokerOrder D)
  scan_order (some e) found = err (wrap "failed to scan broker order" e)
  scan_order none none = err (sentinel Sentinel.order_not_found)
  scan_order none (some r) = ok (scan_row r)

  -- One SELECT with a WHERE clause; of several rows it takes the first.
  abbrev pub select_order : (Row D → Bool) → World D → Result (BrokerOrder D) × World D
  select_order where_ w =
      let q = turn w in (scan_order (w.outside.fault w.step) (find where_ q.orders), q)

  unfoldable pub get_order_by_intent_id : ℕ → World D → Result (BrokerOrder D) × World D
  get_order_by_intent_id intent = select_order λ r. r.trade_intent_id == intent

  unfoldable pub get_order_by_idempotency_key :
      String → String → World D → Result (BrokerOrder D) × World D
  get_order_by_idempotency_key tenant key =
      select_order λ r. r.tenant_id =ₛ tenant && null_eq r.idempotency_key key

  unfoldable pub get_order_by_provider_order_id :
      String → String → World D → Result (BrokerOrder D) × World D
  get_order_by_provider_order_id provider order_id =
      select_order λ r. r.provider =ₛ provider && null_eq r.provider_order_id order_id

  abbrev pub has_id : ℕ → Row D → Bool
  has_id id r = r.id == id

  -- The WHERE clause of ConfirmOrder and ReleaseOrder.
  abbrev pub is_reservation : ℕ → Row D → Bool
  is_reservation id r = r.id == id && r.status =ₛ status_pending

  -- The WHERE clause of UpdateOrderFill.
  abbrev pub is_placed_as : String → String → Row D → Bool
  is_placed_as provider order_id r = r.provider =ₛ provider && null_eq r.provider_order_id order_id

  -- Whether a unique constraint keeps `o` out of a table that holds `r`.
  unfoldable pub conflicts : Row D → Row D → Bool
  conflicts o r =
      r.id == o.id
      || r.trade_intent_id == o.trade_intent_id
      || (not (or_empty o.idempotency_key =ₛ "")
          && r.tenant_id =ₛ o.tenant_id
          && null_eq r.idempotency_key (or_empty o.idempotency_key))

module _ {D : Type 0} ⦃d : Decimals D⦄ where
  -- The row that ReserveOrder inserts: provider_order_id is not named, so NULL, and the NUMERIC
  -- columns keep 8 and 4 places.
  unfoldable pub insert_row : BrokerOrder D → Row D
  insert_row o = record {
    id = o.id;
    trade_intent_id = o.trade_intent_id;
    tenant_id = o.tenant_id;
    user_id = o.user_id;
    provider = o.provider;
    provider_order_id = none;
    symbol = o.symbol;
    side = o.side;
    target_quantity = d.round o.target_quantity 8;
    status = o.status;
    filled_quantity = d.round o.filled_quantity 8;
    average_fill_price = d.round o.average_fill_price 4;
    idempotency_key = some o.idempotency_key;
    portfolio_id = some o.portfolio_id;
    livro_hold_id = some o.livro_hold_id;
    created_at = o.created_at;
    updated_at = o.updated_at;
  }

  -- What ReserveOrder writes into its argument before the insert, at the given id and time.
  unfoldable pub prepare : ℕ → ℕ → BrokerOrder D → BrokerOrder D
  prepare fresh time o = record o {
    id = if o.id == 0 then fresh else o.id;
    status = status_pending;
    created_at = if o.created_at == 0 then time else o.created_at;
    updated_at = if o.updated_at == 0 then time else o.updated_at;
  }

  -- INSERT … ON CONFLICT DO NOTHING; the answer is whether a row was written.
  unfoldable pub insert_order : Row D → List (Row D) → Bool × List (Row D)
  insert_order r rows = if any (conflicts r) rows then (false, rows) else (true, r ∷ rows)

  -- The order comes back as the call left it.
  unfoldable pub reserve_order : BrokerOrder D → World D → Result Bool × BrokerOrder D × World D
  unfolding prepare
  reserve_order order w =
      let q = turn w in
      let o = prepare (w.outside.new_uuid w.step) (now w) order in
      elim (w.outside.fault w.step) [
        | some e ↦ (err (wrap "failed to reserve broker order" e), o, q)
        | none ↦
            let (written, rows) = insert_order (insert_row o) q.orders in
            (ok written, o, record q { orders = rows })
      ]

  abbrev pub confirmed : String → String → D → D → ℕ → Row D → Row D
  confirmed order_id status filled price time r = record r {
    provider_order_id = some order_id;
    status = status;
    filled_quantity = d.round filled 8;
    average_fill_price = d.round price 4;
    updated_at = time;
  }

  abbrev pub filled_to : String → D → D → ℕ → Row D → Row D
  filled_to status filled price time r = record r {
    status = status;
    filled_quantity = d.round filled 8;
    average_fill_price = d.round price 4;
    updated_at = time;
  }

  -- An UPDATE: the message is for a failed statement, and no row affected is ErrOrderNotFound.
  abbrev pub update_orders :
      String → (Row D → Bool) → (Row D → Row D) → World D → Result (Unit {0}) × World D
  update_orders message where_ set w =
      let q = turn w in
      elim (w.outside.fault w.step) [
        | some e ↦ (err (wrap message e), q)
        | none ↦
            if any where_ q.orders
            then (ok tt, record q { orders = update_if where_ set q.orders })
            else (err (sentinel Sentinel.order_not_found), q)
      ]

  unfoldable pub confirm_order : ℕ → String → String → D → D → World D → Result (Unit {0}) × World D
  confirm_order id order_id status filled price w =
      update_orders "failed to confirm broker order" (is_reservation id)
        (confirmed order_id status filled price (now w)) w

  unfoldable pub release_order : ℕ → World D → Result (Unit {0}) × World D
  release_order id w =
      let q = turn w in
      elim (w.outside.fault w.step) [
        | some e ↦ (err (wrap "failed to release broker order reservation" e), q)
        | none ↦ (ok tt, record q { orders = remove_if (is_reservation id) q.orders })
      ]

  unfoldable pub update_order_fill :
      String → String → String → D → D → World D → Result (Unit {0}) × World D
  update_order_fill provider order_id status filled price w =
      update_orders "failed to update broker order fill" (is_placed_as provider order_id)
        (filled_to status filled price (now w)) w
