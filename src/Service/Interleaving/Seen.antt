-- ===== src/Service/Interleaving/Seen.antt =====
-- The order with which reserveOrder answers a duplicate stands, settled, in a system of the run.
use pregao.Prelude.{
  ℕ, suc, Bool, not, ◌&&◌, ◌≡◌, refl, sym, ◌⊎◌, inl, inr, false, Option, none, some, List, arith,
  Bool-cases, find,
}
use pregao.Prelude.Text.{◌=ₛ◌}
use pregao.Errors.{Error, Sentinel, Result, ok, err, errors_is, ok_inj}
use pregao.Decimal.{Decimals}
use pregao.Db.Models.{Row, BrokerOrder, status_pending}
use pregao.Db.Orders.{get_order_by_intent_id, get_order_by_idempotency_key, scan_row, scan_order}
use pregao.World.{World, Outside, turn}
use pregao.Service.Reserve.{load_existing, or_by_key}
use pregao.Service.Reserve.Outcomes.{Recorded, by_intent, by_key}
use pregao.Service.Interleaving.{reserving, System}
use pregao.Service.Interleaving.Environment.{Plays, Shows, observe}

module _ {D : Type 0} where
  -- What the first look found, or the second.
  abbrev FoundAt :
      (BrokerOrder D → Row D → Bool) → BrokerOrder D → BrokerOrder D → List (Row D) → Type 0
  FoundAt by o x rows = (r : Row D) × (x ≡ scan_row r) × (find (by o) rows ≡ some r)

  scan_order-ok :
      (e : Option Error) (found : Option (Row D)) (x : BrokerOrder D)
      → scan_order e found ≡ ok x
      → (r : Row D) × (x ≡ scan_row r) × (found ≡ some r)
  scan_order-ok (some e) found x h = absurd (ground arith)
  scan_order-ok none none x h = absurd (ground arith)
  scan_order-ok none (some r) x h = (r, sym (ok_inj (scan_row r) x h), refl)

  or_by_key-ok :
      (o x : BrokerOrder D) (a : Result (BrokerOrder D)) (q : World D)
      → (or_by_key o (a, q)).0 ≡ ok x
      → (a ≡ ok x) ⊎ ((get_order_by_idempotency_key o.tenant_id o.idempotency_key q).0 ≡ ok x)
  or_by_key-ok o x (ok y) q h = inl h
  or_by_key-ok o x (err e) q h =
      elim (Bool-cases (errors_is e Sentinel.order_not_found && not (o.idempotency_key =ₛ ""))) [
        | inl again ↦ inr (rw again at h)
        | inr ends ↦ absurd (ground (arith, ends, h))
      ]

  load_existing-FoundAt :
      (o x : BrokerOrder D) (w : World D)
      → (load_existing o w).0 ≡ ok x
      → FoundAt by_intent o x (turn w).orders ⊎ FoundAt by_key o x (turn (turn w)).orders
  unfolding load_existing get_order_by_intent_id get_order_by_idempotency_key
  load_existing-FoundAt o x w h =
      elim (or_by_key-ok o x (get_order_by_intent_id o.trade_intent_id w).0 (turn w) h) [
        | inl first ↦
            inl
              (scan_order-ok (w.outside.fault w.step) (find (by_intent o) (turn w).orders) x first)
        | inr second ↦
            let q = turn w in
            inr (scan_order-ok (q.outside.fault q.step) (find (by_key o) (turn q).orders) x second)
      ]

module _ {D : Type 0} ⦃d : Decimals D⦄ (order : ℕ → BrokerOrder D) (i : ℕ) (out : Outside D)
    (Possible : ℕ → System D → Type 0) where
  -- The order is recorded in a system that may stand at some turn, and it is settled.
  abbrev pub Seen : BrokerOrder D → Type 0
  Seen x =
      (n : ℕ) × (t : System D) × Possible n t
      × Recorded (order i) x t.rows
      × ((x.status =ₛ status_pending) ≡ false)

  pub load_existing-Seen :
      (plays : Plays order i out Possible) (o x : BrokerOrder D) (w : World D) (s : System D)
      → (o.trade_intent_id ≡ (order i).trade_intent_id)
        × (o.tenant_id ≡ (order i).tenant_id)
        × (o.idempotency_key ≡ (order i).idempotency_key)
      → Shows order i out Possible w s
      → s.stage i ≡ reserving
      → (load_existing o w).0 ≡ ok x
      → (x.status =ₛ status_pending) ≡ false
      → Seen x
  load_existing-Seen plays o x w s same shown at found settled =
      let (t, _, shown1, at1) = observe order i out Possible plays w s reserving shown at in
      let (v, _, shown2, _) = observe order i out Possible plays (turn w) t reserving shown1 at1 in
      elim (load_existing-FoundAt o x w found) [
        | inl (r, is, first) ↦
            (suc w.step, t, shown1.2, (r, is, inl (rw (shown1.1, ← same.0) first)), settled)
        | inr (r, is, second) ↦ (
          suc (suc w.step),
          v,
          shown2.2,
          (r, is, inr (rw (shown2.1, ← same.1, ← same.2) second)),
          settled,
        )
      ]
