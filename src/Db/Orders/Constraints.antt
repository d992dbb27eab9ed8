-- ===== src/Db/Orders/Constraints.antt =====
-- The unique constraints of 001_initial_schema.sql, column by column, and the four statements of
-- orders_repo.go that write.
use pregao.Prelude.{
  ℕ, true, not, ◌&&◌, ap, some_inj, ◌≡◌, ◌≢◌, ◌↔◌, refl, false, String, Option, none, some, List,
  [], ◌∷◌, arith, any, All, Bool-cases, inl, inr,
}
use pregao.Prelude.Text.{◌=ₛ◌}
use text.Mathlib.TextEquality.{eq_iff}
use pregao.Decimal.{Decimals}
use pregao.Db.Models.{Row, BrokerOrder}
use pregao.World.{World, turn}
use pregao.Db.Orders.{
  conflicts, or_empty, null_eq, reserve_order, confirm_order, release_order, update_order_fill,
}
use pregao.Db.Orders.Keys.{
  IsUnique, insert_order-IsUnique, confirmed-IsUnique, filled-IsUnique, remove_if-IsUnique,
  update_orders_rule, release_order_rule, reserve_order_rule,
}

-- The test on the tenant and the key is an equality of both, where the key is not empty.
same_key :
    (k k' : Option String) (t t' : String)
    → ((not (or_empty k =ₛ "") && t' =ₛ t && null_eq k' (or_empty k)) ≡ true)
      ↔ ((t' ≡ t) × (k' ≡ k) × (or_empty k ≢ ""))
same_key none k' t t' = (λ h. absurd (ground arith), λ h. absurd (h.2 refl))
same_key (some a) none t t' = (λ h. absurd (ground arith), λ h. absurd (ground (arith, h.1)))
same_key (some a) (some b) t t' = (
  λ h. (
    ground (arith, h, eq_iff t' t),
    ap some (ground (arith, h, eq_iff b a)),
    λ e. ground (arith, h, eq_iff a "", e),
  ),
  λ h. ground (arith, h.0, some_inj b a h.1, h.2, eq_iff t' t, eq_iff b a, eq_iff a ""),
)

module _ {D : Type 0} where
  -- The rows differ in the primary key, in the trade intent, and in the tenant with its idempotency
  -- key where that is there and not empty.
  abbrev pub Differs : Row D → Row D → Type 0
  Differs r v =
      (v.id ≢ r.id)
      × (v.trade_intent_id ≢ r.trade_intent_id)
      × (¬ (
          (v.tenant_id ≡ r.tenant_id)
          × (v.idempotency_key ≡ r.idempotency_key)
          × (or_empty r.idempotency_key ≢ "")))

  -- The table keeps its three unique constraints.
  abbrev pub IsKeyed : List (Row D) → Type 0
  IsKeyed [] = Unit
  IsKeyed (r ∷ rows) = All (Differs r) rows × IsKeyed rows

  conflicts-Differs : (r v : Row D) → (conflicts r v ≡ false) ↔ Differs r v
  unfolding conflicts
  conflicts-Differs r v =
      let (to, from) = same_key r.idempotency_key v.idempotency_key r.tenant_id v.tenant_id in
      (
        λ h. (ground arith, ground arith, λ k. ground (arith, from k)),
        λ (i, n, k).
            elim (Bool-cases (
              not (or_empty r.idempotency_key =ₛ "")
              && v.tenant_id =ₛ r.tenant_id
              && null_eq v.idempotency_key (or_empty r.idempotency_key))) [
                | inl hit ↦ absurd (k (to hit))
                | inr miss ↦ ground (arith, i, n, miss)
              ],
      )

  any-Differs :
      (r : Row D) (rows : List (Row D)) → (any (conflicts r) rows ≡ false) ↔ All (Differs r) rows
  any-Differs r [] = (λ h. tt, λ h. refl)
  any-Differs r (v ∷ rows) =
      let (to, from) = conflicts-Differs r v in
      let (all, none_hits) = any-Differs r rows in
      (λ h. (to (ground arith), all (ground arith)), λ h. ground (arith, from h.0, none_hits h.1))

  IsUnique-IsKeyed : (rows : List (Row D)) → IsUnique rows ↔ IsKeyed rows
  IsUnique-IsKeyed [] = (λ h. h, λ h. h)
  IsUnique-IsKeyed (r ∷ rows) =
      let head = any-Differs r rows in
      let rest = IsUnique-IsKeyed rows in
      (λ h. (head.0 h.0, rest.0 h.1), λ h. (head.1 h.0, rest.1 h.1))

module _ {D : Type 0} ⦃d : Decimals D⦄ where
  -- Whatever the n-th statement does, whether it fails or not: if in the rows that the other
  -- requests left no two have one id, one trade intent, or one tenant with one idempotency key that
  -- is not empty, then so it is in the rows after each of the four writing statements.
  pub statements-IsKeyed :
      (w : World D)
      → IsKeyed (turn w).orders
      → ((o : BrokerOrder D) → IsKeyed (reserve_order o w).2.orders)
        × ((id : ℕ) (i s : String) (q p : D) → IsKeyed (confirm_order id i s q p w).1.orders)
        × ((id : ℕ) → IsKeyed (release_order id w).1.orders)
        × ((pr i s : String) (q p : D) → IsKeyed (update_order_fill pr i s q p w).1.orders)
  unfolding confirm_order update_order_fill
  statements-IsKeyed w k =
      let h = (IsUnique-IsKeyed (turn w).orders).1 k in
      let keyed = λ (rows : List (Row D)) (u : IsUnique rows). (IsUnique-IsKeyed rows).0 u in
      (
        λ o.
            keyed _ (reserve_order_rule IsUnique o w h (insert_order-IsUnique _ (turn w).orders h)),
        λ id i s q p. keyed _ (
            update_orders_rule IsUnique _ _ _ w h
              (confirmed-IsUnique i s q p _ _ (turn w).orders h)),
        λ id. keyed _ (release_order_rule IsUnique id w h (remove_if-IsUnique _ (turn w).orders h)),
        λ pr i s q p.
            keyed _
              (update_orders_rule IsUnique _ _ _ w h (filled-IsUnique s q p _ _ (turn w).orders h)),
      )
