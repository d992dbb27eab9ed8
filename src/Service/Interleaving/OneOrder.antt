-- ===== src/Service/Interleaving/OneOrder.antt =====
-- However the requests interleave, the broker accepts at most one order for a trade intent, and at
-- most one for a tenant's idempotency key.
use pregao.Prelude.{ℕ, ◌≡◌, ◌≢◌, ◌⊎◌, inl, inr, false, List, [], ◌∷◌, arith, sym, subst}
use text.Mathlib.TextEquality.{eq_iff}
use pregao.Decimal.{Decimals}
use pregao.Db.Models.{Row, BrokerOrder}
use pregao.Db.Orders.{conflicts, insert_row, is_placed_as, filled_to}
use pregao.Db.Orders.Keys.{IsUnique, remove_if-IsUnique, confirmed-IsUnique, filled-IsUnique}
use pregao.Service.Interleaving.Keys.{Has, Has-remove_if, Has-update_if}
use pregao.Service.Interleaving.{
  reserving, holding, releasing, done, System, Step, reserves, reserves_unheard, leaves, fails,
  accepts, releases, release_fails, confirms, confirm_fails, fills, Reach, here, next,
}
use pregao.Service.Interleaving.Held.{
  Holding, Settled, AllPairs, keys, Inv, All-moves, move, other_id, confirmed_keys, filled_keys,
  reserves-Inv, quiet-Inv, accepts-Inv,
}

-- The start: every request at the top of its loop, over a table that keeps its constraints.
abbrev pub start : {D : Type 0} → List (Row D) → System D
start rows = record { rows = rows; stage = λ _. reserving; placed = [] }

module _ {D : Type 0} ⦃d : Decimals D⦄ (order : ℕ → BrokerOrder D) where
  -- The two requests are for one trade intent, or for one non-empty key of one tenant.
  abbrev pub Rivals : ℕ → ℕ → Type 0
  Rivals i j =
      ((order i).trade_intent_id ≡ (order j).trade_intent_id)
      ⊎ (((order i).tenant_id ≡ (order j).tenant_id)
          × ((order i).idempotency_key ≡ (order j).idempotency_key)
          × ((order i).idempotency_key ≢ ""))

  module _ (named : (i : ℕ) → (order i).id ≢ 0)
      (distinct : (i j : ℕ) → (order i).id ≡ (order j).id → i ≡ j) where
    Step-Inv :
        (s t : System D) → Inv order named distinct s → Step order s t → Inv order named distinct t
    Step-Inv s t inv (reserves i fresh time rows at e to) =
        subst (Inv order named distinct) (sym to)
          (reserves-Inv order named distinct s i fresh time holding rows inv at e)
    Step-Inv s t inv (reserves_unheard i fresh time rows at e to) =
        subst (Inv order named distinct) (sym to)
          (reserves-Inv order named distinct s i fresh time done rows inv at e)
    Step-Inv s t inv (leaves i at to) =
        subst (Inv order named distinct) (sym to)
          (quiet-Inv order named distinct s i done inv absurd (λ o. tt))
    Step-Inv s t inv (fails i at to) = subst (Inv order named distinct) (sym to) (
        quiet-Inv order named distinct s i releasing inv (λ _. subst Holding (sym at) tt)
          (λ o. absurd (subst Settled at o)))
    Step-Inv s t inv (accepts i at to) =
        subst (Inv order named distinct) (sym to) (accepts-Inv order named distinct s i inv at)
    Step-Inv s t inv (releases i at to) = subst (Inv order named distinct) (sym to) (
        move order named distinct s i done _ inv
          (λ j ne h.
            Has-remove_if (keys order j) (order i).id s.rows (other_id order named distinct i j ne)
              h)
          absurd (λ o. absurd (subst Settled at o)) (remove_if-IsUnique _ s.rows inv.unique))
    Step-Inv s t inv (release_fails i at to) =
        subst (Inv order named distinct) (sym to)
          (quiet-Inv order named distinct s i done inv absurd (λ o. tt))
    Step-Inv s t inv (confirms i oid st q p time at to) =
        subst (Inv order named distinct) (sym to) (
          move order named distinct s i done _ inv
            (λ j ne h.
              Has-update_if (keys order j) _ _ s.rows
                (confirmed_keys order named distinct oid st q p time) h)
            absurd
            (λ o h. (
              Has-update_if (keys order i) _ _ s.rows
                  (confirmed_keys order named distinct oid st q p time) h,
              tt,
            ))
            (confirmed-IsUnique oid st q p time _ s.rows inv.unique))
    Step-Inv s t inv (confirm_fails i at to) =
        subst (Inv order named distinct) (sym to)
          (quiet-Inv order named distinct s i done inv absurd (λ o. tt))
    Step-Inv s t inv (fills pr oid st q p time to) = subst (Inv order named distinct) (sym to) (
        let f = λ (j : ℕ) (h : Has (keys order j) s.rows).
          Has-update_if (keys order j) (is_placed_as pr oid) (filled_to st q p time) s.rows
            (filled_keys order named distinct st q p time) h in
        record {
          unique = filled-IsUnique st q p time _ s.rows inv.unique;
          held = λ j h. f j (inv.held j h);
          kept = All-moves order named distinct _ _ s.placed (λ j h. (f j h.0, h.1)) inv.kept;
          apart_placed = inv.apart_placed;
        })

    Reach-Inv :
        {s t : System D} → Inv order named distinct s → Reach order s t → Inv order named distinct t
    Reach-Inv inv here = inv
    Reach-Inv inv (next {t = v} {v = t} r st) = Step-Inv v t (Reach-Inv inv r) st

    start-Inv : (rows : List (Row D)) → IsUnique rows → Inv order named distinct (start rows)
    start-Inv rows u = record { unique = u; held = λ i h. absurd h; kept = tt; apart_placed = tt }

    not-Rivals : (i j : ℕ) → conflicts (keys order i) (keys order j) ≡ false → ¬ Rivals i j
    unfolding conflicts insert_row
    not-Rivals i j h (inl e) = ground arith
    not-Rivals i j h (inr (t, k, ne)) = ground (
      arith,
      eq_iff (order i).idempotency_key "",
      eq_iff (order j).tenant_id (order i).tenant_id,
      eq_iff (order j).idempotency_key (order i).idempotency_key,
    )

    pairs_map :
        (R Q : ℕ → ℕ → Type 0) (is : List ℕ)
        → ((i j : ℕ) → R i j → Q i j)
        → AllPairs R is
        → AllPairs Q is
    pairs_map R Q [] f h = tt
    pairs_map R Q (i ∷ is) f h =
        (All-moves order named distinct (R i) (Q i) is (f i) h.0, pairs_map R Q is f h.1)

    -- However the statements and the broker calls of any number of requests interleave, with failed
    -- and unanswered statements and with fills in between: the requests that heard from the broker
    -- that it accepted their order are pairwise for different trade intents and for different
    -- non-empty keys of a tenant, if the orders' ids are distinct and none is the nil UUID, and the
    -- table kept its constraints at the start.
    pub placed_once :
        {rows : List (Row D)} {t : System D}
        → IsUnique rows
        → Reach order (start rows) t
        → AllPairs (λ i j. ¬ Rivals i j) t.placed
    placed_once {rows} {t} u r =
        pairs_map _ _ t.placed not-Rivals (Reach-Inv (start-Inv rows u) r).apart_placed
