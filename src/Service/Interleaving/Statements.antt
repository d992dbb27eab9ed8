-- ===== src/Service/Interleaving/Statements.antt =====
-- The statements that write a reserved row as steps of one request among many.
use pregao.Prelude.{
  ℕ, ◌≡◌, refl, ap, inl, inr, Bool, String, Bool-cases, Option-cases, any, update_if, remove_if,
}
use pregao.Decimal.{Decimals}
use pregao.Db.Models.{Row, BrokerOrder}
use pregao.Db.Orders.{
  update_orders, confirm_order, release_order, update_order_fill, is_reservation, confirmed,
  is_placed_as, filled_to,
}
use pregao.World.{World, Outside, turn, now}
use pregao.Service.Interleaving.{
  Stage, releasing, accepted, done, System, releases, release_fails, confirms, confirm_fails, fills,
}
use pregao.Service.Interleaving.Environment.{
  Plays, Shows, After, then_After, stays, observe, steps, moves,
}

module _ {D : Type 0} ⦃d : Decimals D⦄ (order : ℕ → BrokerOrder D) (i : ℕ) (out : Outside D)
    (Possible : ℕ → System D → Type 0) (plays : Plays order i out Possible) where
  -- An UPDATE: where it may take the request when it hits a row, and when it does not.
  update_orders-After :
      (b c : Stage) (message : String) (where_ : Row D → Bool) (set : Row D → Row D) (w : World D)
      (s : System D)
      → Shows order i out Possible w s
      → s.stage i ≡ b
      → ((t : System D)
          → Shows order i out Possible (turn w) t
          → t.stage i ≡ b
          → After order i out Possible t c
              (record (turn w) { orders = update_if where_ set (turn w).orders }))
      → ((t : System D)
          → Shows order i out Possible (turn w) t
          → t.stage i ≡ b
          → After order i out Possible t c (turn w))
      → After order i out Possible s c (update_orders message where_ set w).1
  update_orders-After b c message where_ set w s shown at hit miss =
      let before = observe order i out Possible plays w s b shown at in
      let missed = then_After order i out Possible s (turn w) (turn w) b c before miss in
      elim (Option-cases (w.outside.fault w.step)) [
        | inr (e, down) ↦ rw (down, update_orders) missed
        | inl up ↦ elim (Bool-cases (any where_ (turn w).orders)) [
          | inr none_hit ↦ rw (up, update_orders) (rw none_hit missed)
          | inl one_hit ↦
              rw (up, update_orders)
                (rw one_hit (
                  then_After order i out Possible s (turn w)
                    (record (turn w) { orders = update_if where_ set (turn w).orders }) b c before
                    hit))
        ]
      ]

  pub confirm_order-After :
      (id status : String) (filled price : D) (w : World D) (s : System D)
      → Shows order i out Possible w s
      → s.stage i ≡ accepted
      → After order i out Possible s done (confirm_order (order i).id id status filled price w).1
  unfolding confirm_order
  confirm_order-After id status filled price w s shown at =
      let where_ = is_reservation {D = D} (order i).id in
      let set = confirmed id status filled price (now w) in
      update_orders-After accepted done "failed to confirm broker order" where_ set w s shown at
        (λ t st at_t.
          moves order i out Possible plays (turn w)
            (record (turn w) { orders = update_if where_ set (turn w).orders }) t done
            (update_if where_ set t.rows) t.placed st
            (confirms i id status filled price (now w) at_t refl) refl refl
            (ap (update_if where_ set) st.1))
        (λ t st at_t.
          moves order i out Possible plays (turn w) (turn w) t done t.rows t.placed st
            (confirm_fails i at_t refl) refl refl st.1)

  pub release_order-After :
      (w : World D) (s : System D)
      → Shows order i out Possible w s
      → s.stage i ≡ releasing
      → After order i out Possible s done (release_order (order i).id w).1
  unfolding release_order
  release_order-After w s shown at =
      let gone = remove_if (is_reservation {D = D} (order i).id) in
      let before = observe order i out Possible plays w s releasing shown at in
      elim (Option-cases (w.outside.fault w.step)) [
        | inr (e, down) ↦
            rw (down, release_order)
              (then_After order i out Possible s (turn w) (turn w) releasing done before
                (λ t st at_t.
                  moves order i out Possible plays (turn w) (turn w) t done t.rows t.placed st
                    (release_fails i at_t refl) refl refl st.1))
        | inl up ↦
            rw (up, release_order)
              (then_After order i out Possible s (turn w)
                (record (turn w) { orders = gone (turn w).orders }) releasing done before
                (λ t st at_t.
                  moves order i out Possible plays (turn w)
                    (record (turn w) { orders = gone (turn w).orders }) t done (gone t.rows)
                    t.placed st (releases i at_t refl) refl refl (ap gone st.1)))
      ]

  pub update_order_fill-After :
      (provider id status : String) (filled price : D) (w : World D) (s : System D)
      → Shows order i out Possible w s
      → s.stage i ≡ done
      → After order i out Possible s done (update_order_fill provider id status filled price w).1
  unfolding update_order_fill
  update_order_fill-After provider id status filled price w s shown at =
      let where_ = is_placed_as {D = D} provider id in
      let set = filled_to status filled price (now w) in
      update_orders-After done done "failed to update broker order fill" where_ set w s shown at
        (λ t st at_t.
          steps order i out Possible plays (turn w)
            (record (turn w) { orders = update_if where_ set (turn w).orders }) t
            (record t { rows = update_if where_ set t.rows }) done st
            (fills provider id status filled price (now w) refl) (λ j ne. refl) refl refl
            (ap (update_if where_ set) st.1) at_t)
        (λ t st at_t. stays order i out Possible (turn w) t done st at_t)
