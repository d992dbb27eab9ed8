-- ===== src/Service/Interleaving/Held.antt =====
-- What every step keeps: a request past its reservation has its row, and the accepted orders' rows
-- stay and do not conflict.
use pregao.Prelude.{
  ℕ, ◌≡◌, ◌≢◌, refl, inl, inr, true, false, String, List, [], ◌∷◌, arith, ◌==◌, Bool-cases, sym, ap,
  subst, All,
}
use pregao.Decimal.{Decimals}
use pregao.Db.Models.{Row, BrokerOrder}
use pregao.Db.Orders.{conflicts, insert_row, insert_order, prepare, confirmed, filled_to}
use pregao.Db.Orders.Keys.{IsUnique, insert_order-IsUnique}
use pregao.Service.Interleaving.Keys.{SameKeys, Has, apart}
use pregao.Service.Interleaving.{
  Stage, reserving, holding, releasing, accepted, done, System, set_stage, row,
}

-- The request has its row, which it alone may release.
abbrev pub Holding : Stage → Type 0
Holding holding = Unit
Holding releasing = Unit
Holding accepted = Unit
Holding reserving = ⊥
Holding done = ⊥

-- The request will not release its row any more.
abbrev pub Settled : Stage → Type 0
Settled accepted = Unit
Settled done = Unit
Settled reserving = ⊥
Settled holding = ⊥
Settled releasing = ⊥

set_stage_self : (i : ℕ) (b : Stage) (f : ℕ → Stage) → set_stage i b f i ≡ b
set_stage_self i b f = ground arith

-- The relation holds between each entry and every later one.
abbrev pub AllPairs {ℓ} : {A : Type 0} → (A → A → Type ℓ) → List A → Type ℓ
AllPairs R [] = Unit
AllPairs R (x ∷ xs) = All (R x) xs × AllPairs R xs

module _ {D : Type 0} ⦃d : Decimals D⦄ (order : ℕ → BrokerOrder D) where
  -- The keys of request i's row.
  abbrev pub keys : ℕ → Row D
  keys i = insert_row (order i)

  -- No two of the requests compete for a row.
  abbrev pub Apart : List ℕ → Type 0
  Apart = AllPairs λ i j. conflicts (keys i) (keys j) ≡ false

  module _ (named : (i : ℕ) → (order i).id ≢ 0)
      (distinct : (i j : ℕ) → (order i).id ≡ (order j).id → i ≡ j) where
    pub record Inv (s : System D) : Type 0 where
      pub unique : IsUnique s.rows
      pub held : (i : ℕ) → Holding (s.stage i) → Has (keys i) s.rows
      pub kept : All (λ i. Has (keys i) s.rows × Settled (s.stage i)) s.placed
      pub apart_placed : Apart s.placed

    row-keys : (fresh time i : ℕ) → SameKeys (keys i) (row order fresh time i)
    unfolding insert_row prepare
    row-keys fresh time i = ground (arith, named i)

    -- A stage that moves on from `reserving`, `holding` or `releasing` was not settled.
    pub All-moves : (P Q : ℕ → Type 0) (is : List ℕ) → ((i : ℕ) → P i → Q i) → All P is → All Q is
    All-moves P Q [] f h = tt
    All-moves P Q (i ∷ is) f h = (f i h.0, All-moves P Q is f h.1)

    -- Request i moves to stage b and the rows become `rows`: what the invariant asks of that.
    module _ (s : System D) (i : ℕ) (b : Stage) (rows : List (Row D)) (inv : Inv s)
        (others : (j : ℕ) → j ≢ i → Has (keys j) s.rows → Has (keys j) rows)
        (mine : Holding b → Has (keys i) rows)
        (settled : Settled (s.stage i) → Has (keys i) s.rows → Has (keys i) rows × Settled b) where
      held_after : (j : ℕ) → Holding (set_stage i b s.stage j) → Has (keys j) rows
      held_after j h = elim (Bool-cases (j == i)) [
        | inl same ↦ rw (is_same same) (mine (rw same at h))
        | inr other ↦ others j (ground arith) (inv.held j (rw other at h))
      ]
        where
          is_same : (j == i) ≡ true → j ≡ i
          is_same e = ground arith

      kept_after :
          (j : ℕ)
          → Has (keys j) s.rows × Settled (s.stage j)
          → Has (keys j) rows × Settled (set_stage i b s.stage j)
      kept_after j (has, over) = elim (Bool-cases (j == i)) [
        | inl same ↦
            let e = is_same same in
            let r =
              settled (subst (λ k. Settled (s.stage k)) e over)
                (subst (λ k. Has (keys k) s.rows) e has) in
            rw same (rw e r.0, r.1)
        | inr other ↦ rw other (others j (ground arith) has, over)
      ]
        where
          is_same : (j == i) ≡ true → j ≡ i
          is_same e = ground arith

      pub move : IsUnique rows → Inv (record s { rows = rows; stage = set_stage i b s.stage })
      move u = record {
        unique = u;
        held = held_after;
        kept = All-moves _ _ s.placed kept_after inv.kept;
        apart_placed = inv.apart_placed;
      }

    pub other_id : (i j : ℕ) → j ≢ i → (keys j).id ≢ (order i).id
    unfolding insert_row
    other_id i j ne e = ne (distinct j i e)

    pub confirmed_keys :
        (i s : String) (q p : D) (time : ℕ) (r : Row D) → SameKeys r (confirmed i s q p time r)
    confirmed_keys i s q p time r = (refl, refl, refl, refl)

    pub filled_keys :
        (s : String) (q p : D) (time : ℕ) (r : Row D) → SameKeys r (filled_to s q p time r)
    filled_keys s q p time r = (refl, refl, refl, refl)

    inserted :
        (r : Row D) (old rows : List (Row D))
        → insert_order r old ≡ (true, rows)
        → (rows ≡ r ∷ old) × (IsUnique old → IsUnique rows)
    unfolding insert_order
    inserted r old rows e =
        (ground arith, λ u. subst IsUnique (ap (λ x. x.1) e) (insert_order-IsUnique r old u))

    pub reserves-Inv :
        (s : System D) (i fresh time : ℕ) (b : Stage) (rows : List (Row D))
        → Inv s
        → s.stage i ≡ reserving
        → insert_order (row order fresh time i) s.rows ≡ (true, rows)
        → Inv (record s { rows = rows; stage = set_stage i b s.stage })
    reserves-Inv s i fresh time b rows inv at e =
        let (shape, uniq) = inserted (row order fresh time i) s.rows rows e in
        move s i b rows inv (λ j ne h. rw shape (inr h))
          (λ h. rw shape (inl (row-keys fresh time i))) (λ over has. absurd (subst Settled at over))
          (uniq inv.unique)

    -- A step that leaves the rows alone.
    pub quiet-Inv :
        (s : System D) (i : ℕ) (b : Stage)
        → Inv s
        → (Holding b → Holding (s.stage i))
        → (Settled (s.stage i) → Settled b)
        → Inv (record s { stage = set_stage i b s.stage })
    quiet-Inv s i b inv holds over =
        move s i b s.rows inv (λ j ne h. h) (λ h. inv.held i (holds h)) (λ o has. (has, over o))
          inv.unique

    accepts-Apart :
        (s : System D) (i : ℕ) (is : List ℕ)
        → Inv s
        → s.stage i ≡ holding
        → All (λ j. Has (keys j) s.rows × Settled (s.stage j)) is
        → All (λ j. conflicts (keys i) (keys j) ≡ false) is
    unfolding insert_row
    accepts-Apart s i [] inv at h = tt
    accepts-Apart s i (j ∷ is) inv at ((has, over), h) = (
      apart (keys i) (keys j) s.rows inv.unique (inv.held i (subst Holding (sym at) tt)) has
          (λ e. subst Settled at (subst (λ k. Settled (s.stage k)) (sym (distinct i j e)) over)),
      accepts-Apart s i is inv at h,
    )

    pub accepts-Inv :
        (s : System D) (i : ℕ)
        → Inv s
        → s.stage i ≡ holding
        → Inv (record s { stage = set_stage i accepted s.stage; placed = i ∷ s.placed })
    accepts-Inv s i inv at =
        let mine = inv.held i (subst Holding (sym at) tt) in
        let moved = quiet-Inv s i accepted inv (λ _. subst Holding (sym at) tt) (λ o. tt) in
        record {
          unique = moved.unique;
          held = moved.held;
          kept = ((mine, subst Settled (sym (set_stage_self i accepted s.stage)) tt), moved.kept);
          apart_placed = (accepts-Apart s i s.placed inv at inv.kept, inv.apart_placed);
        }
