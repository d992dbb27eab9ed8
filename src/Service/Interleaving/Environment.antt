-- ===== src/Service/Interleaving/Environment.antt =====
-- One request's world inside of the system of many: the schedule that answers for what the other
-- requests do plays steps of the system in which this request stays where it is.
use pregao.Prelude.{
  ℕ, suc, ◌≡◌, ◌≢◌, refl, sym, subst, ◌∙◌, ap, ◌⊎◌, inl, inr, List, [], ◌∷◌, arith,
}
use pregao.Decimal.{Decimals}
use pregao.Db.Models.{Row, BrokerOrder}
use pregao.World.{World, Outside, turn}
use pregao.Service.Interleaving.{
  Stage, holding, accepted, System, set_stage, Step, reserves, reserves_unheard, leaves, fails,
  accepts, releases, release_fails, confirms, confirm_fails, fills, Reach, here, next,
}

-- Whether a request is among those whose order the broker accepted.
abbrev pub IsIn : ℕ → List ℕ → Type 0
IsIn i [] = ⊥
IsIn i (j ∷ js) = (i ≡ j) ⊎ IsIn i js

module _ {D : Type 0} ⦃d : Decimals D⦄ (order : ℕ → BrokerOrder D) where
  pub Reach-trans : {s t v : System D} → Reach order s t → Reach order t v → Reach order s v
  Reach-trans a here = a
  Reach-trans a (next b st) = next (Reach-trans a b) st

  Step-IsIn : (i : ℕ) (s t : System D) → Step order s t → IsIn i s.placed → IsIn i t.placed
  Step-IsIn i s t (reserves j f m rows a e to) h = rw (to, IsIn) h
  Step-IsIn i s t (reserves_unheard j f m rows a e to) h = rw (to, IsIn) h
  Step-IsIn i s t (leaves j a to) h = rw (to, IsIn) h
  Step-IsIn i s t (fails j a to) h = rw (to, IsIn) h
  Step-IsIn i s t (accepts j a to) h = rw (to, IsIn) (inr h)
  Step-IsIn i s t (releases j a to) h = rw (to, IsIn) h
  Step-IsIn i s t (release_fails j a to) h = rw (to, IsIn) h
  Step-IsIn i s t (confirms j oid st q p m a to) h = rw (to, IsIn) h
  Step-IsIn i s t (confirm_fails j a to) h = rw (to, IsIn) h
  Step-IsIn i s t (fills p oid st q r m to) h = rw (to, IsIn) h

  -- What the broker accepted stays accepted.
  pub Reach-IsIn : (i : ℕ) {s t : System D} → Reach order s t → IsIn i s.placed → IsIn i t.placed
  Reach-IsIn i here h = h
  Reach-IsIn i (next {t = t} {v = v} r st) h = Step-IsIn i t v st (Reach-IsIn i r h)

  -- The stages of the requests other than `i` are the same.
  abbrev pub SameOthers : ℕ → System D → System D → Type 0
  SameOthers i s t = (j : ℕ) → j ≢ i → t.stage j ≡ s.stage j

  -- A schedule whose n-th turn plays steps of the requests other than `i`, from each system that
  -- may stand before it; the steps of `i` itself keep what may stand there.
  pub record Plays (i : ℕ) (o : Outside D) (Possible : ℕ → System D → Type 0) : Type 0 where
    pub acts :
        (n : ℕ) (s : System D)
        → Possible n s
        → (t : System D) × Reach order s t
          × (t.rows ≡ o.others n s.rows)
          × (t.stage i ≡ s.stage i)
          × Possible (suc n) t
    pub own :
        (n : ℕ) (s t : System D) → Possible n s → Step order s t → SameOthers i s t → Possible n t

  -- What may stand before a turn may be narrowed to what the steps lead to from `s`.
  pub Plays-Reach :
      (i : ℕ) (o : Outside D) (Possible : ℕ → System D → Type 0) (s : System D)
      → Plays i o Possible
      → Plays i o (λ n t. Possible n t × Reach order s t)
  Plays-Reach i o Possible s plays = record {
    acts = λ n t may.
        let (v, r, rows, at, may') = plays.acts n t may.0 in
        (v, r, rows, at, (may', Reach-trans may.1 r));
    own = λ n t v may st same. (plays.own n t v may.0 st same, next may.1 st);
  }

  module _ (i : ℕ) (o : Outside D) (Possible : ℕ → System D → Type 0) where
    -- The system is the one that the request's world shows.
    abbrev pub Shows : World D → System D → Type 0
    Shows w s = (w.outside ≡ o) × (s.rows ≡ w.orders) × Possible w.step s

    -- The system comes after `s`, is shown by `w`, and the request stands at `b`.
    abbrev pub After : System D → Stage → World D → Type 0
    After s b w = (t : System D) × Reach order s t × Shows w t × (t.stage i ≡ b)

    pub then_After :
        (s : System D) (w q : World D) (b c : Stage)
        → After s b w
        → ((t : System D) → Shows w t → t.stage i ≡ b → After t c q)
        → After s c q
    then_After s w q b c (t, r, shown, at) f =
        let (v, r', shown', at') = f t shown at in (v, Reach-trans r r', shown', at')

    -- The request stays, and so does what its world shows.
    pub stays : (w : World D) (s : System D) (b : Stage) → Shows w s → s.stage i ≡ b → After s b w
    stays w s b shown at = (s, here, shown, at)

    module _ (plays : Plays i o Possible) where
      -- An operation that only looks.
      pub observe :
          (w : World D) (s : System D) (b : Stage) → Shows w s → s.stage i ≡ b → After s b (turn w)
      observe w s b (out, rows, may) at =
          let (t, r, shown, stays, may') = plays.acts w.step s may in
          (
            t,
            r,
            (
              out,
              shown ∙ ap (o.others w.step) rows ∙ ap (λ p. p.others w.step w.orders) (sym out),
              may',
            ),
            stays ∙ at,
          )

      -- A step of the request itself, which its world `q` shows.
      pub steps :
          (w q : World D) (s t : System D) (b : Stage)
          → Shows w s
          → Step order s t
          → SameOthers i s t
          → q.outside ≡ w.outside
          → q.step ≡ w.step
          → t.rows ≡ q.orders
          → t.stage i ≡ b
          → After s b q
      steps w q s t b (out, rows, may) st others same at_step shown at = (
        t,
        next here st,
        (
          same ∙ out,
          shown,
          subst (λ n. Possible n t) (sym at_step) (plays.own w.step s t may st others),
        ),
        at,
      )

      -- A step that moves the request to another stage, and makes of the rows those of `q`.
      pub moves :
          (w q : World D) (s : System D) (b : Stage) (rows : List (Row D)) (placed : List ℕ)
          → Shows w s
          → Step order s (record s { rows = rows; stage = set_stage i b s.stage; placed = placed })
          → q.outside ≡ w.outside
          → q.step ≡ w.step
          → rows ≡ q.orders
          → After s b q
      moves w q s b rows placed shown st same at_step to =
          steps w q s (record s { rows = rows; stage = set_stage i b s.stage; placed = placed }) b
            shown st (λ j ne. ground arith) same at_step to (ground arith)

      -- The broker accepts the order.
      pub accepting :
          (w : World D) (s : System D)
          → Shows w s
          → s.stage i ≡ holding
          → (t : System D) × Reach order s t × Shows w t × (t.stage i ≡ accepted) × IsIn i t.placed
      accepting w s shown at =
          let t = record s { stage = set_stage i accepted s.stage; placed = i ∷ s.placed } in
          let st : Step order s t = accepts i at refl in
          (
            t,
            next here st,
            (shown.0, shown.1, plays.own w.step s t shown.2 st (λ j ne. ground arith)),
            ground arith,
            inl refl,
          )
