-- ===== src/Service/Interleaving/Keys.antt =====
-- Rows told apart by their unique keys.
use pregao.Prelude.{
  ℕ, ◌≡◌, ◌≢◌, ◌⊎◌, inl, inr, Bool, false, not, ◌&&◌, String, Option, none, some, List, [], ◌∷◌,
  arith, any, remove_if, update_if, Bool-cases,
}
use pregao.Prelude.Text.{◌=ₛ◌}
use text.Mathlib.TextEquality.{eq_iff}
use pregao.Db.Models.{Row}
use pregao.Db.Orders.{conflicts, is_reservation, null_eq, or_empty}
use pregao.Db.Orders.Keys.{IsUnique}

-- The test on the tenant and the idempotency key is symmetric.
key_symm :
    (k k' : Option String) (t t' : String)
    → (not (or_empty k =ₛ "") && t' =ₛ t && null_eq k' (or_empty k))
      ≡ (not (or_empty k' =ₛ "") && t =ₛ t' && null_eq k (or_empty k'))
key_symm none none t t' = ground arith
key_symm none (some b) t t' = ground (arith, eq_iff b "")
key_symm (some a) none t t' = ground (arith, eq_iff a "")
key_symm (some a) (some b) t t' =
    ground (arith, eq_iff a "", eq_iff b "", eq_iff a b, eq_iff b a, eq_iff t t', eq_iff t' t)

module _ {D : Type 0} where
  -- The two rows have the same unique keys.
  abbrev pub SameKeys : Row D → Row D → Type 0
  SameKeys x r =
      (r.id ≡ x.id)
      × (r.trade_intent_id ≡ x.trade_intent_id)
      × (r.tenant_id ≡ x.tenant_id)
      × (r.idempotency_key ≡ x.idempotency_key)

  -- Some row has the keys of `x`.
  abbrev pub Has : Row D → List (Row D) → Type 0
  Has x [] = ⊥
  Has x (r ∷ rows) = SameKeys x r ⊎ Has x rows

  conflicts_keys : (x y r v : Row D) → SameKeys x r → SameKeys y v → conflicts r v ≡ conflicts x y
  unfolding conflicts
  conflicts_keys x y r v h k = rw (h.0, h.1, h.2, h.3, k.0, k.1, k.2, k.3)

  -- To conflict is symmetric.
  pub conflicts_symm : (x y : Row D) → conflicts x y ≡ conflicts y x
  unfolding conflicts
  conflicts_symm x y =
      ground (arith, key_symm x.idempotency_key y.idempotency_key x.tenant_id y.tenant_id)

  -- A row that conflicts with no row does not conflict with the keys that are there.
  no_conflict :
      (x y r : Row D) (rows : List (Row D))
      → SameKeys x r
      → any (conflicts r) rows ≡ false
      → Has y rows
      → conflicts x y ≡ false
  no_conflict x y r [] same free h = absurd h
  no_conflict x y r (v ∷ rows) same free (inl k) = ground (arith, conflicts_keys x y r v same k)
  no_conflict x y r (v ∷ rows) same free (inr h) = no_conflict x y r rows same (ground arith) h

  -- In a table that keeps its constraints, keys with different ids do not conflict.
  pub apart :
      (x y : Row D) (rows : List (Row D))
      → IsUnique rows
      → Has x rows
      → Has y rows
      → x.id ≢ y.id
      → conflicts x y ≡ false
  apart x y [] u h k ne = absurd h
  apart x y (r ∷ rows) u (inl h) (inl k) ne = absurd (ground arith)
  apart x y (r ∷ rows) u (inl h) (inr k) ne = no_conflict x y r rows h u.0 k
  apart x y (r ∷ rows) u (inr h) (inl k) ne =
      rw (conflicts_symm x y) (no_conflict y x r rows k u.0 h)
  apart x y (r ∷ rows) u (inr h) (inr k) ne = apart x y rows u.1 h k ne

  -- A release under another id keeps the keys, and so does an update that writes no key.
  pub Has-remove_if :
      (x : Row D) (id : ℕ) (rows : List (Row D))
      → x.id ≢ id
      → Has x rows
      → Has x (remove_if (is_reservation id) rows)
  Has-remove_if x id [] ne h = absurd h
  Has-remove_if x id (r ∷ rows) ne (inl h) = elim (Bool-cases (is_reservation id r)) [
    | inl gone ↦ absurd (ground arith)
    | inr stays ↦ rw stays (inl h)
  ]
  Has-remove_if x id (r ∷ rows) ne (inr h) =
      let rest = Has-remove_if x id rows ne h in
      elim (Bool-cases (is_reservation id r)) [
        | inl gone ↦ rw gone rest
        | inr stays ↦ rw stays (inr rest)
      ]

  SameKeys-trans : (x r v : Row D) → SameKeys x r → SameKeys r v → SameKeys x v
  SameKeys-trans x r v h k = ground arith

  pub Has-update_if :
      (x : Row D) (p : Row D → Bool) (f : Row D → Row D) (rows : List (Row D))
      → ((r : Row D) → SameKeys r (f r))
      → Has x rows
      → Has x (update_if p f rows)
  Has-update_if x p f [] keys h = absurd h
  Has-update_if x p f (r ∷ rows) keys (inl h) = elim (Bool-cases (p r)) [
    | inl hit ↦ rw hit (inl (SameKeys-trans x r (f r) h (keys r)))
    | inr miss ↦ rw miss (inl h)
  ]
  Has-update_if x p f (r ∷ rows) keys (inr h) = inr (Has-update_if x p f rows keys h)
