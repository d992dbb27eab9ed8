-- ===== src/Decimal/Laws.antt =====
-- The operations of shopspring/decimal that the program calls, and the laws that theorems name.
use Prim.Native.Nat.{Ordering}
use pregao.Prelude.{ℕ, ◌≡◌, ◌≢◌, Bool, true, false, String}
use pregao.Errors.{Result}

-- `compare` is `Cmp`. `div` rounds as `Div` does. `round x k` is the value that a column
-- NUMERIC(28, k) keeps of x. `parse` is `NewFromString`, `show` is `String`.
pub record Decimals (D : Type 0) : Type 0 where
  pub zero : D
  pub of_int : ℕ → D
  pub add : D → D → D
  pub sub : D → D → D
  pub mul : D → D → D
  pub div : D → D → D
  pub floor : D → D
  pub round : D → ℕ → D
  pub compare : D → D → Ordering
  pub parse : String → Result D
  pub show : D → String
  pub show_fixed : D → ℕ → String

module _ {D : Type 0} ⦃d : Decimals D⦄ where
  -- `LessThanOrEqual`
  abbrev pub at_most : D → D → Bool
  at_most x y = elim (d.compare x y) [ Ordering.gt ↦ false | _ ↦ true ]

  -- `GreaterThanOrEqual`
  abbrev pub at_least : D → D → Bool
  at_least x y = elim (d.compare x y) [ Ordering.lt ↦ false | _ ↦ true ]

  -- `GreaterThan`
  abbrev pub above : D → D → Bool
  above x y = elim (d.compare x y) [ Ordering.gt ↦ true | _ ↦ false ]

  -- `IsZero`
  abbrev pub is_zero : D → Bool
  is_zero x = elim (d.compare x d.zero) [ Ordering.eq ↦ true | _ ↦ false ]

-- The laws of exact decimal arithmetic that theorems use.
pub record DecimalLaws (D : Type 0) ⦃d : Decimals D⦄ : Type 0 where
  pub compare_eq : (x y : D) → d.compare x y ≡ Ordering.eq → x ≡ y
  pub compare_refl : (x : D) → d.compare x x ≡ Ordering.eq
  pub add_comm : (x y : D) → d.add x y ≡ d.add y x
  pub add_assoc : (x y z : D) → d.add (d.add x y) z ≡ d.add x (d.add y z)
  pub add_zero : (x : D) → d.add x d.zero ≡ x
  pub mul_comm : (x y : D) → d.mul x y ≡ d.mul y x
  pub mul_zero : (x : D) → d.mul x d.zero ≡ d.zero
  pub sub_zero_iff : (x y : D) → d.sub x y ≡ d.zero → x ≡ y
  pub sub_self : (x : D) → d.sub x x ≡ d.zero
  -- A sum of two positive numbers is positive.
  pub add_positive :
      (x y : D)
      → d.compare x d.zero ≡ Ordering.gt
      → d.compare y d.zero ≡ Ordering.gt
      → d.compare (d.add x y) d.zero ≡ Ordering.gt
  -- Adding a positive number gives another number.
  pub add_moves : (x y : D) → d.compare y d.zero ≡ Ordering.gt → d.add x y ≢ x
