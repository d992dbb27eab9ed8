-- ===== src/Decimal/WholeLaws.antt =====
-- The laws of the decimals, for the whole numbers.
use Prim.Native.Nat.{Ordering}
use pregao.Prelude.{◌+◌, ◌≡◌, arith}
use pregao.Prelude.Int.{ℤ, pos_part, neg_part, ◌+ℤ◌, ◌-ℤ◌, ◌*ℤ◌, compare_ℤ}
use pregao.Decimal.{DecimalLaws}
use pregao.Decimal.Whole.{whole}

eq_of_parts : (a b : ℤ) → pos_part a + neg_part b ≡ pos_part b + neg_part a → a ≡ b
eq_of_parts a b h = ground arith

parts_sum :
    (a b : ℤ)
    → pos_part (a +ℤ b) + neg_part a + neg_part b ≡ neg_part (a +ℤ b) + pos_part a + pos_part b
unfolding ◌+ℤ◌
parts_sum a b = ground arith

sum_assoc : (a b c : ℤ) → a +ℤ b +ℤ c ≡ a +ℤ (b +ℤ c)
sum_assoc a b c = omega (arith, parts_sum, eq_of_parts)

compare_eq : (a b : ℤ) → compare_ℤ a b ≡ Ordering.eq → a ≡ b
unfolding compare_ℤ
compare_eq a b h = ground arith

product_comm : (a b : ℤ) → a *ℤ b ≡ b *ℤ a
unfolding ◌*ℤ◌
product_comm a b = ground arith

pub whole_laws : DecimalLaws ℤ
unfolding ◌+ℤ◌ ◌-ℤ◌ ◌*ℤ◌ compare_ℤ
whole_laws = record {
  compare_eq = compare_eq;
  compare_refl = λ x. ground arith;
  add_comm = λ x y. ground arith;
  add_assoc = sum_assoc;
  add_zero = λ x. ground arith;
  mul_comm = product_comm;
  mul_zero = λ x. ground arith;
  sub_zero_iff = λ x y h. ground arith;
  sub_self = λ x. ground arith;
  add_positive = λ x y h k. ground arith;
  add_moves = λ x y h e. ground arith;
}
