-- ===== src/Decimal/Whole.antt =====
-- An instance of the decimals: the integers, with a division that rounds to the nearest. It is the
-- arithmetic of shopspring/decimal on numbers without places, at a division precision of 0.

use Prim.Native.Char.{code}
use Prim.Native.String.{char_at, ◌++◌}
use pregao.Prelude.{
  ℕ, zero, suc, ◌+◌, ◌-◌, ◌*◌, ◌/◌, ◌%◌, ◌&&◌, Bool, true, String, Option, none, some, leb, ltb,
  ◌==◌, if◌then◌else◌,
}
use pregao.Prelude.Int.{ℤ, pos, negsuc, ◌+ℤ◌, ◌-ℤ◌, ◌*ℤ◌, compare_ℤ, round_div}
use pregao.Errors.{Result, ok, err, other}
use pregao.Decimal.{Decimals}

-- The digits of a number, with fuel.
unfoldable pub digits : ℕ → ℕ → String
digits zero n = ""
digits (suc f) n =
    let rest = digits f (n / 10) in
    let last = String.◌∷◌ (char_at "0123456789" (n % 10)) "" in
    if ltb n 10 then last else rest ++ last

unfoldable pub show_ℤ : ℤ → String
unfolding digits
show_ℤ (pos n) = digits (suc n) n
show_ℤ (negsuc n) = "-" ++ digits (suc (suc n)) (suc n)

only_zeros : String → Bool
only_zeros String.[] = true
only_zeros (String.◌∷◌ c s) = code c == b'0' && only_zeros s

-- The digits of a number, whose places after a point are all 0.
read_digits : ℕ → String → Option ℕ
unfolding only_zeros
read_digits n String.[] = some n
read_digits n (String.◌∷◌ c s) =
    if code c == b'.' && only_zeros s
    then some n
    else if leb b'0' (code c) && leb (code c) b'9'
    then read_digits (n * 10 + (code c - 48)) s
    else none

of_digits : Option ℕ → (ℕ → ℤ) → Result ℤ
of_digits none f = err (other "can't convert to decimal")
of_digits (some n) f = ok (f n)

unfoldable pub parse_ℤ : String → Result ℤ
unfolding of_digits read_digits
parse_ℤ String.[] = err (other "can't convert to decimal")
parse_ℤ (String.◌∷◌ c s) =
    if code c == b'-'
    then of_digits (read_digits 0 s) (λ n. pos 0 -ℤ pos n)
    else of_digits (read_digits 0 (String.◌∷◌ c s)) pos

instance abbrev pub whole : Decimals ℤ
whole = record {
  zero = pos 0;
  of_int = pos;
  add = ◌+ℤ◌;
  sub = ◌-ℤ◌;
  mul = ◌*ℤ◌;
  div = round_div;
  floor = λ x. x;
  round = λ x k. x;
  compare = compare_ℤ;
  parse = parse_ℤ;
  show = show_ℤ;
  show_fixed = λ x k. show_ℤ x;
}
