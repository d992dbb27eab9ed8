-- ===== src/Service/Quotes/Clean.antt =====
-- The symbols that GetQuotes asks for, out of those of the request.
use pregao.Prelude.{Bool, false, not, ◌&&◌, ◌≡◌, String, List, [], ◌∷◌, any, arith}
use pregao.Prelude.Text.{◌=ₛ◌, to_upper, trim_space}
use pregao.Service.Quotes.{clean_from, clean_symbols}
use text.Mathlib.TextEquality.{eq_iff}

abbrev pub has : String → List String → Bool
has k ss = any (λ s. s =ₛ k) ss

-- Whether a symbol of the request is `k`, but for spaces round it and its case.
abbrev pub asks_for : String → List String → Bool
asks_for k syms = any (λ s. to_upper (trim_space s) =ₛ k) syms

abbrev pub IsDistinct : List String → Type 0
IsDistinct [] = Unit
IsDistinct (s ∷ ss) = (has s ss ≡ false) × IsDistinct ss

has-clean_from :
    (k : String) (seen syms : List String)
    → has k (clean_from seen syms) ≡ (not (k =ₛ "") && not (has k seen) && asks_for k syms)
unfolding clean_from
has-clean_from k seen [] = ground arith
has-clean_from k seen (sym ∷ syms) = ground (
  arith,
  has-clean_from k seen syms,
  has-clean_from k (to_upper (trim_space sym) ∷ seen) syms,
  eq_iff (to_upper (trim_space sym)) k,
  eq_iff (to_upper (trim_space sym)) "",
  eq_iff k "",
)

clean_from-IsDistinct : (seen syms : List String) → IsDistinct (clean_from seen syms)
unfolding clean_from
clean_from-IsDistinct seen [] = tt
clean_from-IsDistinct seen (sym ∷ syms) = ground (
  arith,
  clean_from-IsDistinct seen syms,
  clean_from-IsDistinct (to_upper (trim_space sym) ∷ seen) syms,
  has-clean_from (to_upper (trim_space sym)) (to_upper (trim_space sym) ∷ seen) syms,
  eq_iff (to_upper (trim_space sym)) (to_upper (trim_space sym)),
)

-- The symbols that GetQuotes asks the cache for are pairwise distinct, and a symbol is among them
-- exactly when it is not empty and some symbol of the request is that symbol after spaces are
-- trimmed and letters put in upper case.
pub clean_symbols-IsDistinct :
    (syms : List String) (k : String)
    → IsDistinct (clean_symbols syms)
      × (has k (clean_symbols syms) ≡ (not (k =ₛ "") && asks_for k syms))
unfolding clean_symbols
clean_symbols-IsDistinct syms k =
    (clean_from-IsDistinct [] syms, ground (arith, has-clean_from k [] syms))
