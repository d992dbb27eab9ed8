-- ===== src/Cache/Pointwise.antt =====
-- The bulk operations of internal/cache/redis.go, one symbol at a time: what MGET's answer holds for
-- a symbol is what the maps hold for it.
use pregao.Prelude.{
  Bool, true, false, not, ◌&&◌, ◌||◌, ◌≡◌, refl, sym, ◌∙◌, ap, String, Option, none, some, List, [],
  ◌∷◌, ◌++◌, any, remove_if, map, arith, Bool-cases, Option-cases, inl, inr, if◌then◌else◌,
}
use pregao.Prelude.Text.{◌=ₛ◌}
use pregao.Prelude.Maps.{get_entry, set_entry, get_entry-set_entry}
use pregao.Errors.{ok}
use pregao.Cache.Quotes.{
  Redis, CachedQuote, Value, QuoteJson, read_value, sort_values, set_stale, add_last,
}
use pregao.Cache.Lookup.{sort_values-miss, sort_values-hit}
use text.Mathlib.TextEquality.{eq_iff}
use mathlib.Core.List.{append-nil}

-- Redis holds the given value under each key.
abbrev pub Holds : ⦃r : Redis⦄ → r.Store → (String → Value) → Type 0
Holds ⦃r⦄ st v = (keys : List String) → r.m_get st keys ≡ ok (map v keys)

-- Whether a list of symbols holds `k`.
abbrev pub has : String → List String → Bool
has k ss = any (λ s. s =ₛ k) ss

abbrev pub is_some {ℓ} : {A : Type ℓ} → Option A → Bool
is_some none = false
is_some (some a) = true

-- The first of two options that is there.
abbrev pub or_else {ℓ} : {A : Type ℓ} → Option A → Option A → Option A
or_else (some a) other = some a
or_else none other = other

add_last-append : (xs ys : List String) (x : String) → add_last xs x ++ ys ≡ xs ++ x ∷ ys
add_last-append [] ys x = refl
add_last-append (z ∷ xs) ys x = ap (λ zs. z ∷ zs) (add_last-append xs ys x)

module _ {D : Type 0} where
  -- The symbols that have no quote.
  abbrev pub missed : (String → Option (CachedQuote D)) → List String → List String
  missed look ss = remove_if (λ s. is_some (look s)) ss

  pub has-missed :
      (look : String → Option (CachedQuote D)) (k : String) (ss : List String)
      → has k (missed look ss) ≡ (has k ss && not (is_some (look k)))
  has-missed look k [] = refl
  has-missed look k (s ∷ ss) = elim (Bool-cases (s =ₛ k)) [
    | inl same ↦ rw ((eq_iff s k).0 same) (ground (arith, has-missed look k ss))
    | inr differs ↦ ground (arith, has-missed look k ss)
  ]

-- A symbol's quote, out of the value that MGET gives for it.
module _ {D : Type 0} ⦃j : QuoteJson D⦄ (stale : Bool) (v : String → Value) where
  abbrev pub look : String → Option (CachedQuote D)
  look k = read_value stale (v k)

-- One symbol of the loop that has no quote.
skip_step {ℓ} :
    {A : Type ℓ} (b c : Bool) (l g : Option A)
    → (b ≡ true → l ≡ none)
    → (if c then or_else l g else g) ≡ (if b || c then or_else l g else g)
skip_step true true l g h = refl
skip_step true false l g h = sym (ap (λ x. or_else x g) (h refl))
skip_step false c l g h = refl

-- One symbol of the loop that has the quote `q`.
set_step {ℓ} :
    {A : Type ℓ} (b c : Bool) (q : A) (l g : Option A)
    → (b ≡ true → l ≡ some q)
    → (if c then or_else l (if b then some q else g) else (if b then some q else g))
      ≡ (if b || c then or_else l g else g)
set_step true true q l g h =
    ap (λ x. or_else x (some q)) (h refl) ∙ sym (ap (λ x. or_else x g) (h refl))
set_step true false q l g h = sym (ap (λ x. or_else x g) (h refl))
set_step false c q l g h = refl

module _ {D : Type 0} ⦃j : QuoteJson D⦄ where
  set_stale-miss :
      (k : String) (ss : List String) (x : Value) (xs : List Value)
      (stale : List (String × CachedQuote D))
      → read_value {D = D} true x ≡ none
      → set_stale (k ∷ ss) (x ∷ xs) stale ≡ set_stale ss xs stale
  unfolding set_stale
  set_stale-miss k ss x xs stale e = rw (e, set_stale) refl

  pub set_stale-hit :
      (k : String) (ss : List String) (x : Value) (xs : List Value)
      (stale : List (String × CachedQuote D)) (q : CachedQuote D)
      → read_value true x ≡ some q
      → set_stale (k ∷ ss) (x ∷ xs) stale ≡ set_stale ss xs (set_entry k q stale)
  unfolding set_stale
  set_stale-hit k ss x xs stale q e = rw (e, set_stale) refl

module _ {D : Type 0} ⦃j : QuoteJson D⦄ (v : String → Value) where
  pub sort_values-hits :
      (ss : List String) (hits : List (String × CachedQuote D)) (misses : List String) (k : String)
      → get_entry k (sort_values ss (map v ss) hits misses).0
        ≡ (if has k ss then or_else (look false v k) (get_entry k hits) else get_entry k hits)
  unfolding sort_values
  sort_values-hits [] hits misses k = refl
  sort_values-hits (s ∷ ss) hits misses k = elim (Option-cases (look {D = D} false v s)) [
    | inl e ↦
        ap (λ x. get_entry k x.0) (sort_values-miss s ss (v s) (map v ss) hits misses e)
        ∙ sort_values-hits ss hits (add_last misses s) k
        ∙ skip_step (s =ₛ k) (has k ss) (look false v k) (get_entry k hits)
            (λ same. ap (look false v) (sym ((eq_iff s k).0 same)) ∙ e)
    | inr (q, e) ↦
        ap (λ x. get_entry k x.0) (sort_values-hit s ss (v s) (map v ss) hits misses q e)
        ∙ sort_values-hits ss (set_entry s q hits) misses k
        ∙ ap (λ g. if has k ss then or_else (look false v k) g else g)
            (get_entry-set_entry s k q hits)
        ∙ set_step (s =ₛ k) (has k ss) q (look false v k) (get_entry k hits)
            (λ same. ap (look false v) (sym ((eq_iff s k).0 same)) ∙ e)
  ]

  pub sort_values-misses :
      (ss : List String) (hits : List (String × CachedQuote D)) (misses : List String)
      → (sort_values ss (map v ss) hits misses).1 ≡ misses ++ missed (look {D = D} false v) ss
  unfolding sort_values
  sort_values-misses [] hits misses = sym (append-nil misses)
  sort_values-misses (s ∷ ss) hits misses = elim (Option-cases (look {D = D} false v s)) [
    | inl e ↦
        ap (λ x. x.1) (sort_values-miss s ss (v s) (map v ss) hits misses e)
        ∙ sort_values-misses ss hits (add_last misses s)
        ∙ add_last-append misses (missed (look {D = D} false v) ss) s
        ∙ ap
            (λ b.
              misses
              ++ (if b
                  then missed (look {D = D} false v) ss
                  else s ∷ missed (look {D = D} false v) ss))
            (sym (ap is_some e))
    | inr (q, e) ↦
        ap (λ x. x.1) (sort_values-hit s ss (v s) (map v ss) hits misses q e)
        ∙ sort_values-misses ss (set_entry s q hits) misses
        ∙ ap
            (λ b.
              misses
              ++ (if b
                  then missed (look {D = D} false v) ss
                  else s ∷ missed (look {D = D} false v) ss))
            (sym (ap is_some e))
  ]

  pub set_stale-lookup :
      (ss : List String) (stale : List (String × CachedQuote D)) (k : String)
      → get_entry k (set_stale ss (map v ss) stale)
        ≡ (if has k ss then or_else (look true v k) (get_entry k stale) else get_entry k stale)
  unfolding set_stale
  set_stale-lookup [] stale k = refl
  set_stale-lookup (s ∷ ss) stale k = elim (Option-cases (look {D = D} true v s)) [
    | inl e ↦
        ap (get_entry k) (set_stale-miss s ss (v s) (map v ss) stale e)
        ∙ set_stale-lookup ss stale k
        ∙ skip_step (s =ₛ k) (has k ss) (look true v k) (get_entry k stale)
            (λ same. ap (look true v) (sym ((eq_iff s k).0 same)) ∙ e)
    | inr (q, e) ↦
        ap (get_entry k) (set_stale-hit s ss (v s) (map v ss) stale q e)
        ∙ set_stale-lookup ss (set_entry s q stale) k
        ∙ ap (λ g. if has k ss then or_else (look true v k) g else g)
            (get_entry-set_entry s k q stale)
        ∙ set_step (s =ₛ k) (has k ss) q (look true v k) (get_entry k stale)
            (λ same. ap (look true v) (sym ((eq_iff s k).0 same)) ∙ e)
  ]
