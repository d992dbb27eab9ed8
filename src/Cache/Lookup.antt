-- ===== src/Cache/Lookup.antt =====
-- Of the symbols that GetQuotes was asked for, none is lost.
use pregao.Prelude.{
  Bool, true, false, not, ◌||◌, ◌≡◌, refl, sym, ◌∙◌, ap, String, Option, none, some, List, [], ◌∷◌,
  any, All, subst, length, map, arith, Bool-cases, Option-cases, inl, inr,
}
use pregao.Prelude.Text.{◌=ₛ◌, =ₛ_refl}
use pregao.Prelude.Maps.{get_entry, set_entry, get_entry-set_entry}
use pregao.Errors.{Error, Result, ok, err}
use pregao.Cache.Quotes.{
  CachedQuote, Value, nil, strange, text, QuoteJson, Redis, read_value, marked, sort_values, sorted,
  add_last, get_quotes, fresh_key,
}

any-add_last :
    (s t : String) (misses : List String)
    → any (λ u. u =ₛ s) (add_last misses t) ≡ (t =ₛ s || any (λ u. u =ₛ s) misses)
any-add_last s t [] = ground arith
any-add_last s t (m ∷ misses) = ground (arith, any-add_last s t misses)

or_true : (a b : Bool) → b ≡ true → (a || b) ≡ true
or_true true b h = refl
or_true false b h = h

module _ {D : Type 0} ⦃j : QuoteJson D⦄ where
  abbrev is_fresh : Option (CachedQuote D) → Bool
  is_fresh none = false
  is_fresh (some q) = not q.is_stale_cache

  -- Whether a symbol has a quote that is not marked as stale, or is among the misses.
  abbrev pub accounted : String → List (String × CachedQuote D) × List String → Bool
  accounted s (hits, misses) = is_fresh (get_entry s hits) || any (λ t. t =ₛ s) misses

  marked-fresh :
      (r : Result (CachedQuote D)) (q : CachedQuote D)
      → marked false r ≡ some q
      → is_fresh (some q) ≡ true
  marked-fresh (err e) q h = cc
  marked-fresh (ok p) q h = ap is_fresh (sym h)

  read_value-fresh :
      (v : Value) (q : CachedQuote D) → read_value false v ≡ some q → is_fresh (some q) ≡ true
  unfolding read_value
  read_value-fresh nil q h = cc
  read_value-fresh strange q h = cc
  read_value-fresh (text s) q h = marked-fresh (j.unmarshal s) q h

  -- One step keeps what is accounted for, and accounts for its own symbol.
  hit-accounted :
      (k s : String) (q : CachedQuote D) (hits : List (String × CachedQuote D))
      (misses : List String)
      → is_fresh (some q) ≡ true
      → accounted s (set_entry k q hits, misses) ≡ (k =ₛ s || accounted s (hits, misses))
  hit-accounted k s q hits misses h =
      ap (λ x. is_fresh x || any (λ t. t =ₛ s) misses) (get_entry-set_entry k s q hits)
      ∙ elim (Bool-cases (k =ₛ s)) [ inl same ↦ rw (same, h) refl | inr differs ↦ rw differs refl ]

  miss-accounted :
      (k s : String) (hits : List (String × CachedQuote D)) (misses : List String)
      → accounted s (hits, add_last misses k) ≡ (k =ₛ s || accounted s (hits, misses))
  miss-accounted k s hits misses = ground (arith, any-add_last s k misses)

  pub sort_values-miss :
      (k : String) (ss : List String) (v : Value) (vs : List Value)
      (hits : List (String × CachedQuote D)) (misses : List String)
      → read_value {D = D} false v ≡ none
      → sort_values (k ∷ ss) (v ∷ vs) hits misses ≡ sort_values ss vs hits (add_last misses k)
  unfolding sort_values
  sort_values-miss k ss v vs hits misses e = rw (e, sort_values) refl

  pub sort_values-hit :
      (k : String) (ss : List String) (v : Value) (vs : List Value)
      (hits : List (String × CachedQuote D)) (misses : List String) (q : CachedQuote D)
      → read_value false v ≡ some q
      → sort_values (k ∷ ss) (v ∷ vs) hits misses ≡ sort_values ss vs (set_entry k q hits) misses
  unfolding sort_values
  sort_values-hit k ss v vs hits misses q e = rw (e, sort_values) refl

  sort_values-keeps :
      (ss : List String) (vs : List Value) (hits : List (String × CachedQuote D))
      (misses : List String) (s : String)
      → accounted s (hits, misses) ≡ true
      → accounted s (sort_values ss vs hits misses) ≡ true
  unfolding sort_values
  sort_values-keeps [] vs hits misses s h = h
  sort_values-keeps (k ∷ ss) [] hits misses s h = h
  sort_values-keeps (k ∷ ss) (v ∷ vs) hits misses s h =
      elim (Option-cases (read_value {D = D} false v)) [
        | inl e ↦
            rw (e, sort_values)
              (sort_values-keeps ss vs hits (add_last misses k) s
                (miss-accounted k s hits misses ∙ or_true _ _ h))
        | inr (q, e) ↦
            rw (e, sort_values)
              (sort_values-keeps ss vs (set_entry k q hits) misses s
                (hit-accounted k s q hits misses (read_value-fresh v q e) ∙ or_true _ _ h))
      ]

  sort_values-accounted :
      (ss : List String) (vs : List Value) (hits : List (String × CachedQuote D))
      (misses : List String)
      → length vs ≡ length ss
      → All (λ s. accounted s (sort_values ss vs hits misses) ≡ true) ss
  unfolding sort_values
  sort_values-accounted [] vs hits misses h = tt
  sort_values-accounted (k ∷ ss) [] hits misses h = absurd (omega arith)
  sort_values-accounted (k ∷ ss) (v ∷ vs) hits misses h =
      elim (Option-cases (read_value {D = D} false v)) [
        | inl e ↦
            subst (λ x. All (λ s. accounted s x ≡ true) (k ∷ ss))
              (sym (sort_values-miss k ss v vs hits misses e))
              (
                sort_values-keeps ss vs hits (add_last misses k) k (
                    miss-accounted k k hits misses
                    ∙ ap (λ b. b || accounted k (hits, misses)) (=ₛ_refl k)),
                sort_values-accounted ss vs hits (add_last misses k) (omega arith),
              )
        | inr (q, e) ↦
            subst (λ x. All (λ s. accounted s x ≡ true) (k ∷ ss))
              (sym (sort_values-hit k ss v vs hits misses q e))
              (
                sort_values-keeps ss vs (set_entry k q hits) misses k (
                    hit-accounted k k q hits misses (read_value-fresh v q e)
                    ∙ ap (λ b. b || accounted k (hits, misses)) (=ₛ_refl k)),
                sort_values-accounted ss vs (set_entry k q hits) misses (omega arith),
              )
      ]

  module _ ⦃r : Redis⦄ where
    -- When MGET answers, with one value for each key: GetQuotes returns no error, and each symbol
    -- that it was asked for has a quote that is not marked as stale among the hits, or stands among
    -- the misses.
    pub get_quotes-accounted :
        (provider : String) (symbols : List String) (values : List Value) (store : r.Store)
        (found : List (String × CachedQuote D) × List String) (failure : Option Error)
        → r.m_get store (map (fresh_key provider) symbols) ≡ ok values
        → length values ≡ length symbols
        → get_quotes provider symbols store ≡ (found, failure)
        → (failure ≡ none) × All (λ s. accounted s found ≡ true) symbols
    unfolding get_quotes
    get_quotes-accounted provider [] values store found failure e h g = (ap (λ x. x.1) (sym g), tt)
    get_quotes-accounted provider (s ∷ ss) values store found failure e h g =
        subst (λ x. (x.1 ≡ none) × All (λ t. accounted t x.0 ≡ true) (s ∷ ss))
          (sym (ap (sorted (s ∷ ss)) e) ∙ g) (refl, sort_values-accounted (s ∷ ss) values [] [] h)
