-- ===== src/Cache/Written.antt =====
-- What SetQuotes leaves under the two keys of a quote.
use pregao.Prelude.{
  Bool, true, false, ◌≡◌, refl, sym, ◌∙◌, ap, subst, String, none, some, List, [], ◌∷◌, Bool-cases,
  inl, inr, if◌then◌else◌, some_inj,
}
use pregao.Prelude.Text.{◌=ₛ◌, to_upper, =ₛ_refl}
use pregao.Prelude.Maps.{get_entry}
use pregao.Prelude.Int.{ℤ}
use pregao.Errors.{ok, and_then-ok, relabel-ok, ok_inj}
use pregao.Broker.{BrokerName, provider_name}
use pregao.Cache.Quotes.{
  CachedQuote, SetCommand, Value, text, Redis, QuoteJson, QuotesCache, fresh_key, stale_key,
  set_commands,
}
use pregao.Cache.Pointwise.{Holds}
use pregao.Cache.Keys.{cross, cross', fresh_apart, stale_apart}
use package.text.Mathlib.TextEquality.{eq_iff}

-- What the keys hold after a list of commands, the last of which for a key counts.
unfoldable pub after : List SetCommand → (String → Value) → String → Value
after [] v k = v k
after (c ∷ cs) v k = after cs (λ l. if c.key =ₛ l then text c.value else v l) k

-- Redis does the commands that it says it did, and no quote has expired since.
abbrev pub DoesCommands : Redis → Type 0
DoesCommands r =
    (st q : r.Store) (v : String → Value) (cs : List SetCommand)
    → Holds ⦃r = r⦄ st v
    → r.exec st cs ≡ (none, q)
    → Holds ⦃r = r⦄ q (after cs v)

module _ {D : Type 0} where
  abbrev pub quote_at : ℤ → String → D → CachedQuote D
  quote_at timestamp s p = record {
    symbol = s;
    price = p;
    timestamp = timestamp;
    is_stale_cache = false;
  }

  -- Symbols in upper case, each once.
  abbrev pub IsTidy : List (String × D) → Type 0
  IsTidy [] = Unit
  IsTidy ((s, p) ∷ quotes) = (to_upper s ≡ s) × (get_entry s quotes ≡ none) × IsTidy quotes

  -- A quote of the given time that encodes is what its text decodes to.
  abbrev pub Decodes : QuoteJson D → ℤ → Type 0
  Decodes j timestamp =
      (s bytes : String) (p : D)
      → j.marshal (quote_at timestamp s p) ≡ ok bytes
      → j.unmarshal bytes ≡ ok (quote_at timestamp s p)

-- The values under the keys after the two commands of a quote.
abbrev with_quote : BrokerName → String → String → (String → Value) → String → Value
with_quote b s bytes v l =
    if stale_key (provider_name b) s =ₛ l
    then text bytes
    else if fresh_key (provider_name b) s =ₛ l
    then text bytes
    else v l

module _ (b : BrokerName) where
  module _ (a s : String) (ua : to_upper a ≡ a) (us : to_upper s ≡ s)
      (apart : (a =ₛ s) ≡ false) where
    with_quote-other-fresh :
        (bytes : String) (v : String → Value)
        → with_quote b a bytes v (fresh_key (provider_name b) s) ≡ v (fresh_key (provider_name b) s)
    with_quote-other-fresh bytes v = rw (cross b a s, fresh_apart b a s ua us apart) refl

    with_quote-other-stale :
        (bytes : String) (v : String → Value)
        → with_quote b a bytes v (stale_key (provider_name b) s) ≡ v (stale_key (provider_name b) s)
    with_quote-other-stale bytes v = rw (stale_apart b a s ua us apart, cross' b a s) refl

  with_quote-own-fresh :
      (s bytes : String) (v : String → Value)
      → with_quote b s bytes v (fresh_key (provider_name b) s) ≡ text bytes
  with_quote-own-fresh s bytes v = rw (cross b s s, =ₛ_refl (fresh_key (provider_name b) s)) refl

  with_quote-own-stale :
      (s bytes : String) (v : String → Value)
      → with_quote b s bytes v (stale_key (provider_name b) s) ≡ text bytes
  with_quote-own-stale s bytes v = rw (=ₛ_refl (stale_key (provider_name b) s)) refl

  -- Both keys of a symbol hold the same.
  abbrev Hold : (String → Value) → String → Value → Type 0
  Hold v s x = (v (fresh_key (provider_name b) s) ≡ x) × (v (stale_key (provider_name b) s) ≡ x)

module _ {D : Type 0} ⦃j : QuoteJson D⦄ (c : QuotesCache) (b : BrokerName) (timestamp : ℤ) where
  -- The commands of one quote and of the rest.
  set_commands-ok :
      (s : String) (p : D) (quotes : List (String × D)) (cs : List SetCommand)
      → set_commands c (provider_name b) timestamp ((s, p) ∷ quotes) ≡ ok cs
      → (bytes : String) × (rest : List SetCommand) × (j.marshal (quote_at timestamp s p)
          ≡ ok bytes)
        × (set_commands c (provider_name b) timestamp quotes ≡ ok rest)
        × ((v : String → Value) (k : String) → after cs v k ≡ after rest (with_quote b s bytes v) k)
  unfolding set_commands after
  set_commands-ok s p quotes cs h =
      let (bytes, marshalled, h1) = and_then-ok _ _ cs h in
      let (rest, done, h2) = and_then-ok _ _ cs h1 in
      (
        bytes,
        rest,
        relabel-ok _ _ bytes marshalled,
        done,
        λ v k. ap (λ ds. after ds v k) (sym (ok_inj _ cs h2)),
      )

  apart_from :
      (a s : String) (p : D) (quotes : List (String × D))
      → get_entry s ((a, p) ∷ quotes) ≡ none
      → ((a =ₛ s) ≡ false) × (get_entry s quotes ≡ none)
  apart_from a s p quotes h = go (a =ₛ s) h
    where
      go :
          (e : Bool)
          → (if e then some p else get_entry s quotes) ≡ none
          → (e ≡ false) × (get_entry s quotes ≡ none)
      go true g = cc
      go false g = (refl, g)

  -- The quotes of other symbols change nothing for a symbol.
  untouched :
      (s : String) (quotes : List (String × D)) (cs : List SetCommand) (v : String → Value)
      → set_commands c (provider_name b) timestamp quotes ≡ ok cs
      → IsTidy quotes
      → to_upper s ≡ s
      → get_entry s quotes ≡ none
      → (after cs v (fresh_key (provider_name b) s) ≡ v (fresh_key (provider_name b) s))
        × (after cs v (stale_key (provider_name b) s) ≡ v (stale_key (provider_name b) s))
  unfolding set_commands after
  untouched s [] cs v h tidy us missing = (
    ap (λ ds. after ds v (fresh_key (provider_name b) s)) (sym (ok_inj [] cs h)),
    ap (λ ds. after ds v (stale_key (provider_name b) s)) (sym (ok_inj [] cs h)),
  )
  untouched s ((a, p) ∷ quotes) cs v h (ua, once, tidy) us missing =
      let (bytes, rest, marshalled, done, same) = set_commands-ok a p quotes cs h in
      let (apart, gone) = apart_from a s p quotes missing in
      let (f, g) = untouched s quotes rest (with_quote b a bytes v) done tidy us gone in
      (
        same v (fresh_key (provider_name b) s)
            ∙ f
            ∙ with_quote-other-fresh b a s ua us apart bytes v,
        same v (stale_key (provider_name b) s)
            ∙ g
            ∙ with_quote-other-stale b a s ua us apart bytes v,
      )

  abbrev Written : List SetCommand → (String → Value) → String → D → Type 0
  Written cs v s p =
      (bytes : String) × (j.marshal (quote_at timestamp s p) ≡ ok bytes)
      × Hold b (after cs v) s (text bytes)

  -- The quote of a symbol is under both of its keys.
  pub written :
      (s : String) (p : D) (quotes : List (String × D)) (cs : List SetCommand) (v : String → Value)
      → set_commands c (provider_name b) timestamp quotes ≡ ok cs
      → IsTidy quotes
      → get_entry s quotes ≡ some p
      → Written cs v s p
  written s p [] cs v h tidy found = cc
  written s p ((a, pa) ∷ quotes) cs v h (ua, once, tidy) found =
      let (bytes, rest, marshalled, done, same) = set_commands-ok a pa quotes cs h in
      let fresh = fresh_key (provider_name b) in
      let stale = stale_key (provider_name b) in
      elim (Bool-cases (a =ₛ s)) [
        | inl equal ↦
            let (f, g) = untouched a quotes rest (with_quote b a bytes v) done tidy ua once in
            subst (λ x. Written cs v x p) ((eq_iff a s).0 equal)
              (subst (Written cs v a) (some_inj pa p (rw equal at found)) (
                bytes,
                marshalled,
                (
                  same v (fresh a) ∙ f ∙ with_quote-own-fresh b a bytes v,
                  same v (stale a) ∙ g ∙ with_quote-own-stale b a bytes v,
                ),
              ))
        | inr apart ↦
            let (bs, m, held) =
              written s p quotes rest (with_quote b a bytes v) done tidy (rw apart at found) in
            (bs, m, (same v (fresh s) ∙ held.0, same v (stale s) ∙ held.1))
      ]
