-- ===== src/Service/Quotes/Pointwise.antt =====
-- GetQuotes against its description one symbol at a time: the fresh cache, then the broker, and the
-- stale cache where the broker fails.
use pregao.Prelude.{
  Bool, true, false, not, ◌&&◌, ◌≡◌, refl, sym, ◌∙◌, ap, String, Option, none, some, List, [], ◌∷◌,
  map, Bool-cases, inl, inr, if◌then◌else◌,
}
use mathlib.Core.List.{map-map}
use pregao.Prelude.Maps.{get_entry, set_all, map_or, get_entry-set_all}
use pregao.Prelude.Int.{ℤ}
use pregao.Errors.{Result, ok, err, and_then, relabel}
use pregao.Decimal.{Decimals}
use pregao.Broker.{BookTicker}
use pregao.Cache.{
  CachedQuote, CacheClient, QuotesCache, Redis, QuoteJson, Value, redis_client, sort_values, sorted,
  set_stale, read_value, fresh_key, stale_key,
}
use pregao.Cache
use pregao.Cache.Pointwise.{
  Holds, has, is_some, or_else, missed, has-missed, look, sort_values-hits, sort_values-misses,
  set_stale-lookup,
}
use pregao.Service.Server.{PregaoServer, resolve_provider}
use pregao.Service.Quotes.{
  GetQuotesRequest, Quote, clean_symbols, quote_of_cached, quote_of_ticker, add_stale, on_tickers,
  on_misses, on_cached, get_quotes,
}

or_else-none {ℓ} : {A : Type ℓ} (o : Option A) → or_else o none ≡ o
or_else-none none = refl
or_else-none (some a) = refl

module _ {D : Type 0} ⦃d : Decimals D⦄ where
  -- A broker that answers for no symbol but those that it was asked for.
  abbrev pub AnswersAsked : PregaoServer D → Type 0
  AnswersAsked s =
      (asked : List String) (tickers : List (String × BookTicker D)) (k : String)
      → s.broker_client.get_book_tickers asked ≡ ok tickers
      → has k asked ≡ false
      → get_entry k tickers ≡ none

  -- The quote of a symbol that the fresh cache lacks, from the broker's answer.
  abbrev pub broker_quote :
      ℤ
      → (String → Option (CachedQuote D))
      → Result (List (String × BookTicker D))
      → String
      → Option Quote
  broker_quote now stale (ok tickers) k = map_or (quote_of_ticker now) (get_entry k tickers) none
  broker_quote now stale (err e) k = map_or (quote_of_cached true) (stale k) none

  -- The quote of one of the `symbols`, from what the fresh and the stale cache hold.
  abbrev pub quote_of :
      PregaoServer D
      → ℤ
      → (String → Option (CachedQuote D))
      → (String → Option (CachedQuote D))
      → List String
      → String
      → Option Quote
  quote_of s now fresh stale symbols k =
      map_or (quote_of_cached false) (fresh k)
        (broker_quote now stale (s.broker_client.get_book_tickers (missed fresh symbols)) k)

  -- What is found for a symbol, by whether it was asked for and whether the fresh cache has it.
  choose :
      (f : CachedQuote D → Quote) (asked : Bool) (fresh : Option (CachedQuote D)) (b : Option Quote)
      → (if asked && not (is_some fresh)
          then b
          else map_or f (if asked then or_else fresh none else none) none)
        ≡ (if asked then map_or f fresh b else none)
  choose f false fresh b = refl
  choose f true none b = refl
  choose f true (some q) b = refl

  -- A symbol that the fresh cache lacks is not among the hits.
  lacks :
      (asked : Bool) (fresh : Option (CachedQuote D))
      → (asked && not (is_some fresh)) ≡ true
      → (if asked then or_else fresh none else none) ≡ none
  lacks false fresh h = refl
  lacks true none h = refl
  lacks true (some q) h = cc

  module _ ⦃j : QuoteJson D⦄ ⦃r : Redis⦄ (c : QuotesCache) where
    cache-get_quotes :
        (provider : String) (symbols : List String) (st : r.Store) (v : String → Value)
        → Holds st v
        → Cache.get_quotes {D = D} provider symbols st
          ≡ (sort_values symbols (map (λ k. v (fresh_key provider k)) symbols) [] [], none)
    unfolding Cache.get_quotes sort_values
    cache-get_quotes provider [] st v holds = refl
    cache-get_quotes provider (s ∷ ss) st v holds = ap (sorted (s ∷ ss)) (
        holds (map (fresh_key provider) (s ∷ ss)) ∙ ap ok (map-map v (fresh_key provider) (s ∷ ss)))

    cache-get_stale_quotes :
        (provider : String) (symbols : List String) (st : r.Store) (v : String → Value)
        → Holds st v
        → Cache.get_stale_quotes {D = D} provider symbols st
          ≡ ok (set_stale symbols (map (λ k. v (stale_key provider k)) symbols) [])
    unfolding Cache.get_stale_quotes set_stale
    cache-get_stale_quotes provider [] st v holds = refl
    cache-get_stale_quotes provider (s ∷ ss) st v holds =
        ap
          (λ x.
            and_then (relabel "failed to mget stale quotes" x)
              (λ values. ok (set_stale (s ∷ ss) values [])))
          (holds (map (stale_key provider) (s ∷ ss))
            ∙ ap ok (map-map v (stale_key provider) (s ∷ ss)))

    -- The answer for a symbol, from the lookup in the fresh cache and the missing symbols.
    on_tickers-lookup :
        (provider : String) (now : ℤ) (misses : List String) (base : List (String × Quote))
        (x : Result (List (String × BookTicker D))) (st : r.Store) (v : String → Value) (k : String)
        → Holds st v
        → ((tickers : List (String × BookTicker D))
            → x ≡ ok tickers
            → has k misses ≡ false
            → get_entry k tickers ≡ none)
        → (has k misses ≡ true → get_entry k base ≡ none)
        → get_entry k (on_tickers (redis_client c) provider now misses base x st).0 ≡ (
            if has k misses
            then broker_quote now (look true (λ l. v (stale_key provider l))) x k
            else get_entry k base)
    on_tickers-lookup provider now misses base (ok ts) st v k holds asked apart =
        get_entry-set_all (quote_of_ticker now) k ts base ∙ elim (Bool-cases (has k misses)) [
          | inl h ↦ rw h (ap (map_or (quote_of_ticker now) (get_entry k ts)) (apart h))
          | inr h ↦
              rw h (ap (λ o. map_or (quote_of_ticker now) o (get_entry k base)) (asked ts refl h))
        ]
    on_tickers-lookup provider now misses base (err e) st v k holds asked apart =
        let w = λ (l : String). v (stale_key provider l) in
        ap (λ y. get_entry k (add_stale (redis_client c) base y))
          (cache-get_stale_quotes provider misses st v holds)
        ∙ get_entry-set_all (quote_of_cached true) k (set_stale misses (map w misses) []) base
        ∙ ap (λ o. map_or (quote_of_cached true) o (get_entry k base))
            (set_stale-lookup w misses [] k)
        ∙ elim (Bool-cases (has k misses)) [
          | inl h ↦ rw h (
              ap (λ o. map_or (quote_of_cached true) o (get_entry k base))
                (or_else-none (look true w k))
              ∙ ap (map_or (quote_of_cached true) (look true w k)) (apart h))
          | inr h ↦ rw h refl
        ]

    on_misses-lookup :
        (s : PregaoServer D) (provider : String) (now : ℤ) (misses : List String)
        (base : List (String × Quote)) (st : r.Store) (v : String → Value) (k : String)
        → Holds st v
        → AnswersAsked s
        → (has k misses ≡ true → get_entry k base ≡ none)
        → get_entry k (on_misses (redis_client c) s provider now base misses st).0 ≡ (
            if has k misses
            then broker_quote now
                (look true (λ l. v (stale_key provider l)))
                (s.broker_client.get_book_tickers misses)
                k
            else get_entry k base)
    on_misses-lookup s provider now [] base st v k holds asked apart = refl
    on_misses-lookup s provider now (m ∷ ms) base st v k holds asked apart =
        on_tickers-lookup provider now (m ∷ ms) base (s.broker_client.get_book_tickers (m ∷ ms)) st
          v k holds (λ ts. asked (m ∷ ms) ts k) apart

    on_cached-lookup :
        (s : PregaoServer D) (provider : String) (now : ℤ) (symbols : List String) (st : r.Store)
        (v : String → Value) (k : String)
        → Holds st v
        → AnswersAsked s
        → get_entry k
            (on_cached
              (redis_client c)
              s
              provider
              now
              (Cache.get_quotes {D = D} provider symbols st)
              st).0
          ≡ (if has k symbols
              then quote_of s now
                  (look false (λ l. v (fresh_key provider l)))
                  (look true (λ l. v (stale_key provider l)))
                  symbols
                  k
              else none)
    on_cached-lookup s provider now symbols st v k holds asked =
        let f = λ (l : String). v (fresh_key provider l) in
        let fresh = look {D = D} false f in
        let sorting = sort_values {D = D} symbols (map f symbols) [] [] in
        let base = set_all (quote_of_cached false) sorting.0 [] in
        let brokers =
          broker_quote now (look true (λ (l : String). v (stale_key provider l)))
            (s.broker_client.get_book_tickers (missed fresh symbols)) k in
        let hit =
          get_entry-set_all (quote_of_cached false) k sorting.0 []
          ∙ ap (λ o. map_or (quote_of_cached false) o none) (sort_values-hits f symbols [] [] k) in
        ap (λ x. get_entry k (on_cached (redis_client c) s provider now x st).0)
          (cache-get_quotes provider symbols st v holds)
        ∙ ap (λ ms. get_entry k (on_misses (redis_client c) s provider now base ms st).0)
            (sort_values-misses f symbols [] [])
        ∙ on_misses-lookup s provider now (missed fresh symbols) base st v k holds asked (λ h.
          hit
          ∙ ap (λ o. map_or (quote_of_cached false) o none)
              (lacks (has k symbols) (fresh k) (sym (has-missed fresh k symbols) ∙ h)))
        ∙ ap (λ b. if b then brokers else get_entry k base) (has-missed fresh k symbols)
        ∙ ap (λ o. if has k symbols && not (is_some (fresh k)) then brokers else o) hit
        ∙ choose (quote_of_cached false) (has k symbols) (fresh k) brokers

    -- With the Redis cache, if Redis answers every MGET, with the given value of each key, and the
    -- broker answers for no symbol that it was not asked for: the entry that GetQuotes has for a
    -- symbol is the one of its description one symbol at a time. A symbol that is not among the
    -- cleaned ones has none; one that the fresh cache holds has that quote; another has the
    -- broker's quote, if the broker answered and has one; and where the broker failed, the quote of
    -- the stale cache, marked as stale.
    pub get_quotes-refines :
        (s : PregaoServer D) (now : ℤ) (req : GetQuotesRequest) (st : r.Store) (v : String → Value)
        (k : String)
        → Holds st v
        → AnswersAsked s
        → let provider = resolve_provider s req.provider in
          get_entry k (get_quotes (redis_client c) s now req st).0 ≡ (
            if has k (clean_symbols req.symbols)
            then quote_of s now
                (look false (λ l. v (fresh_key provider l)))
                (look true (λ l. v (stale_key provider l)))
                (clean_symbols req.symbols)
                k
            else none)
    unfolding get_quotes clean_symbols
    get_quotes-refines s now req st v k holds asked = from req.symbols
      where
        from :
            (syms : List String)
            → get_entry k (get_quotes (redis_client c) s now (record req { symbols = syms }) st).0
              ≡ (if has k (clean_symbols syms)
                  then quote_of s now
                      (look false (λ l. v (fresh_key (resolve_provider s req.provider) l)))
                      (look true (λ l. v (stale_key (resolve_provider s req.provider) l)))
                      (clean_symbols syms)
                      k
                  else none)
        from [] = refl
        from (sym' ∷ syms) =
            on_cached-lookup s (resolve_provider s req.provider) now (clean_symbols (sym' ∷ syms))
              st v k holds asked
