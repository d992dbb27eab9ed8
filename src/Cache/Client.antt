-- ===== src/Cache/Client.antt =====
-- The interface QuotesCache of internal/cache/cache.go, as the service uses it, and its
-- implementation on Redis. The operations answer beside the state that they leave.
use pregao.Prelude.{String, Option, List}
use pregao.Prelude.Int.{ℤ}
use pregao.Errors.{Error, Result}
use pregao.Cache.Quotes.{
  CachedQuote, QuotesCache, Redis, QuoteJson, get_quotes, set_quotes, get_stale_quotes,
}

pub record CacheClient (D : Type 0) : Type 1 where
  pub State : Type 0
  pub get_quotes :
      String → List String → State → (List (String × CachedQuote D) × List String) × Option Error
  pub set_quotes : String → List (String × D) → ℤ → State → Option Error × State
  pub get_stale_quotes : String → List String → State → Result (List (String × CachedQuote D))

module _ {D : Type 0} ⦃j : QuoteJson D⦄ ⦃r : Redis⦄ where
  abbrev pub redis_client : QuotesCache → CacheClient D
  redis_client c = record {
    State = r.Store;
    get_quotes = get_quotes;
    set_quotes = set_quotes c;
    get_stale_quotes = get_stale_quotes;
  }
