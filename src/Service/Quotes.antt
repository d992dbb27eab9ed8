-- ===== src/Service/Quotes.antt =====
-- `GetQuotes` and `ValidateTickers` of internal/service/service.go. The cache is a parameter by its
-- interface, with a state of its own; `now` is `time.Now().Unix()`.
pub mod Clean
pub mod Pointwise
use Prim.Native.String.{◌++◌}
use pregao.Prelude.{
  Bool, true, false, ◌||◌, String, Option, none, some, List, [], ◌∷◌, any, if◌then◌else◌,
}
use pregao.Prelude.Text.{◌=ₛ◌, to_upper, trim_space}
use pregao.Prelude.Maps.{set_all}
use pregao.Prelude.Int.{ℤ}
use pregao.Errors.{Error, Result, ok, err, Reply, reply, status, Code, error_text}
use pregao.Decimal.{Decimals}
use pregao.Broker.{BookTicker}
use pregao.Cache.{CachedQuote, CacheClient}
use pregao.Service.Server.{PregaoServer, resolve_provider}

pub record GetQuotesRequest : Type 0 where
  pub provider : String
  pub symbols : List String

-- `pregaov1.Quote`
pub record Quote : Type 0 where
  pub symbol : String
  pub price : String
  pub timestamp : ℤ
  pub is_stale_cache : Bool

-- The loop that cleans and deduplicates, with the symbols seen so far.
unfoldable pub clean_from : List String → List String → List String
clean_from seen [] = []
clean_from seen (sym ∷ syms) =
    let s = to_upper (trim_space sym) in
    let skip = clean_from seen syms in
    let keep = s ∷ clean_from (s ∷ seen) syms in
    if s =ₛ "" || any (λ t. t =ₛ s) seen then skip else keep

unfoldable pub clean_symbols : List String → List String
unfolding clean_from
clean_symbols syms = clean_from [] syms

module _ {D : Type 0} ⦃d : Decimals D⦄ where
  abbrev pub quote_of_cached : Bool → CachedQuote D → Quote
  quote_of_cached stale q = record {
    symbol = q.symbol;
    price = d.show q.price;
    timestamp = q.timestamp;
    is_stale_cache = stale;
  }

  abbrev pub quote_of_ticker : ℤ → BookTicker D → Quote
  quote_of_ticker now t = record {
    symbol = t.symbol;
    price = d.show t.mid_price;
    timestamp = now;
    is_stale_cache = false;
  }

  module _ (cache : CacheClient D) where
    -- Step 3: the fallback on stale quotes.
    abbrev pub add_stale :
        List (String × Quote) → Result (List (String × CachedQuote D)) → List (String × Quote)
    add_stale quotes (err e) = quotes
    add_stale quotes (ok stale) = set_all (quote_of_cached true) stale quotes

    -- Step 2, from the broker's answer on; a cache that cannot be written is only logged.
    abbrev pub on_tickers :
        String
        → ℤ
        → List String
        → List (String × Quote)
        → Result (List (String × BookTicker D))
        → cache.State
        → List (String × Quote) × cache.State
    on_tickers provider now misses quotes (ok tickers) st = (
      set_all (quote_of_ticker now) tickers quotes,
      (cache.set_quotes provider (set_all (λ t. t.mid_price) tickers []) now st).1,
    )
    on_tickers provider now misses quotes (err e) st =
        (add_stale quotes (cache.get_stale_quotes provider misses st), st)

    -- Step 2, for the symbols that the fresh cache lacks.
    abbrev pub on_misses :
        PregaoServer D
        → String
        → ℤ
        → List (String × Quote)
        → List String
        → cache.State
        → List (String × Quote) × cache.State
    on_misses s provider now quotes [] st = (quotes, st)
    on_misses s provider now quotes (m ∷ ms) st =
        on_tickers provider now (m ∷ ms) quotes (s.broker_client.get_book_tickers (m ∷ ms)) st

    -- From the answer of the fresh cache on; its error is only logged.
    abbrev pub on_cached :
        PregaoServer D
        → String
        → ℤ
        → (List (String × CachedQuote D) × List String) × Option Error
        → cache.State
        → List (String × Quote) × cache.State
    on_cached s provider now ((hits, misses), failure) st =
        on_misses s provider now (set_all (quote_of_cached false) hits []) misses st

    -- `GetQuotes`, whose error is always nil.
    unfoldable pub get_quotes :
        PregaoServer D → ℤ → GetQuotesRequest → cache.State → List (String × Quote) × cache.State
    get_quotes s now req st = elim req.symbols [
      | [] ↦ ([], st)
      | sym ∷ syms ↦
          let provider = resolve_provider s req.provider in
          on_cached s provider now (cache.get_quotes provider (clean_symbols (sym ∷ syms)) st) st
    ]

  -- `ValidateTickers`, of the symbols of the request.
  unfoldable pub validate_tickers : PregaoServer D → List String → Reply (List (String × Bool))
  validate_tickers s [] = reply []
  validate_tickers s (sym ∷ syms) = elim (s.broker_client.validate_symbols (sym ∷ syms)) [
    | err e ↦ status Code.unavailable ("failed to validate tickers with broker: " ++ error_text e)
    | ok valid ↦ reply valid
  ]
