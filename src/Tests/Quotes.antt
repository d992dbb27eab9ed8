-- ===== src/Tests/Quotes.antt =====
-- Runs of the quotes cache, and its theorem at such runs. The store of the tests is a list of entries.
use pregao.Prelude.{◌≡◌, refl, String, Option, none, some, List, [], ◌∷◌, true, false, map}
use pregao.Prelude.Text.{to_upper}
use pregao.Prelude.Maps.{get_entry, set_entry}
use pregao.Prelude.Int.{ℤ, pos}
use pregao.Errors.{Result, ok, err}
use pregao.Decimal.Whole.{whole, show_ℤ, parse_ℤ, digits}
use pregao.Cache.{
  CachedQuote, SetCommand, Value, nil, text, Redis, QuoteJson, QuotesCache, new_redis_quotes_cache,
  fresh_key, stale_key, set_quotes, get_quotes, get_stale_quote, set_commands, read_value,
  sort_values,
}

abbrev pub value_of : Option String → Value
value_of none = nil
value_of (some s) = text s

abbrev pub run : List (String × String) → List SetCommand → List (String × String)
run store [] = store
run store (c ∷ cs) = run (set_entry c.key c.value store) cs

instance abbrev pub memory : Redis
memory = record {
  Store = List (String × String);
  m_get = λ store keys. ok (map (λ k. value_of (get_entry k store)) keys);
  get = λ store k. ok (get_entry k store);
  exec = λ store commands. (none, run store commands);
}

abbrev with_price : Result ℤ → Result (CachedQuote ℤ)
with_price (err e) = err e
with_price (ok p) =
    ok (record { symbol = "?"; price = p; timestamp = pos 0; is_stale_cache = false })

-- A quote is its price.
instance abbrev pub prices : QuoteJson ℤ
prices = record { marshal = λ q. ok (show_ℤ q.price); unmarshal = λ s. with_price (parse_ℤ s) }

abbrev pub cache : QuotesCache
cache = new_redis_quotes_cache (pos 0) (pos 0)

abbrev stored : List (String × String)
stored = ("pregao:quotes:BINANCE:BTCUSDT", "7") ∷ ("pregao:quotes:stale:BINANCE:BTCUSDT", "7") ∷ []

test_set_quotes : set_quotes cache "binance" (("btcusdt", pos 7) ∷ []) (pos 1) [] ≡ (none, stored)
unfolding set_quotes set_commands fresh_key stale_key to_upper show_ℤ digits
test_set_quotes = refl

abbrev pub quote : CachedQuote ℤ
quote = record { symbol = "?"; price = pos 7; timestamp = pos 0; is_stale_cache = false }

test_get_quotes :
    get_quotes "binance" ("btcusdt" ∷ "ETHUSDT" ∷ []) stored
    ≡ ((("btcusdt", quote) ∷ [], "ETHUSDT" ∷ []), none)
unfolding get_quotes sort_values read_value fresh_key to_upper parse_ℤ
test_get_quotes = refl

test_get_stale_quote :
    get_stale_quote "binance" "btcusdt" stored ≡ ok (record quote { is_stale_cache = true })
unfolding get_stale_quote stale_key to_upper parse_ℤ
test_get_stale_quote = refl

found_values :
    map
      (λ k. value_of (get_entry k stored))
      (map (fresh_key "binance") ("btcusdt" ∷ "ETHUSDT" ∷ []))
    ≡ text "7" ∷ nil ∷ []
unfolding fresh_key to_upper
found_values = refl
