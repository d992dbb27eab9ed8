-- ===== src/Cache/Quotes.antt =====
-- internal/cache/cache.go and redis.go: the keys of a quote, and the four operations of the cache.
-- Redis and JSON are parameters.
use Prim.Native.String.{◌++◌}
use pregao.Prelude.{
  Bool, true, false, String, Option, none, some, List, [], ◌∷◌, map, if◌then◌else◌, ◌==◌,
}
use pregao.Prelude.Text.{to_upper}
use pregao.Prelude.Maps.{set_entry}
use pregao.Prelude.Int.{ℤ, pos}
use pregao.Errors.{Error, Sentinel, Result, ok, err, sentinel, wrap, and_then, relabel}

pub record CachedQuote (D : Type 0) : Type 0 where
  pub symbol : String
  pub price : D
  pub timestamp : ℤ
  pub is_stale_cache : Bool

-- One SET with its time to live in nanoseconds.
pub record SetCommand : Type 0 where
  pub key : String
  pub value : String
  pub ttl : ℤ

-- An element of MGET's answer: `nil`, a text, or another value.
pub data Value : Type 0 where
  nil strange : Value
  text : String → Value

-- The client of Redis; a key that GET does not find is `none`, which is `redis.Nil`.
pub record Redis : Type 1 where
  pub Store : Type 0
  pub m_get : Store → List String → Result (List Value)
  pub get : Store → String → Result (Option String)
  pub exec : Store → List SetCommand → Option Error × Store

-- encoding/json on a quote.
pub record QuoteJson (D : Type 0) : Type 0 where
  pub marshal : CachedQuote D → Result String
  pub unmarshal : String → Result (CachedQuote D)

pub record QuotesCache : Type 0 where
  pub fresh_ttl : ℤ
  pub stale_ttl : ℤ

abbrev or_ttl : ℤ → ℤ → ℤ
or_ttl (pos n) default = if n == 0 then default else pos n
or_ttl _ default = default

-- `NewRedisQuotesCache`
unfoldable pub new_redis_quotes_cache : ℤ → ℤ → QuotesCache
new_redis_quotes_cache fresh_ttl stale_ttl = record {
  fresh_ttl = or_ttl fresh_ttl (pos 5_000_000_000);
  stale_ttl = or_ttl stale_ttl (pos 86_400_000_000_000);
}

-- `freshKey`
unfoldable pub fresh_key : String → String → String
fresh_key provider symbol = "pregao:quotes:" ++ to_upper provider ++ ":" ++ to_upper symbol

-- `staleKey`
unfoldable pub stale_key : String → String → String
stale_key provider symbol = "pregao:quotes:stale:" ++ to_upper provider ++ ":" ++ to_upper symbol

-- `append` of one element.
abbrev pub add_last {ℓ} : {A : Type ℓ} → List A → A → List A
add_last [] x = x ∷ []
add_last (y ∷ ys) x = y ∷ add_last ys x

module _ ⦃r : Redis⦄ where
  abbrev pub answer_of : Option Error × r.Store → Option Error × r.Store
  answer_of (none, q) = (none, q)
  answer_of (some e, q) = (some (wrap "failed to execute pipeline set" e), q)

  -- The pipeline, unless a quote did not encode.
  abbrev pub executed : r.Store → Result (List SetCommand) → Option Error × r.Store
  executed store (err e) = (some e, store)
  executed store (ok commands) = answer_of (r.exec store commands)

module _ {D : Type 0} ⦃j : QuoteJson D⦄ where
  abbrev pub marked : Bool → Result (CachedQuote D) → Option (CachedQuote D)
  marked stale (err e) = none
  marked stale (ok q) = some (record q { is_stale_cache = stale })

  -- A quote out of Redis, under the given mark.
  unfoldable pub read_value : Bool → Value → Option (CachedQuote D)
  read_value stale nil = none
  read_value stale strange = none
  read_value stale (text s) = marked stale (j.unmarshal s)

  -- The loop of GetQuotes; MGET answers with one value for each key.
  unfoldable pub sort_values :
      List String
      → List Value
      → List (String × CachedQuote D)
      → List String
      → List (String × CachedQuote D) × List String
  sort_values (s ∷ ss) (v ∷ vs) hits misses = elim (read_value false v) [
    | some q ↦ sort_values ss vs (set_entry s q hits) misses
    | none ↦ sort_values ss vs hits (add_last misses s)
  ]
  sort_values _ _ hits misses = (hits, misses)

  -- The loop of GetStaleQuotes.
  unfoldable pub set_stale :
      List String → List Value → List (String × CachedQuote D) → List (String × CachedQuote D)
  set_stale (s ∷ ss) (v ∷ vs) result = elim (read_value true v) [
    | some q ↦ set_stale ss vs (set_entry s q result)
    | none ↦ set_stale ss vs result
  ]
  set_stale _ _ result = result

  -- The two commands for each quote; a quote that does not encode ends the loop.
  unfoldable pub set_commands :
      QuotesCache → String → ℤ → List (String × D) → Result (List SetCommand)
  set_commands c provider timestamp [] = ok []
  set_commands c provider timestamp ((symbol, price) ∷ quotes) =
      let rest = set_commands c provider timestamp quotes in
      and_then
        (relabel ("failed to marshal quote for " ++ symbol) (
          j.marshal (record {
            symbol = symbol;
            price = price;
            timestamp = timestamp;
            is_stale_cache = false;
          })))
        λ bytes. and_then rest λ commands. ok (
          record { key = fresh_key provider symbol; value = bytes; ttl = c.fresh_ttl }
          ∷ record { key = stale_key provider symbol; value = bytes; ttl = c.stale_ttl }
          ∷ commands)

  module _ ⦃r : Redis⦄ where
    -- The hits, the misses and the error of GetQuotes.
    abbrev pub sorted :
        List String
        → Result (List Value)
        → (List (String × CachedQuote D) × List String) × Option Error
    sorted symbols (err e) = (([], symbols), some (wrap "redis MGet failed" e))
    sorted symbols (ok values) = (sort_values symbols values [] [], none)

    -- `GetQuotes`
    unfoldable pub get_quotes :
        String
        → List String
        → r.Store
        → (List (String × CachedQuote D) × List String) × Option Error
    unfolding sort_values
    get_quotes provider [] store = (([], []), none)
    get_quotes provider (s ∷ ss) store =
        sorted (s ∷ ss) (r.m_get store (map (fresh_key provider) (s ∷ ss)))

    -- `SetQuotes`
    unfoldable pub set_quotes :
        QuotesCache → String → List (String × D) → ℤ → r.Store → Option Error × r.Store
    unfolding set_commands
    set_quotes c provider [] timestamp store = (none, store)
    set_quotes c provider (q ∷ qs) timestamp store =
        executed store (set_commands c provider timestamp (q ∷ qs))

    -- `GetStaleQuote`
    unfoldable pub get_stale_quote : String → String → r.Store → Result (CachedQuote D)
    get_stale_quote provider symbol store =
        and_then (relabel "failed to get stale quote" (r.get store (stale_key provider symbol)))
          λ found. elim found [
            | none ↦ err (sentinel Sentinel.cache_miss)
            | some s ↦
                and_then (relabel "failed to unmarshal stale quote" (j.unmarshal s))
                  λ q. ok (record q { is_stale_cache = true })
          ]

    -- `GetStaleQuotes`
    unfoldable pub get_stale_quotes :
        String → List String → r.Store → Result (List (String × CachedQuote D))
    unfolding set_stale
    get_stale_quotes provider [] store = ok []
    get_stale_quotes provider (s ∷ ss) store =
        and_then
          (relabel "failed to mget stale quotes"
            (r.m_get store (map (stale_key provider) (s ∷ ss))))
          λ values. ok (set_stale (s ∷ ss) values [])
