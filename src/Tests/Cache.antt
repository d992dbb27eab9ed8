-- ===== src/Tests/Cache.antt =====
-- A run of the quotes cache that writes and reads, and its theorem at that run. The prices are
-- Booleans here, so that a quote has an encoding in one more character than its symbol.
use Prim.Native.String.{char_at}
use Prim.Native.Char.{code}
use pregao.Prelude.{
  ◌≡◌, refl, sym, subst, ◌∙◌, ap, String, Bool, true, false, Option, none, some, List, [], ◌∷◌, map,
  if◌then◌else◌, ◌==◌,
}
use pregao.Prelude.Text.{◌=ₛ◌, to_upper}
use pregao.Prelude.Maps.{get_entry, set_entry, get_entry-set_entry}
use pregao.Prelude.Int.{pos}
use pregao.Errors.{Result, ok, ok_inj}
use pregao.Broker.{binance, provider_name}
use pregao.Cache.{
  CachedQuote, QuoteJson, SetCommand, Value, set_quotes, get_quotes, get_stale_quotes, set_commands,
  fresh_key, stale_key,
}
use pregao.Cache.Written.{after, DoesCommands, Decodes, quote_at}
use pregao.Cache.RoundTrip.{get_quotes-set_quotes}
use pregao.Tests.Quotes.{memory, cache, run, value_of}

abbrev encode : Bool → String → String
encode true s = String.◌∷◌ (char_at "1" 0) s
encode false s = String.◌∷◌ (char_at "0" 0) s

abbrev decode : String → Result (CachedQuote Bool)
decode String.[] = ok (quote_at (pos 1) "" false)
decode (String.◌∷◌ c s) = ok (quote_at (pos 1) s (code c == b'1'))

instance abbrev bits : QuoteJson Bool
bits = record { marshal = λ q. ok (encode q.price q.symbol); unmarshal = decode }

bits-Decodes : Decodes bits (pos 1)
bits-Decodes s bytes true h = ap decode (ok_inj bytes (encode true s) (sym h))
bits-Decodes s bytes false h = ap decode (ok_inj bytes (encode false s) (sym h))

set_value :
    (b : Bool) (s : String) (o : Option String) (x : Value)
    → value_of o ≡ x
    → value_of (if b then some s else o) ≡ (if b then Value.text s else x)
set_value true s o x h = refl
set_value false s o x h = h

run-after :
    (cs : List SetCommand) (st : List (String × String)) (v : String → Value) (k : String)
    → ((l : String) → value_of (get_entry l st) ≡ v l)
    → value_of (get_entry k (run st cs)) ≡ after cs v k
unfolding after
run-after [] st v k h = h k
run-after (c ∷ cs) st v k h =
    run-after cs (set_entry c.key c.value st) (λ l. if c.key =ₛ l then Value.text c.value else v l)
      k
      λ l.
        ap value_of (get_entry-set_entry c.key l c.value st)
        ∙ set_value (c.key =ₛ l) c.value (get_entry l st) (v l) (h l)

map-same :
    (f g : String → Value) (keys : List String)
    → ((k : String) → f k ≡ g k)
    → map f keys ≡ map g keys
map-same f g [] h = refl
map-same f g (k ∷ keys) h =
    ap (λ x. x ∷ map f keys) (h k) ∙ ap (λ xs. g k ∷ xs) (map-same f g keys h)

abbrev only : Result (List Value) → Value
only (ok (x ∷ xs)) = x
only _ = Value.nil

memory-DoesCommands : DoesCommands memory
memory-DoesCommands st q v cs holds ran keys =
    subst (λ o. ok (map (λ k. value_of (get_entry k o)) keys) ≡ ok (map (after cs v) keys))
      (ap (λ x. x.1) ran)
      (ap ok (map-same _ _ keys λ k. run-after cs st v k λ l. ap only (holds (l ∷ []))))

abbrev rises : List (String × Bool)
rises = ("BTCUSDT", true) ∷ ("ETHUSDT", false) ∷ []

abbrev written : List (String × String)
written =
    ("pregao:quotes:BINANCE:BTCUSDT", "1BTCUSDT")
    ∷ ("pregao:quotes:stale:BINANCE:BTCUSDT", "1BTCUSDT")
    ∷ ("pregao:quotes:BINANCE:ETHUSDT", "0ETHUSDT")
    ∷ ("pregao:quotes:stale:BINANCE:ETHUSDT", "0ETHUSDT")
    ∷ []

rises-written : set_quotes cache (provider_name binance) rises (pos 1) [] ≡ (none, written)
unfolding set_quotes set_commands fresh_key stale_key to_upper provider_name
rises-written = refl

get_quotes-set_quotes_example :
    (get_quotes (provider_name binance) ("ETHUSDT" ∷ []) written
      ≡ ((("ETHUSDT", quote_at (pos 1) "ETHUSDT" false) ∷ [], []), none))
    × (get_stale_quotes (provider_name binance) ("ETHUSDT" ∷ []) written
        ≡ ok
            (("ETHUSDT", record (quote_at (pos 1) "ETHUSDT" false) { is_stale_cache = true }) ∷ []))
unfolding to_upper
get_quotes-set_quotes_example =
    get_quotes-set_quotes cache binance (pos 1) rises [] written (λ k. Value.nil) "ETHUSDT" false
      memory-DoesCommands bits-Decodes (refl, refl, (refl, refl, tt)) (λ keys. refl) refl
      rises-written
