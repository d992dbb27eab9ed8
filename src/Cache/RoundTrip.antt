-- ===== src/Cache/RoundTrip.antt =====
-- What SetQuotes wrote is what GetQuotes and GetStaleQuotes read.
use pregao.Prelude.{true, false, ◌≡◌, refl, ◌∙◌, ap, String, Option, none, some, List, [], ◌∷◌}
use pregao.Prelude.Maps.{get_entry}
use pregao.Prelude.Int.{ℤ}
use pregao.Errors.{Error, Result, ok, err, and_then, relabel}
use pregao.Broker.{BrokerName, provider_name}
use pregao.Cache.Quotes.{
  SetCommand, Value, text, Redis, QuoteJson, QuotesCache, fresh_key, stale_key, answer_of, executed,
  marked, read_value, sort_values, set_stale, set_commands, sorted, get_quotes, set_quotes,
  get_stale_quotes,
}
use pregao.Cache.Lookup.{sort_values-hit}
use pregao.Cache.Pointwise.{Holds, set_stale-hit}
use pregao.Cache.Written.{DoesCommands, Decodes, IsTidy, quote_at, written}

answered :
    ⦃r : Redis⦄ (x : Option Error × r.Store) (q : r.Store) → answer_of x ≡ (none, q) → x ≡ (none, q)
answered (none, o) q h = h
answered (some e, o) q h = absurd (let f = ap (λ y. y.0) h in cc)

module _ {D : Type 0} ⦃j : QuoteJson D⦄ (c : QuotesCache) (b : BrokerName) (timestamp : ℤ) where
  module _ ⦃r : Redis⦄ where
    commands-of :
        (quotes : List (String × D)) (st q : r.Store) (s : String) (p : D)
        → get_entry s quotes ≡ some p
        → set_quotes c (provider_name b) quotes timestamp st ≡ (none, q)
        → (cs : List SetCommand) × (set_commands c (provider_name b) timestamp quotes ≡ ok cs)
          × (r.exec st cs ≡ (none, q))
    unfolding set_quotes
    commands-of [] st q s p found h = cc
    commands-of (e ∷ es) st q s p found h =
        go (set_commands c (provider_name b) timestamp (e ∷ es)) refl h
      where
        go :
            (x : Result (List SetCommand))
            → set_commands c (provider_name b) timestamp (e ∷ es) ≡ x
            → executed st x ≡ (none, q)
            → (cs : List SetCommand) × (set_commands c (provider_name b) timestamp (e ∷ es) ≡ ok cs)
              × (r.exec st cs ≡ (none, q))
        go (err m) k g = absurd (let f = ap (λ y. y.0) g in cc)
        go (ok cs) k g = (cs, k, answered (r.exec st cs) q g)

    -- With a Redis that does the commands that it says it did, whose keys do not expire meanwhile,
    -- and an encoding of quotes that decodes: after a SetQuotes that succeeded, of symbols in upper
    -- case and each once, GetQuotes of one of them gives the quote with the price and the time that
    -- were set, as fresh, and GetStaleQuotes gives the same quote, marked as stale.
    pub get_quotes-set_quotes :
        (quotes : List (String × D)) (st q : r.Store) (v : String → Value) (s : String) (p : D)
        → DoesCommands r
        → Decodes j timestamp
        → IsTidy quotes
        → Holds st v
        → get_entry s quotes ≡ some p
        → set_quotes c (provider_name b) quotes timestamp st ≡ (none, q)
        → (get_quotes (provider_name b) (s ∷ []) q ≡ (((s, quote_at timestamp s p) ∷ [], []), none))
          × (get_stale_quotes (provider_name b) (s ∷ []) q
              ≡ ok ((s, record (quote_at timestamp s p) { is_stale_cache = true }) ∷ []))
    unfolding get_quotes get_stale_quotes sort_values set_stale read_value
    get_quotes-set_quotes quotes st q v s p does decodes tidy holds found h =
        let (cs, made, ran) = commands-of quotes st q s p found h in
        let (bytes, marshalled, held) = written c b timestamp s p quotes cs v made tidy found in
        let now = does st q v cs holds ran in
        let read = decodes s bytes p marshalled in
        let fresh = fresh_key (provider_name b) s in
        let stale = stale_key (provider_name b) s in
        (
          ap (sorted {D = D} (s ∷ [])) (now (fresh ∷ []) ∙ ap (λ x. ok (x ∷ [])) held.0)
              ∙ ap (λ y. (y, none))
                  (sort_values-hit s [] (text bytes) [] [] [] (quote_at timestamp s p)
                    (ap (marked false) read)),
          ap
                (λ y.
                  and_then (relabel "failed to mget stale quotes" y)
                    (λ values. ok (set_stale (s ∷ []) values [])))
                (now (stale ∷ []) ∙ ap (λ x. ok (x ∷ [])) held.1)
              ∙ ap ok (
                  set_stale-hit s [] (text bytes) [] []
                    (record (quote_at timestamp s p) { is_stale_cache = true })
                    (ap (marked true) read)),
        )
