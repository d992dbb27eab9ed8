-- ===== src/Binance/Symbols.antt =====
-- What `ValidateSymbols` of internal/broker/binance/client.go answers.
use Prim.Native.String.{◌++◌}
use pregao.Prelude.{
  Bool, true, false, Bool-cases, ◌⊎◌, inl, inr, ◌↔◌, ◌≡◌, refl, ◌∙◌, ap, String, none, some, List,
  [], ◌∷◌, any, if◌then◌else◌, arith,
}
use pregao.Prelude.Text.{◌=ₛ◌, to_upper, equal_fold}
use pregao.Prelude.Maps.{get_entry, set_entry, get_entry-set_entry}
use pregao.Errors.{Result, ok, err, wrap, and_then, relabel}
use pregao.Binance.Models.{ExchangeInfoResponse, ExchangeInfoSymbol}
use pregao.Http.{Response}
use pregao.Binance.Wire.{Wire, Request}
use pregao.Binance.Client.{Client, is_limited}
use pregao.Binance.Market.{
  set_each, is_trading, trading_symbols, get, validate_symbols, read_exchange_info,
}
use text.Mathlib.TextEquality.{eq_iff}

-- The last writing of a key counts; a key that is not written keeps its value.
get_entry-set_each :
    (f : String → Bool) (k : String) (ss : List String) (m : List (String × Bool))
    → get_entry k (set_each f ss m) ≡ (if any (λ s. s =ₛ k) ss then some (f k) else get_entry k m)
get_entry-set_each f k [] m = refl
get_entry-set_each f k (s ∷ ss) m = ground (
  arith,
  get_entry-set_each f k ss (set_entry s (f s) m),
  get_entry-set_entry s k (f s) m,
  eq_iff s k,
)

-- Some entry has the symbol, in any case of letters, and the status TRADING.
abbrev pub IsListed : String → List ExchangeInfoSymbol → Type 0
IsListed k [] = ⊥
IsListed k (e ∷ es) =
    ((equal_fold e.status "TRADING" ≡ true) × (to_upper e.symbol ≡ to_upper k)) ⊎ IsListed k es

trading_symbols-IsListed :
    (k : String) (es : List ExchangeInfoSymbol)
    → (any (λ t. t =ₛ to_upper k) (trading_symbols es) ≡ true) ↔ IsListed k es
trading_symbols-IsListed k [] = (λ h. absurd (ground arith), λ h. absurd h)
trading_symbols-IsListed k (e ∷ es) =
    let rest = trading_symbols-IsListed k es in
    elim (Bool-cases (equal_fold e.status "TRADING")) [
      | inr closed ↦ rw closed (
        λ h. inr (rest.0 h),
        λ h. elim h [ inl here ↦ absurd (ground arith) | inr later ↦ rest.1 later ],
      )
      | inl trades ↦ elim (Bool-cases (to_upper e.symbol =ₛ to_upper k)) [
        | inl same ↦
            rw (trades, same)
              (
                λ h. inl (refl, ground (arith, same, eq_iff (to_upper e.symbol) (to_upper k))),
                λ h. refl,
              )
        | inr other ↦
            rw (trades, other)
              (
                λ h. inr (rest.0 h),
                λ h. elim h [
                  | inl here ↦
                      absurd
                        (ground (arith, other, here.1, eq_iff (to_upper e.symbol) (to_upper k)))
                  | inr later ↦ rest.1 later
                ],
              )
      ]
    ]

is_trading-IsListed :
    (info : ExchangeInfoResponse) (k : String)
    → (is_trading info k ≡ true) ↔ IsListed k info.symbols
unfolding is_trading
is_trading-IsListed info k = trading_symbols-IsListed k info.symbols

module _ ⦃x : Wire⦄ where
  -- For each text whether the exchange lists it as trading, where it was asked for, and nothing for
  -- any other text.
  abbrev pub Answers : ExchangeInfoResponse → List String → List (String × Bool) → Type 0
  Answers info symbols m =
      (k : String)
      → (b : Bool) × ((b ≡ true) ↔ IsListed k info.symbols)
        × (get_entry k m ≡ (if any (λ s. s =ₛ k) symbols then some b else none))

  set_each-Answers :
      (info : ExchangeInfoResponse) (symbols : List String)
      → Answers info symbols (set_each (is_trading info) symbols (set_each (λ s. false) symbols []))
  set_each-Answers info symbols k = (
    is_trading info k,
    is_trading-IsListed info k,
    ground (
      arith,
      get_entry-set_each (is_trading info) k symbols (set_each (λ s. false) symbols []),
      get_entry-set_each (λ s. false) k symbols [],
    ),
  )

  -- The request of `ValidateSymbols`.
  abbrev pub info_request : Client → Request
  info_request c = record {
    method = "GET";
    url = c.base_url ++ "/api/v3/exchangeInfo";
    api_key = none;
  }

  answered :
      (info : ExchangeInfoResponse) (symbols : List String) (resp : Response)
      → is_limited resp.status_code ≡ false
      → x.decode_exchange_info resp.body ≡ ok info
      → read_exchange_info symbols resp
        ≡ ok (set_each (is_trading info) symbols (set_each (λ s. false) symbols []))
  answered info symbols resp e f = rw (e, f) refl

  get-ok :
      (c : Client) (url making sending : String) (resp : Response)
      → x.refuses url ≡ none
      → x.send c.http_client (record { method = "GET"; url = url; api_key = none }) ≡ ok resp
      → get c url making sending ≡ ok resp
  get-ok c url making sending resp e f =
      ap
        (λ o.
          and_then
            (elim o as (λ z. Result Request) [
              | some m ↦ err (wrap making m)
              | none ↦ ok (record { method = "GET"; url = url; api_key = none })
            ])
            (λ r. relabel sending (x.send c.http_client r)))
        e
      ∙ ap (relabel sending) f

  -- When the request can be made and is answered, without the codes of a rate limit, by a payload
  -- that decodes: ValidateSymbols answers for each symbol that was asked for, and for no other, and
  -- it answers true exactly for a symbol that some entry of the payload has, in any case of
  -- letters, with the status TRADING, in any case of letters.
  pub validate_symbols-Answers :
      (c : Client) (symbols : List String) (resp : Response) (info : ExchangeInfoResponse)
      → x.refuses (info_request c).url ≡ none
      → x.send c.http_client (info_request c) ≡ ok resp
      → is_limited resp.status_code ≡ false
      → x.decode_exchange_info resp.body ≡ ok info
      → (m : List (String × Bool)) × (validate_symbols c symbols ≡ ok m) × Answers info symbols m
  unfolding validate_symbols
  validate_symbols-Answers c [] resp info h s l e =
      ([], refl, λ k. (is_trading info k, is_trading-IsListed info k, refl))
  validate_symbols-Answers c (t ∷ ts) resp info h s l e = (
    _,
    ap (λ r. and_then r (read_exchange_info (t ∷ ts)))
          (get-ok c (info_request c).url "failed to create exchangeInfo request"
            "binance exchangeInfo request failed" resp h s)
        ∙ answered info (t ∷ ts) resp l e,
    set_each-Answers info (t ∷ ts),
  )
