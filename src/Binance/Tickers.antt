-- ===== src/Binance/Tickers.antt =====
-- What `GetBookTickers` of internal/broker/binance/client.go answers.
use pregao.Prelude.{◌≡◌, refl, subst, String, List, [], ◌∷◌, All, Bool-cases, inl, inr}
use pregao.Prelude.Text.{◌=ₛ◌}
use pregao.Prelude.Maps.{set_entry}
use pregao.Errors.{Result, ok, err, and_then, relabel, and_then-ok, guard-ok, ok_inj}
use pregao.Decimal.{Decimals}
use pregao.Broker.{BookTicker}
use pregao.Binance.Models.{RawBookTicker}
use pregao.Http.{Response}
use pregao.Binance.Wire.{Wire}
use pregao.Binance.Client.{Client}
use pregao.Binance.Market.{
  get, price_field, parse_book_ticker, parsed, set_tickers, read_tickers, read_ticker_response,
  ticker_url, get_book_tickers,
}
use text.Mathlib.TextEquality.{eq_iff}

module _ {D : Type 0} ⦃d : Decimals D⦄ where
  -- A ticker whose middle price is that of its bid and its ask.
  abbrev pub IsTicker : BookTicker D → Type 0
  IsTicker t = t.mid_price ≡ d.div (d.add t.bid_price t.ask_price) (d.of_int 2)

  -- An entry that holds a ticker under its own symbol.
  abbrev pub IsEntry : String × BookTicker D → Type 0
  IsEntry (k, t) = (k ≡ t.symbol) × IsTicker t

  set_entry-IsEntry :
      (t : BookTicker D) (m : List (String × BookTicker D))
      → IsTicker t
      → All IsEntry m
      → All IsEntry (set_entry t.symbol t m)
  set_entry-IsEntry t [] h hs = ((refl, h), tt)
  set_entry-IsEntry t ((k, u) ∷ m) h (g, hs) = elim (Bool-cases (k =ₛ t.symbol)) [
    | inl same ↦ rw same (((eq_iff k t.symbol).0 same, h), hs)
    | inr differs ↦ rw differs (g, set_entry-IsEntry t m h hs)
  ]

  set_tickers-IsEntry :
      (ts : List (BookTicker D)) (m : List (String × BookTicker D))
      → All IsTicker ts
      → All IsEntry m
      → All IsEntry (set_tickers ts m)
  set_tickers-IsEntry [] m hs gs = gs
  set_tickers-IsEntry (t ∷ ts) m (h, hs) gs =
      set_tickers-IsEntry ts (set_entry t.symbol t m) hs (set_entry-IsEntry t m h gs)

  module _ ⦃x : Wire⦄ where
    parse_book_ticker-IsTicker :
        (raw : RawBookTicker) (t : BookTicker D) → parse_book_ticker raw ≡ ok t → IsTicker t
    unfolding parse_book_ticker
    parse_book_ticker-IsTicker raw t h =
        let (bid, _, h1) = and_then-ok {A = D} (price_field "bid price" raw raw.bid_price) _ t h in
        let (bid_qty, _, h2) = and_then-ok {A = D} (price_field "bid qty" raw raw.bid_qty) _ t h1 in
        let (ask, _, h3) = and_then-ok {A = D} (price_field "ask price" raw raw.ask_price) _ t h2 in
        let (ask_qty, _, h4) = and_then-ok {A = D} (price_field "ask qty" raw raw.ask_qty) _ t h3 in
        subst IsTicker (ok_inj _ t h4) refl

    cons_parsed-IsTicker :
        (raw : RawBookTicker) (rest : List (BookTicker D)) (r : Result (BookTicker D))
        → parse_book_ticker raw ≡ r
        → All IsTicker rest
        → All IsTicker (elim r [ err e ↦ rest | ok t ↦ t ∷ rest ])
    cons_parsed-IsTicker raw rest (err e) h hs = hs
    cons_parsed-IsTicker raw rest (ok t) h hs = (parse_book_ticker-IsTicker raw t h, hs)

    parsed-IsTicker :
        (raws : List RawBookTicker) (ts : List (BookTicker D)) → parsed raws ≡ ts → All IsTicker ts
    parsed-IsTicker [] ts h = subst (All IsTicker) h tt
    parsed-IsTicker (raw ∷ raws) ts h = subst (All IsTicker) h (
        cons_parsed-IsTicker raw (parsed raws) (parse_book_ticker raw) refl
          (parsed-IsTicker raws (parsed raws) refl))

    read_several :
        (r : Result (List RawBookTicker)) (m : List (String × BookTicker D))
        → and_then r (λ raws. ok (set_tickers (parsed raws) [])) ≡ ok m
        → All IsEntry m
    read_several r m h =
        let (raws, _, g) = and_then-ok r (λ raws. ok (set_tickers (parsed raws) [])) m h in
        subst (All IsEntry) (ok_inj _ m g)
          (set_tickers-IsEntry (parsed raws) [] (parsed-IsTicker raws (parsed raws) refl) tt)

    read_tickers-IsEntry :
        (symbols : List String) (body : String) (m : List (String × BookTicker D))
        → read_tickers symbols body ≡ ok m
        → All IsEntry m
    unfolding read_tickers
    read_tickers-IsEntry [] body m h = read_several _ m h
    read_tickers-IsEntry (s ∷ t ∷ ss) body m h = read_several _ m h
    read_tickers-IsEntry (s ∷ []) body m h =
        let (raw, _, g) =
          and_then-ok (relabel "failed to unmarshal single bookTicker" (x.read_book_ticker body)) _
            m h in
        let (t, made, k) = and_then-ok (parse_book_ticker {D = D} raw) _ m g in
        subst (All IsEntry) (ok_inj _ m k) ((refl, parse_book_ticker-IsTicker raw t made), tt)

    read_ticker_response-IsEntry :
        (symbols : List String) (resp : Response) (m : List (String × BookTicker D))
        → read_ticker_response symbols resp ≡ ok m
        → All IsEntry m
    read_ticker_response-IsEntry symbols resp m h =
        let (body, _, g) =
          and_then-ok (relabel "failed to read response body" resp.body) _ m
            (guard-ok _ _ _ m h).1 in
        read_tickers-IsEntry symbols body m (guard-ok _ _ _ m g).1

    -- Every entry of the map with which GetBookTickers answers is a ticker under its own symbol,
    -- whose middle price is half the sum of its bid and its ask.
    pub get_book_tickers-IsEntry :
        (c : Client) (symbols : List String) (m : List (String × BookTicker D))
        → get_book_tickers c symbols ≡ ok m
        → All IsEntry m
    unfolding get_book_tickers
    get_book_tickers-IsEntry c [] m h = subst (All IsEntry) (ok_inj _ m h) tt
    get_book_tickers-IsEntry c (s ∷ ss) m h =
        let (url, _, g) = and_then-ok (ticker_url c (s ∷ ss)) _ m h in
        let (resp, _, k) =
          and_then-ok
            (get c url "failed to create http request" "binance bookTicker request failed")
            (read_ticker_response (s ∷ ss)) m g in
        read_ticker_response-IsEntry (s ∷ ss) resp m k
