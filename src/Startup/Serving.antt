-- ===== src/Startup/Serving.antt =====
-- The service that the start leaves running, at work: its trades return, and what they ask of the
-- ledger.
use Prim.Native.String.{◌++◌}
use pregao.Prelude.{
  ◌≡◌, ◌≤◌, ◌*◌, refl, ap, subst, sym, inl, inr, String, Option, none, some, All, arith, Bool-cases,
}
use pregao.Prelude.Text.{◌=ₛ◌}
use pregao.Errors.{Error, Result, ok, err, Reply, Result-cases}
use pregao.Decimal.{Decimals}
use pregao.Uuid.{Uuids}
use pregao.Binance.Wire.{Wire}
use pregao.Client.Livro.Grpc.{dial_livro}
use pregao.Config.{Config, Outcome, returned, panicked, load}
use pregao.Db.Pool.{Pgx}
use pregao.Service.Execute.{execute_trade}
use pregao.Service.Execute.Destination.{SettlesOnGrpc, execute_trade-HasDestination}
use pregao.Service.Execute.Failure.{execute_trade_total}
use pregao.Service.Execute.Secrets.{execute_trade-IsWiped}
use pregao.Service.Reserve.Outcomes.{Holds}
use pregao.Service.Server.{ExecuteTradeRequest, ExecuteTradeResponse, new_pregao_server}
use pregao.Startup.{
  Platform, Service, Started, running, open_database, wire_processor, wire_server, wire, on_listen,
  on_database, on_config, start,
}
use pregao.Vault.Transit.{TransitWire}
use pregao.Vault.Wiped.{AllWiped}
use pregao.Webhook.{
  Json, Reading, fill, ignored, bad_request, read_payload, answer_reading, processed,
  handle_order_webhook,
}
use pregao.Worker.{FillProcessor, process_fill}
use pregao.Worker.Clearing.{HasDestination, OnGrpc, process_fill-HasDestination}
use pregao.World.{World, IsMonotone}

module _ {D : Type 0} ⦃d : Decimals D⦄ ⦃u : Uuids⦄ ⦃b : Wire⦄ ⦃t : TransitWire⦄ ⦃x : Pgx⦄ where
  abbrev service_or : Service x.Pool D → Started x.Pool D → Service x.Pool D
  service_or other (running s) = s
  service_or other _ = other

  -- The service is the one that some configuration describes.
  abbrev Wired : Platform → Service x.Pool D → Type 0
  Wired p s = (cfg : Config) × (pool : Option x.Pool) × (wire p cfg pool ≡ s)

  on_listen-Wired :
      (p : Platform) (cfg : Config) (pool : Option x.Pool) (o : Option Error) (s : Service x.Pool D)
      → on_listen cfg (wire p cfg pool) o ≡ running s
      → Wired p s
  on_listen-Wired p cfg pool none s e = (cfg, pool, ap (service_or s) e)
  on_listen-Wired p cfg pool (some m) s e = absurd (ground arith)

  on_config-Wired :
      (p : Platform) (o : Outcome Config) (s : Service x.Pool D)
      → on_config p o ≡ running s
      → Wired p s
  on_config-Wired p (panicked m) s e = absurd (ground arith)
  on_config-Wired p (returned cfg) s e = go (open_database p cfg) e
    where
      go : (r : Result (Option x.Pool)) → on_database p cfg r ≡ running s → Wired p s
      go (err m) e = absurd (ground arith)
      go (ok pool) e = on_listen-Wired p cfg pool (p.listen (":" ++ cfg.grpc_port)) s e

  wire_processor-OnGrpc : (p : Platform) (cfg : Config) → OnGrpc (wire_processor {D = D} p cfg)
  unfolding wire_processor dial_livro
  wire_processor-OnGrpc p cfg = elim (Result-cases (p.dial cfg.livro_grpc_addr)) [
    | inl (conn, reached) ↦ rw reached (inr (p.livro_stub conn, refl))
    | inr (m, failed) ↦ rw failed (inl refl)
  ]

  -- The service waits no longer for a reservation than 300 polls take.
  abbrev WaitsFor300 : Service x.Pool D → Type 0
  WaitsFor300 s = s.server.reservation_wait ≤ 300 * s.server.reservation_poll

  Wired-WaitsFor300 : (p : Platform) (s : Service x.Pool D) → Wired p s → WaitsFor300 s
  unfolding wire wire_server new_pregao_server
  Wired-WaitsFor300 p s (cfg, pool, is) = subst WaitsFor300 is (omega arith)

  Wired-OnGrpc : (p : Platform) (s : Service x.Pool D) → Wired p s → OnGrpc s.fill_processor
  unfolding wire
  Wired-OnGrpc p s (cfg, pool, is) =
      subst (λ v. OnGrpc v.fill_processor) is (wire_processor-OnGrpc p cfg)

  Wired-SettlesOnGrpc : (p : Platform) (s : Service x.Pool D) → Wired p s → SettlesOnGrpc s.server
  unfolding wire wire_server new_pregao_server
  Wired-SettlesOnGrpc p s (cfg, pool, is) =
      subst (λ v. SettlesOnGrpc v.server) is
        (wire_processor p cfg, refl, wire_processor-OnGrpc p cfg)

  held :
      (P : Reply ExecuteTradeResponse × World D → Type 0)
      (o : Option (Reply ExecuteTradeResponse × World D)) (y : Reply ExecuteTradeResponse × World D)
      → o ≡ some y
      → Holds P o
      → P y
  held P o y e h = subst (Holds P) e h

  module _ ⦃j : Json D⦄ where
    processed-world : (r : Result (Unit {0}) × World D) → (processed r).1 ≡ r.1
    processed-world (ok done, w) = refl
    processed-world (err e, w) = refl

    answer_reading-HasDestination :
        (p : FillProcessor D) (r : Reading D) (w : World D)
        → OnGrpc p
        → All HasDestination w.calls
        → All HasDestination (answer_reading (process_fill p) w r).1.calls
    answer_reading-HasDestination p (bad_request m) w on h = h
    answer_reading-HasDestination p ignored w on h = h
    answer_reading-HasDestination p (fill e) w on h =
        subst (λ v. All HasDestination v.calls) (sym (processed-world (process_fill p e w)))
          (process_fill-HasDestination p e w on h)

    webhook-HasDestination :
        (p : FillProcessor D) (method body : String) (w : World D)
        → OnGrpc p
        → All HasDestination w.calls
        → All HasDestination (handle_order_webhook (process_fill p) method body w).1.calls
    unfolding handle_order_webhook
    webhook-HasDestination p method body w on h = elim (Bool-cases (method =ₛ "POST")) [
      | inr other ↦ rw other h
      | inl post ↦ rw post (answer_reading-HasDestination p (read_payload body) w on h)
    ]

    -- Take a service that the start leaves running with a database, a trade whose world's clock
    -- does not run backwards, and a delivery at the webhook. If every capture of a hold asked for
    -- so far names a destination account, and the plaintext credentials that the vault client
    -- returned to the request before are wiped, then ExecuteTrade of the server returns within 301
    -- rounds of the reservation's loop, every capture asked for by then, and every one asked for
    -- when the webhook has answered, names a destination account, and all the plaintext credentials
    -- that the vault client returned to ExecuteTrade are wiped.
    pub start-serves :
        (p : Platform) (s : Service x.Pool D) (pool : x.Pool) (req : ExecuteTradeRequest)
        (method body : String) (w : World D)
        → start p ≡ running s
        → s.pool ≡ some pool
        → IsMonotone w.outside
        → All HasDestination w.calls
        → AllWiped w.secrets
        → (y : Reply ExecuteTradeResponse × World D) × (execute_trade 301 s.server req w ≡ some y)
          × All HasDestination y.1.calls
          × AllWiped y.1.secrets
          × All HasDestination
              (handle_order_webhook (process_fill s.fill_processor) method body w).1.calls
    unfolding start
    start-serves p s pool req method body w started pooled mono named wiped =
        let wired = on_config-Wired p (load p.getenv) s started in
        let (y, ran) = execute_trade_total 300 s.server req w mono (Wired-WaitsFor300 p s wired) in
        let on = Wired-SettlesOnGrpc p s wired in
        (
          y,
          ran,
          held (λ z. All HasDestination z.1.calls) (execute_trade 301 s.server req w) y ran
              (execute_trade-HasDestination 301 s.server req w on named),
          held (λ z. AllWiped z.1.secrets) (execute_trade 301 s.server req w) y ran
              (execute_trade-IsWiped 301 s.server req w (inr (on.0, on.1)) wiped),
          webhook-HasDestination s.fill_processor method body w (Wired-OnGrpc p s wired) named,
        )
