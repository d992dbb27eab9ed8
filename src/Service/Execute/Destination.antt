-- ===== src/Service/Execute/Destination.antt =====
-- What ExecuteTrade asks of the ledger: its captures name the account that the money goes to.
use pregao.Prelude.{ℕ, ◌≡◌, refl, Option, none, some, All, arith, sym, subst, Bool-cases, inl, inr}
use pregao.Errors.{Result, ok, err, Result-cases, Reply, reply, status}
use pregao.Decimal.{Decimals, above}
use pregao.Uuid.{Uuids}
use pregao.Broker.{OrderResult}
use pregao.Vault.{PlaintextCredentials}
use pregao.Db.Models.{BrokerOrder, BrokerCredential}
use pregao.Db.Orders.{confirm_order}
use pregao.Db.Credentials.{get_credentials}
use pregao.World.{World, turn}
use pregao.Worker.{FillProcessor, process_fill}
use pregao.Worker.Clearing.{HasDestination, OnGrpc, process_fill-HasDestination}
use pregao.Service.Server.{PregaoServer, ExecuteTradeRequest, resolve_provider}
use pregao.Service.Reserve.{Outcome, release_reservation}
use pregao.Service.Reserve.Outcomes.{Holds}
use pregao.Service.Execute.{
  validate, build_order, place, market_order, decrypt_and_place, dispatch, confirm, sync_fill,
  fill_event, finish, proceed, proceed_if, execute_trade,
}
use pregao.Service.Execute.Quiet.{KeepsQuiet, reserve-Quiet, release_order-Quiet}

module _ {D : Type 0} ⦃d : Decimals D⦄ ⦃u : Uuids⦄ where
  abbrev Destined : World D → Type 0
  Destined w = All HasDestination w.calls

  place-Destined :
      (s : PregaoServer D) (req : ExecuteTradeRequest) (qty : D) (r : Result BrokerCredential)
      (w : World D)
      → Destined w
      → Destined (decrypt_and_place s req qty (r, w)).1
  unfolding decrypt_and_place place
  place-Destined s req qty (err e) w h = h
  place-Destined s req qty (ok cred) w h =
      elim (Result-cases
        (s.vault_client.decrypt_credentials cred.api_key_ciphertext cred.api_secret_ciphertext)) [
          | inr (m, sealed) ↦ rw (sealed, decrypt_and_place) h
          | inl (creds, opened) ↦
              elim (Result-cases
                (s.broker_client.place_market_order creds (market_order req qty))) [
                  | inl (x, taken) ↦ rw (opened, decrypt_and_place) (rw (taken, place) (tt, h))
                  | inr (m, refused) ↦ rw (opened, decrypt_and_place) (rw (refused, place) (tt, h))
                ]
        ]

  confirm-Destined :
      (s : PregaoServer D) (o : BrokerOrder D) (result : OrderResult D) (w : World D)
      → Destined w
      → Destined (confirm s o result w).1
  unfolding confirm confirm_order
  confirm-Destined s o result w h = ground (arith, h)

  -- The server hands fills to the worker's processor, with the ledger client over gRPC or none.
  abbrev pub SettlesOnGrpc : PregaoServer D → Type 0
  SettlesOnGrpc s = (p : FillProcessor D) × (s.fill_processor ≡ some (process_fill p)) × OnGrpc p

  sync_fill-Destined :
      (s : PregaoServer D) (req : ExecuteTradeRequest) (result : OrderResult D) (w : World D)
      → SettlesOnGrpc s
      → Destined w
      → Destined (sync_fill s req result w)
  unfolding sync_fill
  sync_fill-Destined s req result w (p, is, on) h =
      elim (Bool-cases (above result.executed_quantity d.zero)) [
        | inl filled ↦
            rw (is, sync_fill)
              (rw filled (process_fill-HasDestination p (fill_event s req result) w on h))
        | inr nothing ↦ rw (is, sync_fill) (rw nothing h)
      ]

  finish-Destined :
      (s : PregaoServer D) (req : ExecuteTradeRequest) (o : BrokerOrder D)
      (x : Reply (OrderResult D × PlaintextCredentials) × World D)
      → SettlesOnGrpc s
      → Destined x.1
      → Destined (finish s req o x).1
  unfolding finish release_reservation
  finish-Destined s req o (status c m, w) on h =
      subst (All HasDestination) (sym (release_order-Quiet o.id w).1) h
  finish-Destined s req o (reply (r, c), w) on h =
      sync_fill-Destined s req r (confirm s o r w).1 on (confirm-Destined s o r w h)

  proceed_if-Destined :
      (s : PregaoServer D) (req : ExecuteTradeRequest) (qty : D) (w : World D)
      (x : Option (Outcome D))
      → SettlesOnGrpc s
      → Destined w
      → Holds (KeepsQuiet w) x
      → Holds (λ y. Destined y.1) (proceed_if s req qty x)
  unfolding proceed dispatch get_credentials
  proceed_if-Destined s req qty w none on h same = tt
  proceed_if-Destined s req qty w (some (status c m, o, q)) on h same =
      subst (All HasDestination) (sym same.1) h
  proceed_if-Destined s req qty w (some (reply (some e), o, q)) on h same =
      subst (All HasDestination) (sym same.1) h
  proceed_if-Destined s req qty w (some (reply none, o, q)) on h same =
      finish-Destined s req o (dispatch s req qty q) on (
        place-Destined s req qty
          (get_credentials req.tenant_id (resolve_provider s req.provider) q).0 (turn q)
          (subst (All HasDestination) (sym same.1) h))

  validated-Destined :
      (fuel : ℕ) (s : PregaoServer D) (req : ExecuteTradeRequest) (w : World D) (v : Reply (ℕ × D))
      → validate req ≡ v
      → SettlesOnGrpc s
      → Destined w
      → Holds (λ y. Destined y.1) (execute_trade fuel s req w)
  unfolding execute_trade
  validated-Destined fuel s req w (status c m) e on h = rw (e, execute_trade) h
  validated-Destined fuel s req w (reply (intent, qty)) e on h =
      rw (e, execute_trade)
        (proceed_if-Destined s req qty (turn w) _ on h (
          reserve-Quiet fuel s (build_order s req (w.outside.new_uuid w.step) intent qty) (turn w)))

  -- If every capture of a hold asked for so far names a destination account, so does every one
  -- asked for when ExecuteTrade returns.
  pub execute_trade-HasDestination :
      (fuel : ℕ) (s : PregaoServer D) (req : ExecuteTradeRequest) (w : World D)
      → SettlesOnGrpc s
      → All HasDestination w.calls
      → Holds (λ y. All HasDestination y.1.calls) (execute_trade fuel s req w)
  execute_trade-HasDestination fuel s req w on h =
      validated-Destined fuel s req w (validate req) refl on h
