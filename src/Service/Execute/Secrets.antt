-- ===== src/Service/Execute/Secrets.antt =====
-- The plaintext credentials do not outlive ExecuteTrade.
use pregao.Prelude.{
  ◌∙◌, List, ◌∷◌, ℕ, ◌≡◌, refl, Option, none, some, sym, subst, Bool-cases, inl, inr,
}
use pregao.Errors.{Result, ok, err, errors_is, Sentinel, Result-cases, Reply, reply, status}
use pregao.Decimal.{Decimals}
use pregao.Uuid.{Uuids}
use pregao.Broker.{OrderResult}
use pregao.Vault.{Bytes, PlaintextCredentials, arrays_of, zero_credentials}
use pregao.Vault.Wiped.{AllWiped, map-wipe-IsWiped}
use pregao.Db.Models.{BrokerOrder, BrokerCredential}
use pregao.Db.Credentials.{get_credentials}
use pregao.World.{World, turn}
use pregao.Service.Server.{PregaoServer, ExecuteTradeRequest, resolve_provider}
use pregao.Service.Reserve.{Outcome, release_reservation}
use pregao.Service.Reserve.Outcomes.{Holds}
use pregao.Service.Execute.{
  zero_newest, validate, build_order, place, market_order, decrypt_and_place, dispatch, finish,
  proceed, proceed_if, execute_trade,
}
use pregao.Service.Execute.Quiet.{
  FillsByWorker, after_place-secrets, KeepsQuiet, reserve-Quiet, release_order-Quiet,
}

module _ {D : Type 0} ⦃d : Decimals D⦄ ⦃u : Uuids⦄ where
  -- The secrets beside an error are wiped; beside a result all but those in use.
  abbrev ErrsWiped : Reply (OrderResult D × PlaintextCredentials) × World D → Type 0
  ErrsWiped (status c m, q) = AllWiped q.secrets
  ErrsWiped (reply (x, c), q) =
      (rest : List (List Bytes)) × (q.secrets ≡ arrays_of c ∷ rest) × AllWiped rest

  place-ErrsWiped :
      (s : PregaoServer D) (req : ExecuteTradeRequest) (qty : D) (creds : PlaintextCredentials)
      (w : World D)
      → AllWiped w.secrets
      → ErrsWiped (place s req qty creds w)
  unfolding place zero_credentials
  place-ErrsWiped s req qty creds w h =
      elim (Result-cases (s.broker_client.place_market_order creds (market_order req qty))) [
        | inl (result, e) ↦ rw (e, place) (w.secrets, refl, h)
        | inr (m, e) ↦ rw (e, place) (map-wipe-IsWiped (arrays_of creds), h)
      ]

  decrypt_and_place-ErrsWiped :
      (s : PregaoServer D) (req : ExecuteTradeRequest) (qty : D)
      (x : Result BrokerCredential × World D)
      → AllWiped x.1.secrets
      → ErrsWiped (decrypt_and_place s req qty x)
  unfolding decrypt_and_place
  decrypt_and_place-ErrsWiped s req qty (err e, w) h =
      elim (Bool-cases (errors_is e Sentinel.credentials_not_found)) [
        | inl missing ↦ rw missing h
        | inr other ↦ rw other h
      ]
  decrypt_and_place-ErrsWiped s req qty (ok cred, w) h =
      elim (Result-cases
        (s.vault_client.decrypt_credentials cred.api_key_ciphertext cred.api_secret_ciphertext)) [
          | inl (creds, e) ↦ rw (e, decrypt_and_place) (place-ErrsWiped s req qty creds w h)
          | inr (m, e) ↦ rw (e, decrypt_and_place) h
        ]

  finish-IsWiped :
      (s : PregaoServer D) (req : ExecuteTradeRequest) (o : BrokerOrder D)
      (x : Reply (OrderResult D × PlaintextCredentials) × World D)
      → FillsByWorker s
      → ErrsWiped x
      → AllWiped (finish s req o x).1.secrets
  unfolding finish release_reservation zero_credentials
  finish-IsWiped s req o (status c m, w) worker h =
      subst AllWiped (sym (release_order-Quiet o.id w).0) h
  finish-IsWiped s req o (reply (r, c), w) worker (rest, held, h) =
      subst (λ x. AllWiped (zero_newest c x)) (sym (after_place-secrets s req o r w worker ∙ held))
        (map-wipe-IsWiped (arrays_of c), h)

  proceed_if-IsWiped :
      (s : PregaoServer D) (req : ExecuteTradeRequest) (qty : D) (w : World D)
      (x : Option (Outcome D))
      → FillsByWorker s
      → AllWiped w.secrets
      → Holds (KeepsQuiet w) x
      → Holds (λ y. AllWiped y.1.secrets) (proceed_if s req qty x)
  unfolding proceed dispatch get_credentials
  proceed_if-IsWiped s req qty w none worker h same = tt
  proceed_if-IsWiped s req qty w (some (status c m, o, q)) worker h same =
      subst AllWiped (sym same.0) h
  proceed_if-IsWiped s req qty w (some (reply (some e), o, q)) worker h same =
      subst AllWiped (sym same.0) h
  proceed_if-IsWiped s req qty w (some (reply none, o, q)) worker h same =
      finish-IsWiped s req o (dispatch s req qty q) worker (
        decrypt_and_place-ErrsWiped s req qty
          (get_credentials req.tenant_id (resolve_provider s req.provider) q)
          (subst AllWiped (sym same.0) h))

  validated-IsWiped :
      (fuel : ℕ) (s : PregaoServer D) (req : ExecuteTradeRequest) (w : World D) (v : Reply (ℕ × D))
      → validate req ≡ v
      → FillsByWorker s
      → AllWiped w.secrets
      → Holds (λ y. AllWiped y.1.secrets) (execute_trade fuel s req w)
  unfolding execute_trade
  validated-IsWiped fuel s req w (status c m) e worker h = rw (e, execute_trade) h
  validated-IsWiped fuel s req w (reply (intent, qty)) e worker h =
      rw (e, execute_trade)
        (proceed_if-IsWiped s req qty (turn w) _ worker h (
          reserve-Quiet fuel s (build_order s req (w.outside.new_uuid w.step) intent qty) (turn w)))

  -- With the worker's fill processor or none: if the plaintext credentials that the vault client
  -- returned to the request before are wiped, or there are none, then, when ExecuteTrade returns,
  -- every byte of all those that it has returned is zero, on every path, whatever fails and
  -- whatever other requests do.
  pub execute_trade-IsWiped :
      (fuel : ℕ) (s : PregaoServer D) (req : ExecuteTradeRequest) (w : World D)
      → FillsByWorker s
      → AllWiped w.secrets
      → Holds (λ y. AllWiped y.1.secrets) (execute_trade fuel s req w)
  execute_trade-IsWiped fuel s req w worker h =
      validated-IsWiped fuel s req w (validate req) refl worker h
