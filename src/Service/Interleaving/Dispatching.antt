-- ===== src/Service/Interleaving/Dispatching.antt =====
-- The dispatch to the broker as steps of one request among many.
use pregao.Prelude.{ℕ, ◌≡◌, ◌≢◌, refl, inl, inr, Bool-cases}
use pregao.Errors.{Result, ok, err, Result-cases, Reply, reply, status, errors_is, Sentinel}
use pregao.Decimal.{Decimals}
use pregao.Uuid.{Uuids}
use pregao.Vault.{PlaintextCredentials}
use pregao.Broker.{OrderResult}
use pregao.Db.Models.{BrokerOrder, BrokerCredential}
use pregao.World.{World, Outside}
use pregao.Service.Server.{PregaoServer, ExecuteTradeRequest}
use pregao.Service.Execute.{market_order, place, decrypt_and_place}
use pregao.Service.Interleaving.{holding, releasing, accepted, System, fails, Reach}
use pregao.Service.Interleaving.Environment.{IsIn, Plays, Shows, After, moves, accepting}

module _ {D : Type 0} ⦃d : Decimals D⦄ ⦃u : Uuids⦄ (order : ℕ → BrokerOrder D) (i : ℕ)
    (out : Outside D) (Possible : ℕ → System D → Type 0) (plays : Plays order i out Possible)
    (ne : (order i).id ≢ 0) (server : PregaoServer D) where
  -- Where the broker's answer puts the request.
  abbrev pub Dispatched : System D → Reply (OrderResult D × PlaintextCredentials) × World D → Type 0
  Dispatched s (status code message, q) = After order i out Possible s releasing q
  Dispatched s (reply result, q) =
      (t : System D) × Reach order s t
      × Shows order i out Possible q t
      × (t.stage i ≡ accepted)
      × IsIn i t.placed

  failing :
      (w : World D) (s : System D)
      → Shows order i out Possible w s
      → s.stage i ≡ holding
      → After order i out Possible s releasing w
  failing w s shown at =
      moves order i out Possible plays w w s releasing s.rows s.placed shown (fails i at refl) refl
        refl shown.1

  place-Dispatched :
      (req : ExecuteTradeRequest) (qty : D) (creds : PlaintextCredentials) (w : World D)
      (s : System D)
      → Shows order i out Possible w s
      → s.stage i ≡ holding
      → Dispatched s (place server req qty creds w)
  unfolding place
  place-Dispatched req qty creds w s shown at =
      elim (Result-cases (server.broker_client.place_market_order creds (market_order req qty))) [
        | inl (result, taken) ↦
            rw (taken, place) (accepting order i out Possible plays w s shown at)
        | inr (e, refused) ↦ rw (refused, place) (failing w s shown at)
      ]

  pub decrypt_and_place-Dispatched :
      (req : ExecuteTradeRequest) (qty : D) (r : Result BrokerCredential) (w : World D)
      (s : System D)
      → Shows order i out Possible w s
      → s.stage i ≡ holding
      → Dispatched s (decrypt_and_place server req qty (r, w))
  unfolding decrypt_and_place
  decrypt_and_place-Dispatched req qty (err e) w s shown at =
      elim (Bool-cases (errors_is e Sentinel.credentials_not_found)) [
        | inl missing ↦ rw (missing, decrypt_and_place) (failing w s shown at)
        | inr broken ↦ rw (broken, decrypt_and_place) (failing w s shown at)
      ]
  decrypt_and_place-Dispatched req qty (ok cred) w s shown at =
      elim (Result-cases (
        server.vault_client.decrypt_credentials cred.api_key_ciphertext
          cred.api_secret_ciphertext)) [
            | inl (creds, opened) ↦
                rw (opened, decrypt_and_place) (place-Dispatched req qty creds w s shown at)
            | inr (e, sealed) ↦ rw (sealed, decrypt_and_place) (failing w s shown at)
          ]
