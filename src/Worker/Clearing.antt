-- ===== src/Worker/Clearing.antt =====
-- Where the holds of a purchase go, for a processor on the ledger client over gRPC.
use pregao.Prelude.{none, ◌⊎◌, false, ◌≡◌, inl, inr, String, some, All, arith, subst, sym}
use pregao.Prelude.Text.{◌=ₛ◌}
use pregao.Errors.{Result, ok, err, Result-cases}
use pregao.Decimal.{Decimals}
use pregao.Uuid.{Uuids}
use pregao.Calls.{Call, capture_hold}
use pregao.Client.Livro.Grpc.{LedgerServiceClient, grpc_livro_client, get_or_create_broker_account}
use pregao.Client.Livro.Account.{get_or_create_broker_account_iff}
use pregao.Db.Models.{BrokerOrder}
use pregao.Db.Orders.{get_order_by_provider_order_id}
use pregao.World.{World}
use pregao.Worker.Fill.{
  FillEvent, FillProcessor, capture, settle, apply_fill, process_fill, capture_params,
}
use pregao.Worker.Settlement.{record_fill-calls}

account_named :
    (c : LedgerServiceClient) (tenant id : String)
    → get_or_create_broker_account c tenant ≡ ok id
    → (id =ₛ "") ≡ false
account_named c tenant id h = elim ((get_or_create_broker_account_iff c tenant id).0 h) [
  | inl g ↦ g.1
  | inr (void, g) ↦ g.1
]

module _ {D : Type 0} ⦃d : Decimals D⦄ ⦃u : Uuids⦄ where
  -- A capture names the account that the money goes to.
  abbrev pub HasDestination : Call D → Type 0
  HasDestination (capture_hold p) = (p.destination_account_id =ₛ "") ≡ false
  HasDestination _ = Unit

  module _ (c : LedgerServiceClient) where
    capture-HasDestination :
        (o : BrokerOrder D) (e : FillEvent D) (w : World D)
        → All HasDestination w.calls
        → All HasDestination (capture (grpc_livro_client c) o e w).1.calls
    unfolding capture grpc_livro_client capture_params
    capture-HasDestination o e w h =
        elim (Result-cases (get_or_create_broker_account c o.tenant_id)) [
          | inl (id, found) ↦ rw (found, All) (account_named c o.tenant_id id found, (tt, h))
          | inr (m, failed) ↦ rw (failed, All) (tt, h)
        ]

  -- The processor has the ledger client over gRPC, or none.
  abbrev pub OnGrpc : FillProcessor D → Type 0
  OnGrpc p =
      (p.livro_client ≡ none)
      ⊎ ((c : LedgerServiceClient) × (p.livro_client ≡ some (grpc_livro_client c)))

  settle-HasDestination :
      (p : FillProcessor D) (o : BrokerOrder D) (e : FillEvent D) (w : World D)
      → OnGrpc p
      → All HasDestination w.calls
      → All HasDestination (settle p o e w).1.calls
  unfolding settle
  settle-HasDestination p o e w (inl absent) h = ground (arith, absent, h)
  settle-HasDestination p o e w (inr (c, on)) h =
      ground (arith, on, h, capture-HasDestination c o e w h)

  apply_fill-HasDestination :
      (p : FillProcessor D) (e : FillEvent D) (x : Result (BrokerOrder D) × World D)
      → OnGrpc p
      → All HasDestination x.1.calls
      → All HasDestination (apply_fill p e x).1.calls
  unfolding apply_fill
  apply_fill-HasDestination p e (err m, v) on h = h
  apply_fill-HasDestination p e (ok o, v) on h =
      subst (All HasDestination) (sym (record_fill-calls o e (settle p o e v)))
        (settle-HasDestination p o e v on h)

  -- With the ledger client over gRPC, or none: if every capture of a hold asked for so far names a
  -- destination account, so does every one asked for when ProcessFill returns, whatever the ledger
  -- answers.
  pub process_fill-HasDestination :
      (p : FillProcessor D) (e : FillEvent D) (w : World D)
      → OnGrpc p
      → All HasDestination w.calls
      → All HasDestination (process_fill p e w).1.calls
  unfolding process_fill get_order_by_provider_order_id
  process_fill-HasDestination p e w on h = ground (
    arith,
    on,
    h,
    apply_fill-HasDestination p e (get_order_by_provider_order_id e.provider e.provider_order_id w)
        on,
  )
