-- ===== src/Client/Livro/Grpc.antt =====
-- internal/client/livro/client.go: the ledger client over gRPC, with its requests. The generated
-- stub, the dialling and the closing of a connection are parameters.
use Prim.Native.String.{◌++◌}
use pregao.Prelude.{Bool, true, String, Option, none, some, if◌then◌else◌}
use pregao.Prelude.Text.{◌=ₛ◌}
use pregao.Errors.{Result, ok, err, other, and_then, relabel}
use pregao.Decimal.{Decimals}
use pregao.Client.Livro.{CaptureHoldParams, CreditParams, LivroClient}

pub record Scope : Type 0 where
  pub type : String
  pub id : String

pub record CaptureHoldRequest : Type 0 where
  pub hold_id : String
  pub amount : String
  pub destination_account_id : String
  pub description : String
  pub idempotency_key : String
  pub release_remainder : Bool

pub record CreditRequest : Type 0 where
  pub idempotency_key : String
  pub scope : Scope
  pub account_id : String
  pub amount : String
  pub currency : String
  pub description : String
  pub reference : String

pub data AccountType : Type 0 where
  customer_wallet : AccountType

pub record InitializeAccountRequest : Type 0 where
  pub scope : Scope
  pub entity_type : String
  pub entity_id : String
  pub account_name : String
  pub currency : String
  pub account_type : AccountType
  pub allow_overdraft : Bool

pub record AccountLookup : Type 0 where
  pub scope : Scope
  pub entity_type : String
  pub entity_id : String
  pub account_name : String
  pub currency : String

pub record Account : Type 0 where
  pub id : String

-- The responses of InitializeAccount and of GetAccount; a nil pointer is `none`.
pub record AccountResponse : Type 0 where
  pub account : Option Account

-- The stub `livrov1.LedgerServiceClient`. CaptureHold and Credit answer for their errors only, and
-- GetBalance with the text of its balance. `quoted` is the verb `%q` of fmt.
pub record LedgerServiceClient : Type 0 where
  pub capture_hold : CaptureHoldRequest → Result (Unit {0})
  pub credit : CreditRequest → Result (Unit {0})
  pub get_balance : String → Result String
  pub initialize_account : InitializeAccountRequest → Result (Option AccountResponse)
  pub get_account : AccountLookup → Result (Option AccountResponse)
  pub quoted : String → String

abbrev tenant_scope : String → Scope
tenant_scope tenant = record { type = "tenant"; id = tenant }

abbrev pub initialize_request : String → InitializeAccountRequest
initialize_request tenant = record {
  scope = tenant_scope tenant;
  entity_type = "broker";
  entity_id = "clearing";
  account_name = "broker_usd";
  currency = "USD";
  account_type = customer_wallet;
  allow_overdraft = true;
}

abbrev pub account_lookup : String → AccountLookup
account_lookup tenant = record {
  scope = tenant_scope tenant;
  entity_type = "broker";
  entity_id = "clearing";
  account_name = "broker_usd";
  currency = "USD";
}

abbrev pub given_id : String → Option String
given_id id = if id =ₛ "" then none else some id

-- The id of the account in a response that has one.
unfoldable pub account_id : Option AccountResponse → Option String
account_id none = none
account_id (some r) = elim r.account [ none ↦ none | some a ↦ given_id a.id ]

abbrev pub or_empty : Option String → Result String
or_empty none = err (other "empty broker clearing account returned from livro")
or_empty (some id) = ok id

abbrev pub on_lookup : Result (Option AccountResponse) → Result String
on_lookup r =
    and_then (relabel "failed to resolve broker clearing account in livro" r)
      λ a. or_empty (account_id a)

abbrev pub or_lookup : Option String → Result String → Result String
or_lookup none lookup = lookup
or_lookup (some id) lookup = ok id

abbrev pub on_initialize : Result (Option AccountResponse) → Result String → Result String
on_initialize (err e) lookup = lookup
on_initialize (ok a) lookup = or_lookup (account_id a) lookup

-- `GetOrCreateBrokerAccount`
unfoldable pub get_or_create_broker_account : LedgerServiceClient → String → Result String
unfolding account_id
get_or_create_broker_account c tenant =
    on_initialize (c.initialize_account (initialize_request tenant))
      (on_lookup (c.get_account (account_lookup tenant)))

module _ {D : Type 0} ⦃d : Decimals D⦄ where
  abbrev pub capture_request : CaptureHoldParams D → CaptureHoldRequest
  capture_request p = record {
    hold_id = p.hold_id;
    amount = d.show_fixed p.amount 4;
    destination_account_id = p.destination_account_id;
    description = p.description;
    idempotency_key = p.idempotency_key;
    release_remainder = p.release_remainder;
  }

  abbrev pub credit_request : CreditParams D → CreditRequest
  credit_request p = record {
    idempotency_key = p.idempotency_key;
    scope = tenant_scope p.tenant_id;
    account_id = p.account_id;
    amount = d.show_fixed p.amount 4;
    currency = p.currency;
    description = p.description;
    reference = p.reference;
  }

  -- `GetBalance`
  unfoldable pub get_balance : LedgerServiceClient → String → Result D
  get_balance c account =
      and_then (relabel "livro GetBalance failed" (c.get_balance account))
        λ balance. relabel ("failed to parse livro balance " ++ c.quoted balance) (d.parse balance)

  -- The client as its users see it.
  unfoldable pub grpc_livro_client : LedgerServiceClient → LivroClient D
  unfolding get_balance get_or_create_broker_account
  grpc_livro_client c = record {
    capture_hold = λ p. relabel "livro CaptureHold failed" (c.capture_hold (capture_request p));
    credit = λ p. relabel "livro Credit failed" (c.credit (credit_request p));
    get_balance = get_balance c;
    get_or_create_broker_account = get_or_create_broker_account c;
  }

  -- `NewClient`, of a connection that `grpc.Dial` gives and the stub on it.
  unfoldable pub dial_livro :
      {C : Type 0}
      → (String → Result C)
      → (C → LedgerServiceClient)
      → String
      → Result (LivroClient D)
  unfolding grpc_livro_client
  dial_livro dial stub addr =
      and_then (relabel ("failed to dial livro at " ++ addr) (dial addr))
        λ conn. ok (grpc_livro_client (stub conn))
