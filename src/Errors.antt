-- ===== src/Errors.antt =====
-- Go's error values: the sentinels that the packages declare, `errors.New` and `fmt.Errorf` with
-- its `%w`, and `errors.Is`. Also the status errors of gRPC that the service returns.
use Prim.Native.String.{◌++◌}
use pregao.Prelude.{ℕ, Bool, true, false, String, if◌then◌else◌, ◌==◌, ◌≡◌, refl, ap, ◌⊎◌, inl, inr}

-- The `Err…` variables of internal/db, internal/broker, internal/cache and internal/vault, and the
-- two errors of a context.
pub data Sentinel : Type 0 where
  order_not_found credentials_not_found : Sentinel
  rate_limited order_rejected symbol_not_found invalid_quantity : Sentinel
  cache_miss decryption_failed empty_ciphertext : Sentinel
  canceled deadline_exceeded : Sentinel

abbrev index : Sentinel → ℕ
index order_not_found = 0
index credentials_not_found = 1
index rate_limited = 2
index order_rejected = 3
index symbol_not_found = 4
index invalid_quantity = 5
index cache_miss = 6
index decryption_failed = 7
index empty_ciphertext = 8
index canceled = 9
index deadline_exceeded = 10

abbrev pub text : Sentinel → String
text order_not_found = "broker order not found"
text credentials_not_found = "broker credentials not found"
text rate_limited = "broker rate limited request (HTTP 429)"
text order_rejected = "broker rejected order"
text symbol_not_found = "symbol not found or inactive"
text invalid_quantity = "invalid order quantity"
text cache_miss = "quote not found in cache"
text decryption_failed = "openbao transit decryption failed"
text empty_ciphertext = "ciphertext cannot be empty"
text canceled = "context canceled"
text deadline_exceeded = "context deadline exceeded"

-- `wrap m e` is `fmt.Errorf("m: %w", e)`, `detail e m` is `fmt.Errorf("%w: m", e)`.
pub data Error : Type 0 where
  sentinel : Sentinel → Error
  other : String → Error
  wrap : String → Error → Error
  detail : Error → String → Error

-- `errors.Is`
abbrev pub errors_is : Error → Sentinel → Bool
errors_is (sentinel s) t = index s == index t
errors_is (other m) t = false
errors_is (wrap m e) t = errors_is e t
errors_is (detail e m) t = errors_is e t

-- `err.Error()`
pub error_text : Error → String
error_text (sentinel s) = text s
error_text (other m) = m
error_text (wrap m e) = m ++ ": " ++ error_text e
error_text (detail e m) = error_text e ++ ": " ++ m

-- A Go function's `(A, error)`.
pub data Result {ℓ} (A : Type ℓ) : Type ℓ where
  ok : A → Result A
  err : Error → Result A

pub Result-cases {ℓ} :
    {A : Type ℓ} (r : Result A) → ((a : A) × (r ≡ ok a)) ⊎ ((e : Error) × (r ≡ err e))
Result-cases (ok a) = inl (a, refl)
Result-cases (err e) = inr (e, refl)

-- `err != nil`
abbrev pub failed {ℓ} : {A : Type ℓ} → Result A → Bool
failed (ok a) = false
failed (err e) = true

module _ {ℓ κ} {A : Type ℓ} {B : Type κ} where
  -- `if err != nil { return err }`, and the rest.
  abbrev pub and_then : Result A → (A → Result B) → Result B
  and_then (ok a) f = f a
  and_then (err e) f = err e

  -- A chain that ends well began well.
  pub and_then-ok :
      (r : Result A) (f : A → Result B) (b : B)
      → and_then r f ≡ ok b
      → (a : A) × (r ≡ ok a) × (f a ≡ ok b)
  and_then-ok (ok a) f b h = (a, refl, h)
  and_then-ok (err e) f b h = cc

pub ok_inj {ℓ} : {A : Type ℓ} (a b : A) → ok a ≡ ok b → a ≡ b
ok_inj a b h = ap (λ r. elim r [ ok x ↦ x | err e ↦ a ]) h

-- What is well has not failed.
pub ok-failed {ℓ} : {A : Type ℓ} (r : Result A) (a : A) → r ≡ ok a → failed r ≡ true → ⊥
ok-failed (ok b) a h f = cc
ok-failed (err e) a h f = cc

-- A guard that lets a value through did not refuse it.
pub guard-ok {ℓ} :
    {A : Type ℓ} (g : Bool) (e : Error) (r : Result A) (a : A)
    → (if g then err e else r) ≡ ok a
    → (g ≡ false) × (r ≡ ok a)
guard-ok true e r a h = cc
guard-ok false e r a h = (refl, h)

-- An error under the message of the caller.
abbrev pub relabel {ℓ} : {A : Type ℓ} → String → Result A → Result A
relabel message (ok a) = ok a
relabel message (err e) = err (wrap message e)

-- The codes that the service uses, of google.golang.org/grpc/codes.
pub data Code : Type 0 where
  invalid_argument failed_precondition internal unavailable aborted : Code
  canceled deadline_exceeded unknown : Code

-- What a gRPC handler returns.
pub data Reply {ℓ} (A : Type ℓ) : Type ℓ where
  reply : A → Reply A
  status : Code → String → Reply A

-- `status.FromContextError`
pub context_code : Error → Code
context_code e =
    if errors_is e Sentinel.deadline_exceeded
    then Code.deadline_exceeded
    else if errors_is e Sentinel.canceled
    then Code.canceled
    else unknown

pub reply_inj {ℓ} : {A : Type ℓ} (a b : A) → reply a ≡ reply b → a ≡ b
reply_inj a b h = ap (λ r. elim r [ reply x ↦ x | status c m ↦ a ]) h

pub relabel-ok {ℓ} :
    {A : Type ℓ} (message : String) (r : Result A) (a : A) → relabel message r ≡ ok a → r ≡ ok a
relabel-ok message (ok b) a h = h
relabel-ok message (err e) a h = cc
