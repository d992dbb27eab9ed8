-- ===== src/Vault/Plaintext.antt =====
-- internal/vault/client.go: the plaintext credentials and their wiping. Bytes are numbers, and a nil
-- slice is `none`.
use pregao.Prelude.{ℕ, String, Option, none, some, List, [], ◌∷◌, map}
use pregao.Errors.{Result}

abbrev pub Bytes : Type 0
Bytes = List ℕ

pub record PlaintextCredentials : Type 0 where
  pub api_key : Option Bytes
  pub api_secret : Option Bytes

-- The loop of `Zero` over one array.
unfoldable pub wipe : Bytes → Bytes
wipe [] = []
wipe (b ∷ bs) = 0 ∷ wipe bs

-- The arrays behind the slices.
abbrev pub arrays_of : PlaintextCredentials → List Bytes
arrays_of c = slice c.api_key (slice c.api_secret [])
  where
    slice : Option Bytes → List Bytes → List Bytes
    slice none rest = rest
    slice (some bs) rest = bs ∷ rest

-- What `Zero` leaves: the struct behind the pointer, and the arrays that its slices had.
unfoldable pub zero_credentials :
    Option PlaintextCredentials → Option PlaintextCredentials × List Bytes
unfolding wipe
zero_credentials none = (none, [])
zero_credentials (some c) =
    (some (record { api_key = none; api_secret = none }), map wipe (arrays_of c))

-- The interface TransitClient, as its users see it.
pub record TransitClient : Type 0 where
  pub decrypt_credentials : String → String → Result PlaintextCredentials

-- `PlaintextCredentials.String`, and `GoString`.
unfoldable pub show_credentials : PlaintextCredentials → String
show_credentials c = "[REDACTED_BROKER_CREDENTIALS]"
