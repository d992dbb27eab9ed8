-- ===== src/Tests/Vault.antt =====
-- Runs of the transit client, and its theorems at such runs. The engine of the tests opens every
-- ciphertext to one byte; a batch's answer is given with the engine.
use pregao.Prelude.{◌≡◌, refl, String, Option, none, some, List, [], ◌∷◌, All, if◌then◌else◌}
use pregao.Prelude.Text.{◌=ₛ◌, trim_space}
use pregao.Prelude.Int.{pos}
use pregao.Errors.{Error, ok, other}
use pregao.Vault.{Bytes, PlaintextCredentials}
use pregao.Vault.Transit.{
  TransitWire, OpenBao, BatchDecryptResultItem, new_transit_client, fetch, decrypt, batch,
  fall_back, decrypt_credentials,
}
use pregao.Vault.Opens.{Opens}
use pregao.Vault.Leftovers.{Leftover, decrypt_credentials-Leftover}

abbrev item : String → BatchDecryptResultItem
item text = record { plaintext = text; error = "" }

-- Base64 of the tests: "Kg==" is the byte 42, every other text is one byte and then malformed.
abbrev decode : String → Bytes × Option Error
decode s = if s =ₛ "Kg==" then (42 ∷ [], none) else (7 ∷ [], some (other "illegal base64 data"))

abbrev answering : List BatchDecryptResultItem → TransitWire
answering items = record {
  marshal_one = λ c. ok c;
  marshal_batch = λ cs. ok "batch";
  refuses = λ url. none;
  send = λ n client r. ok (record { status_code = 200; body = ok r.body });
  read_one = λ body. ok (record { plaintext = "Kg=="; errors = [] });
  decode_batch = λ body. ok (record { batch_results = items; errors = [] });
  decode_base64 = decode;
  format_int = λ n. "200";
}

abbrev pub both_open : TransitWire
both_open = answering (item "Kg==" ∷ item "Kg==" ∷ [])

abbrev torn : TransitWire
torn = answering (item "Kg==" ∷ item "K" ∷ [])

abbrev bao : OpenBao
bao = new_transit_client "https://bao:8200/" "t" "" (pos 0)

-- The batch's second text is malformed: the key's plaintext is left as it was.
test_leftover : decrypt_credentials ⦃x = torn⦄ bao "k" "s" ≡ (
  ok (record { api_key = some (42 ∷ []); api_secret = some (42 ∷ []) }),
  (42 ∷ []) ∷ (7 ∷ []) ∷ [],
)
unfolding decrypt_credentials batch fall_back decrypt fetch trim_space
test_leftover = refl

-- The bytes of an item at a place in a batch.
abbrev first : List BatchDecryptResultItem → Option Bytes
first [] = none
first (a ∷ bs) = some (decode a.plaintext).0

abbrev second : List BatchDecryptResultItem → Option Bytes
second [] = none
second (a ∷ bs) = first bs

abbrev opening : String → Option Bytes
opening c = some (42 ∷ [])

abbrev opened : PlaintextCredentials
opened = record { api_key = some (42 ∷ []); api_secret = some (42 ∷ []) }

decrypt_credentials-Leftover_example :
    All (Leftover ⦃x = torn⦄ bao "k" "s") (decrypt_credentials ⦃x = torn⦄ bao "k" "s").1
decrypt_credentials-Leftover_example = decrypt_credentials-Leftover ⦃x = torn⦄ bao "k" "s"
