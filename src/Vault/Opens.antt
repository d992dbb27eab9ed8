-- ===== src/Vault/Opens.antt =====
-- Against a truthful transit engine, DecryptCredentials answers with the two plaintexts, by
-- whichever way it gets them.
use pregao.Prelude.{◌≡◌, String, Option}
use pregao.Vault.Plaintext.{Bytes, PlaintextCredentials}

-- The credentials that an engine opens the two ciphertexts to.
abbrev pub Opens : (String → Option Bytes) → String → String → PlaintextCredentials → Type 0
Opens opening key sec creds = (creds.api_key ≡ opening key) × (creds.api_secret ≡ opening sec)
