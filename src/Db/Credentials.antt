-- ===== src/Db/Credentials.antt =====
-- internal/db/credentials_repo.go: broker_credentials, unique on (tenant_id, provider).
pub mod RoundTrip
use pregao.Prelude.{
  ℕ, Bool, ◌&&◌, String, Option, none, some, List, ◌∷◌, if◌then◌else◌, ◌==◌, find, any, update_if,
}
use pregao.Prelude.Text.{◌=ₛ◌}
use pregao.Errors.{Error, Result, ok, err, wrap, sentinel, Sentinel}
use pregao.Db.Models.{BrokerCredential}
use pregao.World.{World, turn, now}

abbrev pub is_for : String → String → BrokerCredential → Bool
is_for tenant provider c = c.tenant_id =ₛ tenant && c.provider =ₛ provider

abbrev scan_credential : Option Error → Option BrokerCredential → Result BrokerCredential
scan_credential (some e) found = err (wrap "failed to query broker credentials" e)
scan_credential none none = err (sentinel Sentinel.credentials_not_found)
scan_credential none (some c) = ok c

-- The defaults that SaveCredentials fills in, at the given id and time.
abbrev pub complete : ℕ → ℕ → BrokerCredential → BrokerCredential
complete fresh time c = record c {
  id = if c.id == 0 then fresh else c.id;
  created_at = if c.created_at == 0 then time else c.created_at;
}

-- DO UPDATE SET: the ciphertexts of the excluded row.
abbrev pub overwrite : BrokerCredential → BrokerCredential → BrokerCredential
overwrite new old = record old {
  api_key_ciphertext = new.api_key_ciphertext;
  api_secret_ciphertext = new.api_secret_ciphertext;
}

-- INSERT … ON CONFLICT (tenant_id, provider) DO UPDATE
unfoldable pub upsert : BrokerCredential → List BrokerCredential → List BrokerCredential
upsert c rows =
    if any (is_for c.tenant_id c.provider) rows
    then update_if (is_for c.tenant_id c.provider) (overwrite c) rows
    else c ∷ rows

module _ {D : Type 0} where
  unfoldable pub get_credentials : String → String → World D → Result BrokerCredential × World D
  get_credentials tenant provider w = (
    scan_credential (w.outside.fault w.step) (find (is_for tenant provider) w.credentials),
    turn w,
  )

  -- A conflict on the primary key alone fails the statement; it is among the faults.
  unfoldable pub save_credentials : BrokerCredential → World D → Result (Unit {0}) × World D
  save_credentials cred w =
      let c = complete (w.outside.new_uuid w.step) (now w) cred in
      let q = turn w in
      elim (w.outside.fault w.step) [
        | some e ↦ (err (wrap "failed to save broker credentials" e), q)
        | none ↦ (ok tt, record q { credentials = upsert c w.credentials })
      ]
