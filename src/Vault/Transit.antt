-- ===== src/Vault/Transit.antt =====
-- internal/vault/client.go: the client of OpenBao's transit engine. HTTP, JSON and base64 are
-- parameters. Beside its answer an operation gives the plaintext arrays that it made and that are
-- not part of the answer, as it leaves them in memory.
use Prim.Native.Char.{code}
use Prim.Native.String.{◌++◌}
use pregao.Prelude.{
  ℕ, not, ◌==◌, ◌&&◌, String, Option, none, some, List, [], ◌∷◌, ◌++◌ as append, if◌then◌else◌,
}
use pregao.Prelude.Text.{◌=ₛ◌, trim_space, trim_right}
use pregao.Prelude.Int.{ℤ, pos}
use pregao.Errors.{Sentinel, Error, Result, ok, err, sentinel, wrap, detail, and_then, relabel}
use pregao.Http.{HttpClient, Response}
use pregao.Vault.Plaintext.{Bytes, PlaintextCredentials, TransitClient, wipe}

-- The parts of `http.Request` that the client sets. Every body is JSON.
pub record Request : Type 0 where
  pub url : String
  pub body : String
  pub token : Option String

pub record DecryptResponse : Type 0 where
  pub plaintext : String
  pub errors : List String

pub record BatchDecryptResultItem : Type 0 where
  pub plaintext : String
  pub error : String

pub record BatchDecryptResponse : Type 0 where
  pub batch_results : List BatchDecryptResultItem
  pub errors : List String

pub record TransitWire : Type 0 where
  -- `json.Marshal` of one ciphertext, and of a batch.
  pub marshal_one : String → Result String
  pub marshal_batch : List String → Result String
  -- The error of `http.NewRequestWithContext` on a URL.
  pub refuses : String → Option Error
  -- `Client.Do`, for the n-th request of a call.
  pub send : ℕ → HttpClient → Request → Result Response
  pub read_one : String → Result DecryptResponse
  -- `json.Decoder.Decode` on the body as it arrives.
  pub decode_batch : Result String → Result BatchDecryptResponse
  -- `base64.StdEncoding.DecodeString`: what was decoded up to an error, and the error.
  pub decode_base64 : String → Bytes × Option Error
  pub format_int : ℕ → String

-- `openBaoTransitClient`
pub record OpenBao : Type 0 where
  pub base_url : String
  pub key_name : String
  pub token : String
  pub http_client : HttpClient

abbrev or_default_client : Option HttpClient → HttpClient
or_default_client none = record { timeout = pos 5_000_000_000 }
or_default_client (some c) = c

abbrev or_default_timeout : ℤ → ℤ
or_default_timeout (pos n) = if n == 0 then pos 5_000_000_000 else pos n
or_default_timeout _ = pos 5_000_000_000

-- `NewTransitClientWithHTTPClient`
unfoldable pub new_transit_client_with_http_client :
    String → String → String → Option HttpClient → OpenBao
unfolding trim_right
new_transit_client_with_http_client addr token key_name http_client = record {
  base_url = trim_right (λ c. code c == b'/') addr;
  key_name = if key_name =ₛ "" then "broker-keys" else key_name;
  token = token;
  http_client = or_default_client http_client;
}

-- `NewTransitClient`
unfoldable pub new_transit_client : String → String → String → ℤ → OpenBao
unfolding new_transit_client_with_http_client
new_transit_client addr token key_name timeout =
    new_transit_client_with_http_client addr token key_name
      (some (record { timeout = or_default_timeout timeout }))

-- `strings.Join` with "; ".
abbrev join : List String → String
join [] = ""
join (s ∷ []) = s
join (s ∷ t ∷ ss) = s ++ "; " ++ join (t ∷ ss)

-- The request that carries a body.
abbrev pub request : OpenBao → String → Request
request c body = record {
  url = c.base_url ++ "/v1/transit/decrypt/" ++ c.key_name;
  body = body;
  token = if c.token =ₛ "" then none else some c.token;
}

module _ ⦃x : TransitWire⦄ where
  -- The making and the sending of the n-th request.
  abbrev pub new_request : Request → Result Request
  new_request r = elim (x.refuses r.url) [ some e ↦ err e | none ↦ ok r ]

  abbrev pub post : OpenBao → ℕ → String → Result Response
  post c n body =
      and_then (relabel "failed to create http request" (new_request (request c body)))
        λ r. relabel "openbao request failed" (x.send n c.http_client r)

  abbrev pub unless_errors : List String → String → Result String
  unless_errors [] text = ok text
  unless_errors (e ∷ es) text = err (detail (sentinel Sentinel.decryption_failed) (join (e ∷ es)))

  abbrev pub plaintext_of : DecryptResponse → Result String
  plaintext_of r = unless_errors r.errors r.plaintext

  abbrev pub refused : ℕ → String → Error
  refused status body =
      detail (sentinel Sentinel.decryption_failed)
        ("status " ++ x.format_int status ++ " body: " ++ body)

  abbrev pub parse_body : String → Result String
  parse_body body =
      and_then (relabel "failed to unmarshal openbao response" (x.read_one body)) plaintext_of

  abbrev pub read_body : ℕ → String → Result String
  read_body status body = if not (status == 200) then err (refused status body) else parse_body body

  abbrev pub read_response : Response → Result String
  read_response resp =
      and_then (relabel "failed to read openbao response" resp.body) (read_body resp.status_code)

  -- `Decrypt` up to the plaintext in base64.
  unfoldable pub fetch : OpenBao → ℕ → String → Result String
  fetch c n ciphertext =
      and_then (relabel "failed to marshal decrypt request" (x.marshal_one ciphertext))
        λ body. and_then (post c n body) read_response

  abbrev pub decoded : Bytes × Option Error → Result Bytes × List Bytes
  decoded (bs, none) = (ok bs, [])
  decoded (bs, some e) = (err (wrap "failed to base64 decode plaintext from openbao" e), bs ∷ [])

  abbrev pub decode_fetched : Result String → Result Bytes × List Bytes
  decode_fetched (err e) = (err e, [])
  decode_fetched (ok text) = decoded (x.decode_base64 text)

  -- `Decrypt`, as the n-th request of a call.
  unfoldable pub decrypt : OpenBao → ℕ → String → Result Bytes × List Bytes
  decrypt c n ciphertext =
      if trim_space ciphertext =ₛ ""
      then (err (sentinel Sentinel.empty_ciphertext), [])
      else decode_fetched (fetch c n ciphertext)

  -- The two plaintexts of a batch's answer, where neither item has an error.
  abbrev pub both : List BatchDecryptResultItem → Option (String × String)
  both (key ∷ sec ∷ []) =
      if key.error =ₛ "" && sec.error =ₛ "" then some (key.plaintext, sec.plaintext) else none
  both _ = none

  abbrev pub batch_results : Result BatchDecryptResponse → Option (String × String)
  batch_results (err e) = none
  batch_results (ok r) = both r.batch_results

  abbrev pub batch_answer : Result Response → Option (String × String)
  batch_answer (err e) = none
  batch_answer (ok resp) =
      if resp.status_code == 200 then batch_results (x.decode_batch resp.body) else none

  abbrev pub batch_body : OpenBao → Result String → Option (String × String)
  batch_body c (err e) = none
  batch_body c (ok body) = batch_answer (post c 0 body)

  -- The batch request of `DecryptCredentials`; every failure is passed over.
  unfoldable pub batch : OpenBao → String → String → Option (String × String)
  batch c key sec = batch_body c (x.marshal_batch (key ∷ sec ∷ []))

  abbrev pub credentials : Bytes → Bytes → PlaintextCredentials
  credentials key sec = record { api_key = some key; api_secret = some sec }

  abbrev pub with_secret :
      Bytes → Result Bytes × List Bytes → Result PlaintextCredentials × List Bytes
  with_secret key (err e, left) = (err (wrap "failed to decrypt api secret" e), wipe key ∷ left)
  with_secret key (ok sec, left) = (ok (credentials key sec), left)

  abbrev pub with_key :
      OpenBao → String → Result Bytes × List Bytes → Result PlaintextCredentials × List Bytes
  with_key c sec (err e, left) = (err (wrap "failed to decrypt api key" e), left)
  with_key c sec (ok key, left) =
      let (answer, rest) = with_secret key (decrypt c 2 sec) in (answer, append left rest)

  -- The two single requests of `DecryptCredentials`.
  unfoldable pub fall_back : OpenBao → String → String → Result PlaintextCredentials × List Bytes
  unfolding decrypt
  fall_back c key sec = with_key c sec (decrypt c 1 key)

  -- The arrays of a batch, if both decode; else the fallback, beside what was decoded.
  abbrev pub from_batch :
      Bytes × Option Error
      → Bytes × Option Error
      → Result PlaintextCredentials × List Bytes
      → Result PlaintextCredentials × List Bytes
  from_batch (key, none) (sec, none) other = (ok (credentials key sec), [])
  from_batch (key, e) (sec, f) (answer, left) = (answer, key ∷ sec ∷ left)

  abbrev pub or_fall_back :
      Option (String × String)
      → Result PlaintextCredentials × List Bytes
      → Result PlaintextCredentials × List Bytes
  or_fall_back none other = other
  or_fall_back (some (key, sec)) other =
      from_batch (x.decode_base64 key) (x.decode_base64 sec) other

  -- `DecryptCredentials`
  unfoldable pub decrypt_credentials :
      OpenBao → String → String → Result PlaintextCredentials × List Bytes
  unfolding batch fall_back
  decrypt_credentials c key sec = or_fall_back (batch c key sec) (fall_back c key sec)

  -- The client as the vault that the service calls.
  abbrev pub transit_client : OpenBao → TransitClient
  transit_client c = record { decrypt_credentials = λ key sec. (decrypt_credentials c key sec).0 }
