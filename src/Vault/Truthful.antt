-- ===== src/Vault/Truthful.antt =====
-- A transit engine that tells the truth, and what the two kinds of requests then give.
use pregao.Prelude.{
  ℕ, Bool, true, false, not, ◌&&◌, ◌≡◌, refl, ◌∙◌, ap, String, Option, none, some, List, [], ◌∷◌,
  arith, if-some, some_inj, ◌==◌, if◌then◌else◌,
}
use pregao.Prelude.Text.{◌=ₛ◌, trim_space}
use pregao.Errors.{
  Error, Sentinel, sentinel, Result, ok, err, and_then, relabel, and_then-ok, relabel-ok, guard-ok,
  ok_inj,
}
use pregao.Http.{Response}
use pregao.Vault.Plaintext.{Bytes}
use pregao.Vault.Transit.{
  OpenBao, TransitWire, DecryptResponse, BatchDecryptResponse, BatchDecryptResultItem, Request,
  request, post, plaintext_of, unless_errors, refused, parse_body, read_body, read_response, fetch,
  decoded, decode_fetched, decrypt, both, batch_results, batch_answer, batch_body, batch,
}

module _ ⦃x : TransitWire⦄ where
  -- An engine that opens ciphertexts by `opening`. An answer with status 200 and no error to a request
  -- for one ciphertext holds its plaintext. An answer with status 200 to a batch, of which neither
  -- item has an error, holds the plaintexts in order, whatever errors stand beside the items: the
  -- client does not look at those.
  pub record IsTruthful (c : OpenBao) (opening : String → Option Bytes) : Type 0 where
    pub one :
        (n : ℕ) (ciphertext body text : String) (resp : Response) (r : DecryptResponse)
        → x.marshal_one ciphertext ≡ ok body
        → x.send n c.http_client (request c body) ≡ ok resp
        → (resp.status_code == 200) ≡ true
        → resp.body ≡ ok text
        → x.read_one text ≡ ok r
        → r.errors ≡ []
        → opening ciphertext ≡ some (x.decode_base64 r.plaintext).0
    pub two :
        (key sec body : String) (resp : Response) (r : BatchDecryptResponse)
        (a b : BatchDecryptResultItem)
        → x.marshal_batch (key ∷ sec ∷ []) ≡ ok body
        → x.send 0 c.http_client (request c body) ≡ ok resp
        → (resp.status_code == 200) ≡ true
        → x.decode_batch resp.body ≡ ok r
        → r.batch_results ≡ a ∷ b ∷ []
        → (a.error =ₛ "" && b.error =ₛ "") ≡ true
        → (opening key ≡ some (x.decode_base64 a.plaintext).0)
          × (opening sec ≡ some (x.decode_base64 b.plaintext).0)

  post-ok :
      (c : OpenBao) (n : ℕ) (body : String) (resp : Response)
      → post c n body ≡ ok resp
      → x.send n c.http_client (request c body) ≡ ok resp
  post-ok c n body resp h = go (x.refuses (request c body).url) h
    where
      go :
          (o : Option Error)
          → and_then
              (relabel "failed to create http request"
                (elim o as (λ _. Result Request) [ some e ↦ err e | none ↦ ok (request c body) ]))
              (λ r. relabel "openbao request failed" (x.send n c.http_client r))
            ≡ ok resp
          → x.send n c.http_client (request c body) ≡ ok resp
      go (some e) g = cc
      go none g = relabel-ok "openbao request failed" _ resp g

  unless_errors-ok :
      (es : List String) (plain text : String)
      → unless_errors es plain ≡ ok text
      → (es ≡ []) × (plain ≡ text)
  unless_errors-ok [] plain text h = (refl, ok_inj plain text h)
  unless_errors-ok (e ∷ es) plain text h = cc

  module _ (c : OpenBao) (opening : String → Option Bytes) (truth : IsTruthful c opening) where
    fetch-opens :
        (n : ℕ) (ciphertext text : String)
        → fetch c n ciphertext ≡ ok text
        → opening ciphertext ≡ some (x.decode_base64 text).0
    unfolding fetch
    fetch-opens n ciphertext text h =
        let (body, marshalled, h1) =
          and_then-ok (relabel "failed to marshal decrypt request" (x.marshal_one ciphertext))
            (λ body. and_then (post c n body) read_response) text h in
        let (resp, posted, h2) = and_then-ok (post c n body) read_response text h1 in
        let (raw, got, h3) =
          and_then-ok (relabel "failed to read openbao response" resp.body)
            (read_body resp.status_code) text h2 in
        let (fine, h4) =
          guard-ok (not (resp.status_code == 200)) (refused resp.status_code raw) (parse_body raw)
            text h3 in
        let (r, parsed, h5) =
          and_then-ok (relabel "failed to unmarshal openbao response" (x.read_one raw)) plaintext_of
            text h4 in
        let (clean, same) = unless_errors-ok r.errors r.plaintext text h5 in
        truth.one n ciphertext body raw resp r
          (relabel-ok "failed to marshal decrypt request" (x.marshal_one ciphertext) body
            marshalled)
          (post-ok c n body resp posted) (ground (arith, fine))
          (relabel-ok "failed to read openbao response" resp.body raw got)
          (relabel-ok "failed to unmarshal openbao response" (x.read_one raw) r parsed) clean
        ∙ ap (λ t. some (x.decode_base64 t).0) same

    both-some :
        (items : List BatchDecryptResultItem) (p : String × String)
        → both items ≡ some p
        → (a : BatchDecryptResultItem) × (b : BatchDecryptResultItem) × (items ≡ a ∷ b ∷ [])
          × ((a.error =ₛ "" && b.error =ₛ "") ≡ true)
          × ((a.plaintext, b.plaintext) ≡ p)
    both-some [] p h = cc
    both-some (a ∷ []) p h = cc
    both-some (a ∷ b ∷ []) p h =
        let (clean, same) =
          if-some (a.error =ₛ "" && b.error =ₛ "") (some (a.plaintext, b.plaintext)) p h in
        (a, b, refl, clean, some_inj (a.plaintext, b.plaintext) p same)
    both-some (a ∷ b ∷ i ∷ items) p h = cc

    batch_results-some :
        (q : Result BatchDecryptResponse) (p : String × String)
        → batch_results q ≡ some p
        → (r : BatchDecryptResponse) × (q ≡ ok r) × (both r.batch_results ≡ some p)
    batch_results-some (err e) p h = cc
    batch_results-some (ok r) p h = (r, refl, h)

    batch_answer-some :
        (q : Result Response) (p : String × String)
        → batch_answer q ≡ some p
        → (resp : Response) × (q ≡ ok resp)
          × ((resp.status_code == 200) ≡ true)
          × (batch_results (x.decode_batch resp.body) ≡ some p)
    batch_answer-some (err e) p h = cc
    batch_answer-some (ok resp) p h =
        let (fine, rest) =
          if-some (resp.status_code == 200) (batch_results (x.decode_batch resp.body)) p h in
        (resp, refl, fine, rest)

    batch_body-some :
        (m : Result String) (p : String × String)
        → batch_body c m ≡ some p
        → (body : String) × (m ≡ ok body) × (batch_answer (post c 0 body) ≡ some p)
    batch_body-some (err e) p h = cc
    batch_body-some (ok body) p h = (body, refl, h)

    -- What a batch answers is what it asked for.
    pub batch-opens :
        (key sec : String) (p : String × String)
        → batch c key sec ≡ some p
        → (opening key ≡ some (x.decode_base64 p.0).0)
          × (opening sec ≡ some (x.decode_base64 p.1).0)
    unfolding batch
    batch-opens key sec p h =
        let (body, marshalled, h1) = batch_body-some (x.marshal_batch (key ∷ sec ∷ [])) p h in
        let (resp, posted, fine, h2) = batch_answer-some (post c 0 body) p h1 in
        let (r, parsed, h3) = batch_results-some (x.decode_batch resp.body) p h2 in
        let (a, b, items, clean, same) = both-some r.batch_results p h3 in
        let (opened_key, opened_sec) =
          truth.two key sec body resp r a b marshalled (post-ok c 0 body resp posted) fine parsed
            items clean in
        (
          opened_key ∙ ap (λ q. some (x.decode_base64 q.0).0) same,
          opened_sec ∙ ap (λ q. some (x.decode_base64 q.1).0) same,
        )

    decoded-ok : (d : Bytes × Option Error) (bs : Bytes) → (decoded d).0 ≡ ok bs → d.0 ≡ bs
    decoded-ok (cs, none) bs h = ok_inj cs bs h
    decoded-ok (cs, some e) bs h = cc

    decode_fetched-opens :
        (n : ℕ) (ciphertext : String) (r : Result String) (bs : Bytes)
        → fetch c n ciphertext ≡ r
        → (decode_fetched r).0 ≡ ok bs
        → opening ciphertext ≡ some bs
    decode_fetched-opens n ciphertext (err e) bs h g = cc
    decode_fetched-opens n ciphertext (ok text) bs h g =
        fetch-opens n ciphertext text h ∙ ap some (decoded-ok (x.decode_base64 text) bs g)

    unguarded :
        (b : Bool) (e : Error) (d : Result Bytes × List Bytes) (bs : Bytes)
        → (if b then (err e, []) else d).0 ≡ ok bs
        → d.0 ≡ ok bs
    unguarded true e d bs h = cc
    unguarded false e d bs h = h

    pub decrypt-opens :
        (n : ℕ) (ciphertext : String) (bs : Bytes)
        → (decrypt c n ciphertext).0 ≡ ok bs
        → opening ciphertext ≡ some bs
    unfolding decrypt
    decrypt-opens n ciphertext bs h =
        decode_fetched-opens n ciphertext (fetch c n ciphertext) bs refl (
          unguarded (trim_space ciphertext =ₛ "") (sentinel Sentinel.empty_ciphertext)
            (decode_fetched (fetch c n ciphertext)) bs h)
