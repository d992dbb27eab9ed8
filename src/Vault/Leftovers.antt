-- ===== src/Vault/Leftovers.antt =====
-- The plaintext that DecryptCredentials leaves in memory beside its answer.
use pregao.Prelude.{
  ℕ, Bool, true, false, ◌≡◌, refl, ap, String, Option, none, some, List, [], All, All-append,
  if◌then◌else◌,
}
use pregao.Prelude.Text.{◌=ₛ◌, trim_space}
use pregao.Errors.{Error, Sentinel, sentinel, Result, ok, err}
use pregao.Vault.Plaintext.{Bytes, PlaintextCredentials, wipe}
use pregao.Vault.Wiped.{IsWiped, wipe-IsWiped}
use pregao.Vault.Transit.{
  OpenBao, TransitWire, fetch, decoded, decode_fetched, decrypt, batch, with_secret, with_key,
  fall_back, from_batch, or_fall_back, decrypt_credentials,
}

module _ ⦃x : TransitWire⦄ (c : OpenBao) (key sec : String) where
  -- The text is a plaintext that the engine answered with, in the batch or to a single request.
  pub data Answered (text : String) : Type 0 where
    batch_key : (q : String) → batch c key sec ≡ some (text, q) → Answered text
    batch_secret : (p : String) → batch c key sec ≡ some (p, text) → Answered text
    single_key : fetch c 1 key ≡ ok text → Answered text
    single_secret : fetch c 2 sec ≡ ok text → Answered text

  -- The reasons for an array to be left: it is wiped; it is what base64 decoded, before an error, of
  -- a text that the engine answered with; or it is one of the plaintexts of a batch of which the
  -- other does not decode.
  pub data Leftover : Bytes → Type 0 where
    wiped : (bs : Bytes) → IsWiped bs → Leftover bs
    cut :
        (text : String) (bs : Bytes) (e : Error)
        → Answered text
        → x.decode_base64 text ≡ (bs, some e)
        → Leftover bs
    of_key :
        (p q : String) (bs : Bytes) (e : Error)
        → batch c key sec ≡ some (p, q)
        → x.decode_base64 p ≡ (bs, none)
        → (x.decode_base64 q).1 ≡ some e
        → Leftover bs
    of_secret :
        (p q : String) (bs : Bytes) (e : Error)
        → batch c key sec ≡ some (p, q)
        → x.decode_base64 q ≡ (bs, none)
        → (x.decode_base64 p).1 ≡ some e
        → Leftover bs

  decoded-Leftover :
      (text : String) (d : Bytes × Option Error)
      → Answered text
      → x.decode_base64 text ≡ d
      → All Leftover (decoded d).1
  decoded-Leftover text (bs, none) a h = tt
  decoded-Leftover text (bs, some e) a h = (cut text bs e a h, tt)

  decode_fetched-Leftover :
      (r : Result String)
      → ((text : String) → r ≡ ok text → Answered text)
      → All Leftover (decode_fetched r).1
  decode_fetched-Leftover (err e) from = tt
  decode_fetched-Leftover (ok text) from =
      decoded-Leftover text (x.decode_base64 text) (from text refl) refl

  guarded-Leftover :
      (b : Bool) (e : Error) (d : Result Bytes × List Bytes)
      → All Leftover d.1
      → All Leftover (if b then (err e, []) else d).1
  guarded-Leftover true e d h = tt
  guarded-Leftover false e d h = h

  decrypt-Leftover :
      (n : ℕ) (ciphertext : String)
      → ((text : String) → fetch c n ciphertext ≡ ok text → Answered text)
      → All Leftover (decrypt c n ciphertext).1
  unfolding decrypt
  decrypt-Leftover n ciphertext from =
      guarded-Leftover (trim_space ciphertext =ₛ "") (sentinel Sentinel.empty_ciphertext)
        (decode_fetched (fetch c n ciphertext))
        (decode_fetched-Leftover (fetch c n ciphertext) from)

  with_secret-Leftover :
      (k : Bytes) (d : Result Bytes × List Bytes)
      → All Leftover d.1
      → All Leftover (with_secret k d).1
  with_secret-Leftover k (err e, left) h = (wiped (wipe k) (wipe-IsWiped k), h)
  with_secret-Leftover k (ok s, left) h = h

  with_key-Leftover :
      (d : Result Bytes × List Bytes) → All Leftover d.1 → All Leftover (with_key c sec d).1
  with_key-Leftover (err e, left) h = h
  with_key-Leftover (ok k, left) h =
      All-append Leftover left (with_secret k (decrypt c 2 sec)).1 h (
        with_secret-Leftover k (decrypt c 2 sec)
          (decrypt-Leftover 2 sec (λ text h. single_secret h)))

  fall_back-Leftover : All Leftover (fall_back c key sec).1
  unfolding fall_back
  fall_back-Leftover =
      with_key-Leftover (decrypt c 1 key) (decrypt-Leftover 1 key (λ text h. single_key h))

  from_batch-Leftover :
      (p q : String) (d e : Bytes × Option Error) (other : Result PlaintextCredentials × List Bytes)
      → batch c key sec ≡ some (p, q)
      → x.decode_base64 p ≡ d
      → x.decode_base64 q ≡ e
      → All Leftover other.1
      → All Leftover (from_batch d e other).1
  from_batch-Leftover p q (k, none) (s, none) other h hp hq rest = tt
  from_batch-Leftover p q (k, none) (s, some f) other h hp hq rest =
      (of_key p q k f h hp (ap (λ z. z.1) hq), (cut q s f (batch_secret p h) hq, rest))
  from_batch-Leftover p q (k, some f) (s, none) other h hp hq rest =
      (cut p k f (batch_key q h) hp, (of_secret p q s f h hq (ap (λ z. z.1) hp), rest))
  from_batch-Leftover p q (k, some f) (s, some g) other h hp hq rest =
      (cut p k f (batch_key q h) hp, (cut q s g (batch_secret p h) hq, rest))

  or_fall_back-Leftover :
      (o : Option (String × String))
      → batch c key sec ≡ o
      → All Leftover (or_fall_back o (fall_back c key sec)).1
  or_fall_back-Leftover none h = fall_back-Leftover
  or_fall_back-Leftover (some (p, q)) h =
      from_batch-Leftover p q (x.decode_base64 p) (x.decode_base64 q) (fall_back c key sec) h refl
        refl fall_back-Leftover

  -- Every plaintext array that DecryptCredentials makes and that is no part of its answer is wiped,
  -- or is what base64 decoded before an error of a text that the engine answered with, in the batch
  -- or to one of the two single requests, or is one of the two plaintexts of a batch whose other
  -- plaintext does not decode.
  pub decrypt_credentials-Leftover : All Leftover (decrypt_credentials c key sec).1
  unfolding decrypt_credentials
  decrypt_credentials-Leftover = or_fall_back-Leftover (batch c key sec) refl
