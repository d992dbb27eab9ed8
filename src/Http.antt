-- ===== src/Http.antt =====
-- What the HTTP clients take from net/http and share.
use pregao.Prelude.{ℕ, String}
use pregao.Prelude.Int.{ℤ}
use pregao.Errors.{Result}

-- `http.Client`, with its timeout in nanoseconds.
pub record HttpClient : Type 0 where
  pub timeout : ℤ

-- `body` is what `io.ReadAll` reads.
pub record Response : Type 0 where
  pub status_code : ℕ
  pub body : Result String
