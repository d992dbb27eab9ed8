-- ===== src/Uuid.antt =====
-- What the program uses of github.com/google/uuid: an interface. A UUID is a number, and 0 is
-- `uuid.Nil`.
use pregao.Prelude.{ℕ, ◌≡◌, String}
use pregao.Errors.{Result, ok}

-- `Parse` and `String`.
pub record Uuids : Type 0 where
  pub parse : String → Result ℕ
  pub show : ℕ → String

-- What is printed reads back.
abbrev pub IsRoundTrip : Uuids → Type 0
IsRoundTrip u = (n : ℕ) → u.parse (u.show n) ≡ ok n
