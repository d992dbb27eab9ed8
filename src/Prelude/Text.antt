-- ===== src/Prelude/Text.antt =====
-- The text functions of Go's `strings` that the program calls, over the native texts: ToUpper,
-- TrimSpace, EqualFold, TrimRight and Index. Case and space are ASCII's; a code point from 128 on
-- is left as it is.
use Prim.Native.Nat.{◌-◌}
use Prim.Native.Char.{Char, code}
use Prim.Native.String.{String, char_at}
use mathlib.Core.Bool.{Bool, true, ◌&&◌, ◌||◌}
use mathlib.Core.Path.{◌≡◌, refl}
use text.Mathlib.Text.{◌==◌ as str_eq}
use text.Mathlib.TextPositions.{eq_refl}
use pregao.Prelude.Tests.{leb, ◌==◌, if◌then◌else◌}

infix 50 ◌=ₛ◌
abbrev pub ◌=ₛ◌ : String → String → Bool
s =ₛ t = str_eq s t

is_space : Char → Bool
is_space c = (leb 9 (code c) && leb (code c) 13) || code c == 32

upper_char : Char → Char
upper_char c =
    if leb b'a' (code c) && leb (code c) b'z'
    then char_at "ABCDEFGHIJKLMNOPQRSTUVWXYZ" (code c - 97)
    else c

-- `strings.ToUpper`
unfoldable pub to_upper : String → String
unfolding upper_char
to_upper String.[] = ""
to_upper (String.◌∷◌ c s) = String.◌∷◌ (upper_char c) (to_upper s)

-- A text without the spaces at its front.
trim_left : String → String
trim_left String.[] = ""
trim_left (String.◌∷◌ c s) = if is_space c then trim_left s else String.◌∷◌ c s

-- A text without the characters at its end that pass.
unfoldable pub trim_right : (Char → Bool) → String → String
trim_right p String.[] = ""
trim_right p (String.◌∷◌ c s) =
    let rest = trim_right p s in if str_eq rest "" && p c then "" else String.◌∷◌ c rest

-- `strings.TrimSpace`
unfoldable pub trim_space : String → String
unfolding trim_left trim_right is_space
trim_space s = trim_right is_space (trim_left s)

-- `strings.EqualFold`, for ASCII letters.
unfoldable pub equal_fold : String → String → Bool
unfolding to_upper
equal_fold s t = str_eq (to_upper s) (to_upper t)

test_trim : trim_space "  btc usdt\n" ≡ "btc usdt"
unfolding trim_space
test_trim = refl

test_upper : to_upper "btcUsdt-9" ≡ "BTCUSDT-9"
unfolding to_upper
test_upper = refl

pub =ₛ_refl : (s : String) → (s =ₛ s) ≡ true
=ₛ_refl s = eq_refl s
