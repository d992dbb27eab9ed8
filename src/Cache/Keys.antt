-- ===== src/Cache/Keys.antt =====
-- The keys of fresh and of stale quotes are all different.
use Prim.Native.String.{◌++◌}
use Prim.Native.Char.{code}
use pregao.Prelude.{ℕ, ◌≡◌, refl, sym, ◌∙◌, ap, false, Bool-cases, inl, inr, String, arith}
use pregao.Prelude.Text.{◌=ₛ◌, to_upper}
use pregao.Broker.{BrokerName, binance, unspecified, provider_name}
use pregao.Cache.Quotes.{fresh_key, stale_key}
use text.Mathlib.TextEquality.{eq_iff}
use text.Mathlib.TextLemmas.{append_cancel_left, append_assoc, cons-append}

-- The code of the first character.
head : String → ℕ
head String.[] = 0
head (String.◌∷◌ c s) = code c

head-append : (s t : String) → (s =ₛ "") ≡ false → head (s ++ t) ≡ head s
unfolding head
head-append String.[] t h = cc
head-append (String.◌∷◌ c s) t h = ap head (cons-append c s t)

upper_name : (b : BrokerName) → to_upper (provider_name b) ≡ "BINANCE"
unfolding provider_name to_upper
upper_name binance = refl
upper_name unspecified = refl

differ : (x y : String) → "pregao:quotes:" ++ "BINANCE" ++ x ≡ "pregao:quotes:stale:" ++ y → ⊥
unfolding head
differ x y h =
    let rest : "BINANCE" ++ x ≡ "stale:" ++ y =
      append_cancel_left "pregao:quotes:" ("BINANCE" ++ x) ("stale:" ++ y)
        (h ∙ append_assoc "pregao:quotes:" "stale:" y) in
    let same = sym (head-append "BINANCE" x refl) ∙ ap head rest ∙ head-append "stale:" y refl in
    ground (arith, same)

pub fresh_stale :
    (b : BrokerName) (a s : String)
    → fresh_key (provider_name b) a ≡ stale_key (provider_name b) s
    → ⊥
unfolding fresh_key stale_key
fresh_stale b a s h =
    differ (":" ++ to_upper a) (to_upper (provider_name b) ++ ":" ++ to_upper s)
      (ap (λ n. "pregao:quotes:" ++ n ++ ":" ++ to_upper a) (sym (upper_name b)) ∙ h)

pub fresh_key_inj :
    (b : BrokerName) (a s : String)
    → fresh_key (provider_name b) a ≡ fresh_key (provider_name b) s
    → to_upper a ≡ to_upper s
unfolding fresh_key
fresh_key_inj b a s h = append_cancel_left ":" (to_upper a) (to_upper s) (
    append_cancel_left (to_upper (provider_name b)) (":" ++ to_upper a) (":" ++ to_upper s)
      (append_cancel_left "pregao:quotes:" _ _ h))

pub stale_key_inj :
    (b : BrokerName) (a s : String)
    → stale_key (provider_name b) a ≡ stale_key (provider_name b) s
    → to_upper a ≡ to_upper s
unfolding stale_key
stale_key_inj b a s h = append_cancel_left ":" (to_upper a) (to_upper s) (
    append_cancel_left (to_upper (provider_name b)) (":" ++ to_upper a) (":" ++ to_upper s)
      (append_cancel_left "pregao:quotes:stale:" _ _ h))

differs : (s t : String) → (s ≡ t → ⊥) → (s =ₛ t) ≡ false
differs s t h = elim (Bool-cases (s =ₛ t)) [
  | inl same ↦ absurd (h ((eq_iff s t).0 same))
  | inr apart ↦ apart
]

module _ (b : BrokerName) where
  pub cross :
      (a s : String) → (stale_key (provider_name b) a =ₛ fresh_key (provider_name b) s) ≡ false
  cross a s = differs _ _ λ h. fresh_stale b s a (sym h)

  pub cross' :
      (a s : String) → (fresh_key (provider_name b) a =ₛ stale_key (provider_name b) s) ≡ false
  cross' a s = differs _ _ (fresh_stale b a s)

  -- Upper-case symbols that differ have keys that differ.
  module _ (a s : String) (ua : to_upper a ≡ a) (us : to_upper s ≡ s)
      (apart : (a =ₛ s) ≡ false) where
    unequal : to_upper a ≡ to_upper s → ⊥
    unequal h = let same = (eq_iff a s).1 (sym ua ∙ h ∙ us) in cc

    pub fresh_apart : (fresh_key (provider_name b) a =ₛ fresh_key (provider_name b) s) ≡ false
    fresh_apart = differs _ _ λ h. unequal (fresh_key_inj b a s h)

    pub stale_apart : (stale_key (provider_name b) a =ₛ stale_key (provider_name b) s) ≡ false
    stale_apart = differs _ _ λ h. unequal (stale_key_inj b a s h)
