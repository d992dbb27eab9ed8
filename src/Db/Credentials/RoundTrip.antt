-- ===== src/Db/Credentials/RoundTrip.antt =====
-- What SaveCredentials of internal/db/credentials_repo.go stores is what GetCredentials loads.
use text.Mathlib.TextEquality.{eq_iff}
use pregao.Prelude.{
  true, false, ◌≡◌, refl, ◌∙◌, ap, sym, subst, String, Option, none, some, List, [], ◌∷◌, ◌&&◌,
  arith, find, any, update_if, if◌then◌else◌, Bool-cases, Option-cases, inl, inr,
}
use pregao.Prelude.Text.{◌=ₛ◌, =ₛ_refl}
use pregao.Errors.{Result, ok, err}
use pregao.Db.Models.{BrokerCredential}
use pregao.World.{World, turn, now, IsUp}
use pregao.Db.Credentials.{is_for, overwrite, complete, upsert, get_credentials, save_credentials}

-- The first row that passes, after the rows that pass were overwritten: its ciphertexts are the new.
abbrev pub Carries : BrokerCredential → Option BrokerCredential → Type 0
Carries c none = ⊥
Carries c (some r) =
    (r.api_key_ciphertext ≡ c.api_key_ciphertext)
    × (r.api_secret_ciphertext ≡ c.api_secret_ciphertext)

find-update_if :
    (c : BrokerCredential) (rows : List BrokerCredential)
    → any (is_for c.tenant_id c.provider) rows ≡ true
    → Carries c (
        find
          (is_for c.tenant_id c.provider)
          (update_if (is_for c.tenant_id c.provider) (overwrite c) rows))
find-update_if c [] h = cc
find-update_if c (r ∷ rows) h = elim (Bool-cases (is_for c.tenant_id c.provider r)) [
  | inl here ↦ rw here (rw here (refl, refl))
  | inr later ↦ rw later (rw later (find-update_if c rows (ground arith)))
]

find-update_if-other :
    (c : BrokerCredential) (t p : String) (rows : List BrokerCredential)
    → (c.tenant_id =ₛ t && c.provider =ₛ p) ≡ false
    → find (is_for t p) (update_if (is_for c.tenant_id c.provider) (overwrite c) rows)
      ≡ find (is_for t p) rows
find-update_if-other c t p [] h = refl
find-update_if-other c t p (r ∷ rows) h = elim (Bool-cases (is_for c.tenant_id c.provider r)) [
  | inl here ↦ rw (here, other here) (find-update_if-other c t p rows h)
  | inr not_here ↦
      rw not_here (ap (λ x. if is_for t p r then some r else x) (find-update_if-other c t p rows h))
]
  where
    other : is_for c.tenant_id c.provider r ≡ true → is_for t p r ≡ false
    other here = ground (
      arith,
      eq_iff r.tenant_id c.tenant_id,
      eq_iff r.provider c.provider,
      eq_iff r.tenant_id t,
      eq_iff r.provider p,
      eq_iff c.tenant_id t,
      eq_iff c.provider p,
    )

upsert-Carries :
    (c : BrokerCredential) (rows : List BrokerCredential)
    → Carries c (find (is_for c.tenant_id c.provider) (upsert c rows))
unfolding upsert
upsert-Carries c rows = elim (Bool-cases (any (is_for c.tenant_id c.provider) rows)) [
  | inl held ↦ rw held (find-update_if c rows held)
  | inr new ↦ rw (new, =ₛ_refl c.tenant_id, =ₛ_refl c.provider) (refl, refl)
]

upsert-other :
    (c : BrokerCredential) (t p : String) (rows : List BrokerCredential)
    → (c.tenant_id =ₛ t && c.provider =ₛ p) ≡ false
    → find (is_for t p) (upsert c rows) ≡ find (is_for t p) rows
unfolding upsert
upsert-other c t p rows h = elim (Bool-cases (any (is_for c.tenant_id c.provider) rows)) [
  | inl held ↦ rw held (find-update_if-other c t p rows h)
  | inr new ↦ rw (new, h) refl
]

-- What GetCredentials answers with, if it answers.
abbrev pub loaded : Result BrokerCredential → Option BrokerCredential
loaded (ok c) = some c
loaded (err e) = none

module _ {D : Type 0} where
  get_credentials-found :
      (t p : String) (w : World D)
      → IsUp w.outside
      → loaded (get_credentials t p w).0 ≡ find (is_for t p) w.credentials
  unfolding get_credentials
  get_credentials-found t p w up = elim (Option-cases (find (is_for t p) w.credentials)) [
    | inl missing ↦ rw (up w.step, missing) refl
    | inr (c, found) ↦ rw (up w.step, found) refl
  ]

  save_credentials-upsert :
      (c : BrokerCredential) (w : World D)
      → IsUp w.outside
      → save_credentials c w ≡ (
        ok tt,
        record (turn w) {
          credentials = upsert (complete (w.outside.new_uuid w.step) (now w) c) w.credentials;
        },
      )
  unfolding save_credentials
  save_credentials-upsert c w up = rw (up w.step, save_credentials) refl

  -- When no statement fails: SaveCredentials succeeds; GetCredentials for its tenant and provider
  -- then answers with credentials that have the saved ciphertexts, whether they were there before
  -- or not; and for another tenant or provider it answers with what it answered before.
  pub get_credentials-save_credentials :
      (c : BrokerCredential) (t p : String) (w : World D)
      → IsUp w.outside
      → (c.tenant_id =ₛ t && c.provider =ₛ p) ≡ false
      → let q = (save_credentials c w).1 in
        ((save_credentials c w).0 ≡ ok tt)
        × Carries c (loaded (get_credentials c.tenant_id c.provider q).0)
        × (loaded (get_credentials t p q).0 ≡ loaded (get_credentials t p w).0)
  get_credentials-save_credentials c t p w up differs = rw (save_credentials-upsert c w up) (
    refl,
    subst (Carries c) (sym (get_credentials-found c.tenant_id c.provider q up))
        (upsert-Carries stored w.credentials),
    get_credentials-found t p q up
        ∙ upsert-other stored t p w.credentials differs
        ∙ sym (get_credentials-found t p w up),
  )
    where
      stored : BrokerCredential
      stored = complete (w.outside.new_uuid w.step) (now w) c

      q : World D
      q = record (turn w) { credentials = upsert stored w.credentials }
