-- ===== src/Client/Livro/Account.antt =====
-- Which clearing account GetOrCreateBrokerAccount answers with.
use pregao.Prelude.{
  true, false, ◌≡◌, refl, sym, ◌∙◌, ◌↔◌, ◌⊎◌, inl, inr, String, Option, none, some, Bool,
  if◌then◌else◌, some_inj, ap, subst,
}
use pregao.Prelude.Text.{◌=ₛ◌}
use pregao.Errors.{Result, ok, err, ok_inj}
use pregao.Client.Livro.Grpc.{
  AccountResponse, Account, LedgerServiceClient, account_id, given_id, initialize_request,
  account_lookup, or_empty, on_lookup, or_lookup, on_initialize, get_or_create_broker_account,
}

-- A call gave an account with an id.
abbrev pub Gives : Result (Option AccountResponse) → String → Type 0
Gives r id = (r ≡ ok (some (record { account = some (record { id = id }) }))) × ((id =ₛ "") ≡ false)

given_id-some : (a id : String) → given_id a ≡ some id → ((a =ₛ "") ≡ false) × (a ≡ id)
given_id-some a id h = go (a =ₛ "") h
  where
    go : (b : Bool) → (if b then none else some a) ≡ some id → (b ≡ false) × (a ≡ id)
    go true g = cc
    go false g = (refl, some_inj a id g)

given_id-Gives :
    (a : Account) (id : String)
    → given_id a.id ≡ some id
    → Gives (ok (some (record { account = some a }))) id
given_id-Gives a id h =
    let (named, same) = given_id-some a.id id h in
    (
      ap (λ i. ok (some (record { account = some (record { id = i }) }))) same,
      subst (λ i. (i =ₛ "") ≡ false) same named,
    )

account_id-Gives :
    (r : Option AccountResponse) (id : String) → account_id r ≡ some id → Gives (ok r) id
unfolding account_id
account_id-Gives none id h = cc
account_id-Gives (some r) id h = go r.account h
  where
    go :
        (a : Option Account)
        → elim a as (λ _. Option String) [ none ↦ none | some b ↦ given_id b.id ] ≡ some id
        → Gives (ok (some (record { account = a }))) id
    go none g = cc
    go (some a) g = given_id-Gives a id g

Gives-account_id :
    (r : Option AccountResponse) (id : String) → Gives (ok r) id → account_id r ≡ some id
unfolding account_id
Gives-account_id r id (given, named) =
    ap account_id (ok_inj r (some (record { account = some (record { id = id }) })) given)
    ∙ rw named refl

or_empty-ok : (o : Option String) (id : String) → or_empty o ≡ ok id → o ≡ some id
or_empty-ok none id h = cc
or_empty-ok (some a) id h = ap some (ok_inj a id h)

on_lookup_iff :
    (r : Result (Option AccountResponse)) (id : String) → (on_lookup r ≡ ok id) ↔ Gives r id
on_lookup_iff (err e) id = (λ h. cc, λ g. absurd (let h = g.0 in cc))
on_lookup_iff (ok a) id = (
  λ h. account_id-Gives a id (or_empty-ok (account_id a) id h),
  λ g. ap or_empty (Gives-account_id a id g),
)

-- The first call gives no account with an id.
abbrev pub GivesNone : Result (Option AccountResponse) → Type 0
GivesNone r = (id : String) → ¬ Gives r id

on_initialize_iff :
    (i r : Result (Option AccountResponse)) (id : String)
    → (on_initialize i (on_lookup r) ≡ ok id) ↔ (Gives i id ⊎ (GivesNone i × Gives r id))
on_initialize_iff (err e) r id = (
  λ h. inr (λ other g. absurd (let f = g.0 in cc), (on_lookup_iff r id).0 h),
  λ s. elim s [ inl g ↦ absurd (let f = g.0 in cc) | inr (void, g) ↦ (on_lookup_iff r id).1 g ],
)
on_initialize_iff (ok a) r id = go (account_id a) refl
  where
    go :
        (o : Option String)
        → account_id a ≡ o
        → (or_lookup o (on_lookup r) ≡ ok id) ↔ (Gives (ok a) id ⊎ (GivesNone (ok a) × Gives r id))
    go none found = (
      λ h.
          inr (
            λ other g. absurd (let f = Gives-account_id a other g in cc),
            (on_lookup_iff r id).0 h,
          ),
      λ s. elim s [
        | inl g ↦ absurd (let f = Gives-account_id a id g in cc)
        | inr (void, g) ↦ (on_lookup_iff r id).1 g
      ],
    )
    go (some b) found = (
      λ h. inl (account_id-Gives a id (found ∙ ap some (ok_inj b id h))),
      λ s. elim s [
        | inl g ↦ ap ok (some_inj b id (sym found ∙ Gives-account_id a id g))
        | inr (void, g) ↦ absurd (void b (account_id-Gives a b found))
      ],
    )

-- GetOrCreateBrokerAccount answers with an id exactly when InitializeAccount gave an account of
-- that id, which is not empty, or InitializeAccount gave no account with an id and GetAccount gave
-- one of that id, which is not empty.
pub get_or_create_broker_account_iff :
    (c : LedgerServiceClient) (tenant id : String)
    → (get_or_create_broker_account c tenant ≡ ok id) ↔ (
        Gives (c.initialize_account (initialize_request tenant)) id
        ⊎ (GivesNone (c.initialize_account (initialize_request tenant))
            × Gives (c.get_account (account_lookup tenant)) id))
unfolding get_or_create_broker_account
get_or_create_broker_account_iff c tenant id =
    on_initialize_iff (c.initialize_account (initialize_request tenant))
      (c.get_account (account_lookup tenant)) id
