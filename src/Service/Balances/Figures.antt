-- ===== src/Service/Balances/Figures.antt =====
-- The two figures that SyncBrokerBalances compares: what each is, by what the broker and the ledger
-- answered.
use pregao.Prelude.{
  subst, true, false, ◌≡◌, refl, sym, ◌∙◌, ◌⊎◌, String, Option, none, some, List, [], ◌∷◌,
  Bool-cases, Option-cases, inl, inr,
}
use pregao.Prelude.Text.{◌=ₛ◌, trim_space}
use pregao.Prelude.Maps.{get_entry}
use pregao.Errors.{Error, ok, err, Result-cases}
use pregao.Decimal.{Decimals, above}
use pregao.Client.Livro.{LivroClient}
use pregao.Service.Balances.{
  SyncBrokerBalancesRequest, fiat_balance, ledger_balance, account_balance,
}

module _ {D : Type 0} ⦃d : Decimals D⦄ where
  -- `b` is the first positive entry among those of the assets; zero if none is positive.
  abbrev pub IsFirstPositive : List (String × D) → List String → D → Type 0
  IsFirstPositive balances [] b = b ≡ d.zero
  IsFirstPositive balances (asset ∷ assets) b =
      ((get_entry asset balances ≡ some b) × (above b d.zero ≡ true))
      ⊎ (((get_entry asset balances ≡ none)
            ⊎ ((bal : D) × (get_entry asset balances ≡ some bal) × (above bal d.zero ≡ false)))
          × IsFirstPositive balances assets b)

  pub fiat_balance-IsFirstPositive :
      (balances : List (String × D)) (assets : List String)
      → IsFirstPositive balances assets (fiat_balance assets balances)
  unfolding fiat_balance
  fiat_balance-IsFirstPositive balances [] = refl
  fiat_balance-IsFirstPositive balances (asset ∷ assets) =
      let rest = fiat_balance-IsFirstPositive balances assets in
      elim (Option-cases (get_entry asset balances)) [
        | inl missing ↦ rw missing (inr (inl refl, rest))
        | inr (bal, found) ↦ elim (Bool-cases (above bal d.zero)) [
          | inl positive ↦ rw (found, positive) (inl (refl, positive))
          | inr other ↦ rw (found, other) (inr (inr (bal, refl, other), rest))
        ]
      ]

  pub IsFirstPositive-fiat_balance :
      (balances : List (String × D)) (assets : List String) (b : D)
      → IsFirstPositive balances assets b
      → b ≡ fiat_balance assets balances
  unfolding fiat_balance
  IsFirstPositive-fiat_balance balances [] b h = h
  IsFirstPositive-fiat_balance balances (asset ∷ assets) b (inl (found, positive)) =
      rw found (rw positive refl)
  IsFirstPositive-fiat_balance balances (asset ∷ assets) b (inr (inl missing, h)) =
      rw missing (IsFirstPositive-fiat_balance balances assets b h)
  IsFirstPositive-fiat_balance balances (asset ∷ assets) b (inr (inr (bal, found, other), h)) =
      rw found (rw other (IsFirstPositive-fiat_balance balances assets b h))

  -- What the ledger gives for an account; zero for none, and where it cannot be asked.
  abbrev pub AccountSays : LivroClient D → String → D → Type 0
  AccountSays livro account l =
      (((account =ₛ "") ≡ true) × (l ≡ d.zero))
      ⊎ (((account =ₛ "") ≡ false) × (livro.get_balance account ≡ ok l))
      ⊎ ((e : Error) × ((account =ₛ "") ≡ false)
          × (livro.get_balance account ≡ err e)
          × (l ≡ d.zero))

  -- The same for the user's account, or for the broker's where the request names no user; zero
  -- without a ledger.
  abbrev pub LedgerSays : Option (LivroClient D) → SyncBrokerBalancesRequest → D → Type 0
  LedgerSays none req l = l ≡ d.zero
  LedgerSays (some livro) req l =
      (((trim_space req.user_id =ₛ "") ≡ false) × AccountSays livro (trim_space req.user_id) l)
      ⊎ ((account : String) × ((trim_space req.user_id =ₛ "") ≡ true)
          × (livro.get_or_create_broker_account req.tenant_id ≡ ok account)
          × AccountSays livro account l)
      ⊎ ((e : Error) × ((trim_space req.user_id =ₛ "") ≡ true)
          × (livro.get_or_create_broker_account req.tenant_id ≡ err e)
          × (l ≡ d.zero))

  account_balance-AccountSays :
      (livro : LivroClient D) (account : String)
      → AccountSays livro account (account_balance livro account)
  account_balance-AccountSays livro account = elim (Bool-cases (account =ₛ "")) [
    | inl blank ↦ inl (blank, rw blank refl)
    | inr named ↦ elim (Result-cases (livro.get_balance account)) [
      | inl (b, got) ↦ inr (inl (named, rw (named, got) refl))
      | inr (e, failed) ↦ inr (inr (e, named, failed, rw (named, failed) refl))
    ]
  ]

  AccountSays-account_balance :
      (livro : LivroClient D) (account : String) (l : D)
      → AccountSays livro account l
      → l ≡ account_balance livro account
  AccountSays-account_balance livro account l (inl (blank, zero)) = rw blank zero
  AccountSays-account_balance livro account l (inr (inl (named, got))) = rw (named, got) refl
  AccountSays-account_balance livro account l (inr (inr (e, named, failed, zero))) =
      rw (named, failed) zero

  ledger_balance-named :
      (livro : LivroClient D) (req : SyncBrokerBalancesRequest)
      → (trim_space req.user_id =ₛ "") ≡ false
      → ledger_balance (some livro) req ≡ account_balance livro (trim_space req.user_id)
  unfolding ledger_balance
  ledger_balance-named livro req named = rw named refl

  pub ledger_balance-LedgerSays :
      (livro : Option (LivroClient D)) (req : SyncBrokerBalancesRequest)
      → LedgerSays livro req (ledger_balance livro req)
  unfolding ledger_balance
  ledger_balance-LedgerSays none req = refl
  ledger_balance-LedgerSays (some livro) req = elim (Bool-cases (trim_space req.user_id =ₛ "")) [
    | inr named ↦
        let user = trim_space req.user_id in
        inl (
          named,
          subst (AccountSays livro user) (sym (ledger_balance-named livro req named))
              (account_balance-AccountSays livro user),
        )
    | inl blank ↦ elim (Result-cases (livro.get_or_create_broker_account req.tenant_id)) [
      | inl (account, got) ↦
          inr
            (inl (account, blank, got, rw (blank, got) (account_balance-AccountSays livro account)))
      | inr (e, failed) ↦ inr (inr (e, blank, failed, rw (blank, failed) refl))
    ]
  ]

  pub LedgerSays-ledger_balance :
      (livro : Option (LivroClient D)) (req : SyncBrokerBalancesRequest) (l : D)
      → LedgerSays livro req l
      → l ≡ ledger_balance livro req
  unfolding ledger_balance
  LedgerSays-ledger_balance none req l h = h
  LedgerSays-ledger_balance (some livro) req l (inl (named, h)) =
      AccountSays-account_balance livro (trim_space req.user_id) l h
      ∙ sym (ledger_balance-named livro req named)
  LedgerSays-ledger_balance (some livro) req l (inr (inl (account, blank, got, h))) =
      rw (blank, got) (AccountSays-account_balance livro account l h)
  LedgerSays-ledger_balance (some livro) req l (inr (inr (e, blank, failed, zero))) =
      rw (blank, failed) zero
