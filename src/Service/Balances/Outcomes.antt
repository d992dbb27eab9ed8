-- ===== src/Service/Balances/Outcomes.antt =====
-- What SyncBrokerBalances answers, and what it leaves.
use pregao.Prelude.{
  Bool, true, false, ◌≡◌, refl, sym, ◌∙◌, ap, subst, ◌↔◌, String, Option, none, some, List,
  Bool-cases, inl, inr, arith,
}
use pregao.Prelude.Text.{◌=ₛ◌, trim_space}
use pregao.Errors.{Sentinel, Result, ok, err, reply, errors_is, reply_inj}
use pregao.Decimal.{Decimals, DecimalLaws, is_zero}
use pregao.Client.Livro.{LivroClient}
use pregao.Vault.{PlaintextCredentials, arrays_of, zero_credentials}
use pregao.Vault.Wiped.{AllWiped, map-wipe-IsWiped}
use pregao.Db.Models.{BrokerCredential}
use pregao.Db.Credentials.{get_credentials}
use pregao.World.{World, turn, IsAlone}
use pregao.Service.Server.{PregaoServer, resolve_provider}
use pregao.Service.Balances.Figures.{
  IsFirstPositive, LedgerSays, fiat_balance-IsFirstPositive, IsFirstPositive-fiat_balance,
  ledger_balance-LedgerSays, LedgerSays-ledger_balance,
}
use pregao.Service.Execute.{hold_secrets, zero_newest}
use pregao.Service.Balances.{
  SyncBrokerBalancesRequest, SyncBrokerBalancesResponse, fiat_assets, fiat_balance, ledger_balance,
  ask_ledger, adjustment, on_balances, on_plaintext, on_credential, sync_broker_balances,
}

same_truth : (a b : Bool) → (a ≡ true) ↔ (b ≡ true) → a ≡ b
same_truth a b h = ground (arith, h)

module _ {D : Type 0} ⦃d : Decimals D⦄ where
  -- Neither table has changed.
  abbrev pub KeepsRows : World D → World D → Type 0
  KeepsRows w q = (q.orders ≡ w.orders) × (q.credentials ≡ w.credentials)

  ask_ledger-KeepsRows :
      (livro : Option (LivroClient D)) (req : SyncBrokerBalancesRequest) (w : World D)
      → KeepsRows w (ask_ledger livro req w)
  unfolding ask_ledger
  ask_ledger-KeepsRows none req w = (refl, refl)
  ask_ledger-KeepsRows (some livro) req w = ground arith

  on_balances-KeepsRows :
      (s : PregaoServer D) (req : SyncBrokerBalancesRequest) (x : Result (List (String × D)))
      (w : World D)
      → KeepsRows w (on_balances s req x w).1
  unfolding on_balances
  on_balances-KeepsRows s req (err e) w = (refl, refl)
  on_balances-KeepsRows s req (ok balances) w = ask_ledger-KeepsRows s.livro_client req w

  on_balances-secrets :
      (s : PregaoServer D) (req : SyncBrokerBalancesRequest) (x : Result (List (String × D)))
      (w : World D)
      → (on_balances s req x w).1.secrets ≡ w.secrets
  unfolding on_balances ask_ledger
  on_balances-secrets s req (err e) w = refl
  on_balances-secrets s req (ok balances) w = ground arith

  on_plaintext-leaves :
      (s : PregaoServer D) (req : SyncBrokerBalancesRequest) (x : Result PlaintextCredentials)
      (w : World D)
      → AllWiped w.secrets
      → AllWiped (on_plaintext s req x w).1.secrets × KeepsRows w (on_plaintext s req x w).1
  unfolding on_plaintext zero_credentials
  on_plaintext-leaves s req (err e) w h = (h, (refl, refl))
  on_plaintext-leaves s req (ok creds) w h = (
    subst (λ x. AllWiped (zero_newest creds x))
        (sym (
          on_balances-secrets s req (s.broker_client.get_account_balances creds)
            (hold_secrets creds w)))
        (map-wipe-IsWiped (arrays_of creds), h),
    on_balances-KeepsRows s req (s.broker_client.get_account_balances creds) (hold_secrets creds w),
  )

  on_credential-leaves :
      (s : PregaoServer D) (req : SyncBrokerBalancesRequest) (x : Result BrokerCredential)
      (w : World D)
      → AllWiped w.secrets
      → AllWiped (on_credential s req (x, w)).1.secrets × KeepsRows w (on_credential s req (x, w)).1
  unfolding on_credential
  on_credential-leaves s req (err e) w h = (h, (refl, refl))
  on_credential-leaves s req (ok cred) w h = on_plaintext-leaves s req _ w h

  -- With no other request between, and with the plaintext credentials that the vault client
  -- returned to the request before wiped, or none: when SyncBrokerBalances returns, on any path,
  -- every byte of all those that it has returned is zero, and both tables are as they were.
  pub sync_broker_balances-IsWiped :
      (s : PregaoServer D) (req : SyncBrokerBalancesRequest) (w : World D)
      → IsAlone w.outside
      → AllWiped w.secrets
      → AllWiped (sync_broker_balances s req w).1.secrets
        × KeepsRows w (sync_broker_balances s req w).1
  unfolding sync_broker_balances get_credentials
  sync_broker_balances-IsWiped s req w alone h =
      elim (Bool-cases (trim_space req.tenant_id =ₛ "")) [
        | inl blank ↦ rw blank (h, (refl, refl))
        | inr named ↦
            let provider = resolve_provider s req.provider in
            let (wiped, kept) =
              on_credential-leaves s req (get_credentials req.tenant_id provider w).0 (turn w) h in
            rw named (wiped, (kept.0 ∙ alone w.step w.orders, kept.1))
      ]

  -- A zero difference is an equality.
  module _ (laws : DecimalLaws D) where
    is_zero-sub : (x y : D) → (is_zero (d.sub x y) ≡ true) ↔ (x ≡ y)
    is_zero-sub x y = (
      λ h. laws.sub_zero_iff x y (laws.compare_eq (d.sub x y) d.zero (ground arith)),
      λ e.
          subst (λ z. is_zero (d.sub x z) ≡ true) e
            (rw (laws.sub_self x) (rw (laws.compare_refl d.zero, is_zero) refl)),
    )

  -- What a reply of SyncBrokerBalances rests on, and what it says.
  abbrev pub Reported :
      PregaoServer D → SyncBrokerBalancesRequest → World D → SyncBrokerBalancesResponse → Type 0
  Reported s req w resp =
      (cred : BrokerCredential) × (creds : PlaintextCredentials) × (balances : List (String × D))
      × ((get_credentials req.tenant_id (resolve_provider s req.provider) w).0 ≡ ok cred)
      × (s.vault_client.decrypt_credentials cred.api_key_ciphertext cred.api_secret_ciphertext
          ≡ ok creds)
      × (s.broker_client.get_account_balances creds ≡ ok balances)
      × (fiat : D) × (ledger : D) × IsFirstPositive balances fiat_assets fiat
      × LedgerSays s.livro_client req ledger
      × ((resp.in_sync ≡ true) ↔ (fiat ≡ ledger))
      × (resp.net_fiat_adjustment ≡ d.show_fixed (d.sub fiat ledger) 4)

  on_balances-reply :
      (s : PregaoServer D) (req : SyncBrokerBalancesRequest) (x : Result (List (String × D)))
      (w : World D) (resp : SyncBrokerBalancesResponse)
      → (on_balances s req x w).0 ≡ reply resp
      → (balances : List (String × D)) × (x ≡ ok balances)
        × (adjustment (fiat_balance fiat_assets balances) (ledger_balance s.livro_client req)
            ≡ resp)
  unfolding on_balances
  on_balances-reply s req (err e) w resp h = cc
  on_balances-reply s req (ok balances) w resp h = (balances, refl, reply_inj _ resp h)

  on_plaintext-reply :
      (s : PregaoServer D) (req : SyncBrokerBalancesRequest) (x : Result PlaintextCredentials)
      (w : World D) (resp : SyncBrokerBalancesResponse)
      → (on_plaintext s req x w).0 ≡ reply resp
      → (creds : PlaintextCredentials) × (balances : List (String × D)) × (x ≡ ok creds)
        × (s.broker_client.get_account_balances creds ≡ ok balances)
        × (adjustment (fiat_balance fiat_assets balances) (ledger_balance s.livro_client req)
            ≡ resp)
  unfolding on_plaintext
  on_plaintext-reply s req (err e) w resp h = cc
  on_plaintext-reply s req (ok creds) w resp h =
      let (balances, found, same) =
        on_balances-reply s req (s.broker_client.get_account_balances creds) (hold_secrets creds w)
          resp h in
      (creds, balances, refl, found, same)

  on_credential-reply :
      (s : PregaoServer D) (req : SyncBrokerBalancesRequest) (x : Result BrokerCredential)
      (w : World D) (resp : SyncBrokerBalancesResponse)
      → (on_credential s req (x, w)).0 ≡ reply resp
      → (cred : BrokerCredential) × (creds : PlaintextCredentials) × (balances : List (String × D))
        × (x ≡ ok cred)
        × (s.vault_client.decrypt_credentials cred.api_key_ciphertext cred.api_secret_ciphertext
            ≡ ok creds)
        × (s.broker_client.get_account_balances creds ≡ ok balances)
        × (adjustment (fiat_balance fiat_assets balances) (ledger_balance s.livro_client req)
            ≡ resp)
  unfolding on_credential
  on_credential-reply s req (err e) w resp h =
      elim (Bool-cases (errors_is e Sentinel.credentials_not_found)) [
        | inl missing ↦ absurd (ground (arith, h))
        | inr other ↦ absurd (ground (arith, h))
      ]
  on_credential-reply s req (ok cred) w resp h =
      let (creds, balances, opened, found, same) = on_plaintext-reply s req _ w resp h in
      (cred, creds, balances, refl, opened, found, same)

  sync_broker_balances-Reported :
      (s : PregaoServer D) (req : SyncBrokerBalancesRequest) (w : World D)
      (resp : SyncBrokerBalancesResponse)
      → DecimalLaws D
      → (sync_broker_balances s req w).0 ≡ reply resp
      → ((trim_space req.tenant_id =ₛ "") ≡ false) × Reported s req w resp
  unfolding sync_broker_balances adjustment
  sync_broker_balances-Reported s req w resp laws h =
      elim (Bool-cases (trim_space req.tenant_id =ₛ "")) [
        | inl blank ↦ absurd (ground (arith, h))
        | inr named ↦
            let x = get_credentials req.tenant_id (resolve_provider s req.provider) w in
            let (cred, creds, balances, loaded, opened, found, same) =
              on_credential-reply s req x.0 x.1 resp (rw named at h) in
            let agree =
              is_zero-sub laws (fiat_balance fiat_assets balances)
                (ledger_balance s.livro_client req) in
            (
              named,
              (
                cred,
                creds,
                balances,
                loaded,
                opened,
                found,
                fiat_balance fiat_assets balances,
                ledger_balance s.livro_client req,
                fiat_balance-IsFirstPositive balances fiat_assets,
                ledger_balance-LedgerSays s.livro_client req,
                subst
                    (λ b.
                      (b ≡ true)
                      ↔ (fiat_balance fiat_assets balances ≡ ledger_balance s.livro_client req))
                    (ap (λ x. x.in_sync) same) agree,
                sym (ap (λ x. x.net_fiat_adjustment) same),
              ),
            )
      ]

  adjusted :
      (laws : DecimalLaws D) (fiat ledger : D) (resp : SyncBrokerBalancesResponse)
      → ((resp.in_sync ≡ true) ↔ (fiat ≡ ledger))
      → resp.net_fiat_adjustment ≡ d.show_fixed (d.sub fiat ledger) 4
      → adjustment fiat ledger ≡ resp
  unfolding adjustment
  adjusted laws fiat ledger resp agree net =
      let zero = is_zero-sub laws fiat ledger in
      ap (λ b. record { in_sync = b; net_fiat_adjustment = d.show_fixed (d.sub fiat ledger) 4 })
        (same_truth (is_zero (d.sub fiat ledger)) resp.in_sync
          (λ h. agree.1 (zero.0 h), λ h. zero.1 (agree.0 h)))
      ∙ ap (λ n. record { in_sync = resp.in_sync; net_fiat_adjustment = n }) (sym net)

  -- The broker's balances at the end of the way make the reply.
  answers :
      (s : PregaoServer D) (req : SyncBrokerBalancesRequest) (w : World D)
      (resp : SyncBrokerBalancesResponse) (laws : DecimalLaws D)
      → (trim_space req.tenant_id =ₛ "") ≡ false
      → Reported s req w resp
      → (sync_broker_balances s req w).0 ≡ reply resp
  unfolding sync_broker_balances on_credential on_plaintext on_balances adjustment
  answers s req w resp laws named
        (cred, creds, balances, loaded, opened, found, fiat, ledger, first, says, agree, net) =
      let x = get_credentials req.tenant_id (resolve_provider s req.provider) w in
      let q = hold_secrets creds x.1 in
      rw named (
        ap (λ r. (on_credential s req (r, x.1)).0) loaded
        ∙ ap (λ r. (on_plaintext s req r x.1).0) opened
        ∙ ap (λ r. (on_balances s req r q).0) found
        ∙ ap (λ b. reply (adjustment b (ledger_balance s.livro_client req)))
            (sym (IsFirstPositive-fiat_balance balances fiat_assets fiat first))
        ∙ ap (λ l. reply (adjustment fiat l))
            (sym (LedgerSays-ledger_balance s.livro_client req ledger says))
        ∙ ap reply (adjusted laws fiat ledger resp agree net))

  -- With exact decimals: SyncBrokerBalances replies with a response exactly when the tenant is not
  -- blank, its credentials are found and decrypt, the broker gives its balances, and the response
  -- says that it is in sync exactly when two figures are equal, and prints their difference to four
  -- places. The first is the first positive balance among USDT, USD, BUSD and USDC, or zero. The
  -- second is what the ledger gives for the user's account, or for the broker's where the request
  -- names no user; it is zero without a ledger, without an account, and also where the ledger
  -- fails.
  pub sync_broker_balances_iff :
      (s : PregaoServer D) (req : SyncBrokerBalancesRequest) (w : World D)
      (resp : SyncBrokerBalancesResponse)
      → DecimalLaws D
      → ((sync_broker_balances s req w).0 ≡ reply resp)
        ↔ (((trim_space req.tenant_id =ₛ "") ≡ false) × Reported s req w resp)
  sync_broker_balances_iff s req w resp laws = (
    sync_broker_balances-Reported s req w resp laws,
    λ (named, r). answers s req w resp laws named r,
  )
