-- ===== src/Refreshing/Renewal.antt =====
-- What a refresh that returns has done to the stored credential (analystwatch/credential_refresh.py).
use analyst_watch.Prelude.{
  String, true, false, ◌≡◌, refl, sym, ◌∙◌, ap, Option, none, some, ◌⊎◌, inl, inr, Bool-cases,
  is_some, eq_iff, arith, subst,
}
use analyst_watch.Result.{ok, caught-ok, same_ok, Result-cases}
use analyst_watch.Models.{Instant, DateTime, aware}
use analyst_watch.Credentials.{
  Library, IsLibrary, Keyring, ProviderCredentialRecord, aware_option, unseal, unseal_access_token,
  unseal_refresh_token, validate_credential_replacement, MemoryCredentialStore, lookup, assign,
  upsert, check_replacement,
}
use analyst_watch.Credentials.Revocation.{Succeeds, Succeeds-refl, replacement-Succeeds}
use analyst_watch.Credentials.Unsealing.{seal-expires, unseal-seal_provider_credential}
use analyst_watch.Refreshing.Returns.{same_record_refl, same_record-eq}
use analyst_watch.Refreshing.{
  TokenSet, Identity, Provider, not_connected, token_or, request_of, same_record, write_replacement,
  decide_refresh, refresh_provider_credential_if_expired,
}
use analyst_watch.Refreshing.Steps.{IsFresh, HasExpired, IsRenewal, IsUpdate, decide_refresh-found}

upsert-ok :
    (s r : ProviderCredentialRecord) (st : MemoryCredentialStore)
    → (upsert s st).0 ≡ ok r
    → (s ≡ r) × ((upsert s st).1 ≡ assign s.workspace_id s.credential_id s st)
unfolding upsert
upsert-ok s r st h =
    elim (Result-cases (check_replacement (lookup s.workspace_id s.credential_id st) s)) [
      | inl (u, k) ↦ (same_ok s r (rw (upsert, k) at h), rw (upsert, k) refl)
      | inr (e, k) ↦ absurd (let g = rw (upsert, k) at h in ground arith)
    ]

validated-key :
    (r s : ProviderCredentialRecord)
    → validate_credential_replacement r s ≡ ok tt
    → (s.workspace_id ≡ r.workspace_id) × (s.credential_id ≡ r.credential_id)
unfolding validate_credential_replacement
validated-key r s h = (
  ground (arith, eq_iff r.workspace_id s.workspace_id),
  ground (arith, eq_iff r.credential_id s.credential_id),
)

module _ (lib : Library) (ring : Keyring lib) (nonce next_nonce : lib.Bytes) (p : Provider) where
  -- While the access token of the stored record is known to be fresh, that record is returned and
  -- the store is as it was. Afterwards the provider has answered the refresh token of the stored
  -- record with new tokens, the account of the new access token is that of the record, and the record
  -- that is returned expires with it and is unsealed to it and to the new refresh token, or to the
  -- one sent if there is no new one; it takes the place of the stored one, if they are not the same.
  pub data IsOutcome (now : Instant) (old r : ProviderCredentialRecord)
      (st last : MemoryCredentialStore) : Type 0 where
    kept : IsFresh old now → old ≡ r → last ≡ st → IsOutcome now old r st last
    replaced :
        (token : String) (tokens : TokenSet) (identity : Identity)
        → HasExpired old now
        → unseal_refresh_token lib old ring ≡ ok (some token)
        → p.exchange token ≡ ok tokens
        → p.identity tokens.access ≡ some identity
        → identity.subject_id ≡ r.subject_id
        → is_some tokens.expires_at ≡ true
        → r.access_token_expires_at ≡ tokens.expires_at
        → unseal_access_token lib r ring ≡ ok tokens.access
        → unseal_refresh_token lib r ring ≡ ok (some (token_or tokens.refresh token))
        → (last ≡ assign old.workspace_id old.credential_id r st) ⊎ ((old ≡ r) × (last ≡ st))
        → IsOutcome now old r st last

  renewed-expires :
      (now : Instant) (old s : ProviderCredentialRecord)
      (i : IsRenewal lib ring nonce next_nonce p now old s)
      → s.access_token_expires_at ≡ i.tokens.expires_at
  renewed-expires now old s i =
      subst (λ x. x.access_token_expires_at ≡ i.tokens.expires_at) i.renewed
        (expiry i.tokens.expires_at i.made.access_token_expires_at (
          seal-expires lib ring nonce next_nonce (request_of old i.tokens i.identity i.token now)
            i.made i.sealed))
    where
      expiry :
          (e m : Option Instant)
          → aware_option (elim e [ none ↦ none | some t ↦ some (aware t) ]) ≡ ok m
          → m ≡ e
      expiry none m h = sym (same_ok none m h)
      expiry (some t) m h = sym (same_ok (some t) m h)

  module _ (laws : IsLibrary lib) (n : lib.byte_count nonce ≡ 12)
      (m : lib.byte_count next_nonce ≡ 12) where
    renewed-IsOutcome :
        (now : Instant) (old s : ProviderCredentialRecord) (st last : MemoryCredentialStore)
        → HasExpired old now
        → IsRenewal lib ring nonce next_nonce p now old s
        → old.subject_id ≡ s.subject_id
        → (last ≡ assign old.workspace_id old.credential_id s st) ⊎ ((old ≡ s) × (last ≡ st))
        → IsOutcome now old s st last
    unfolding unseal_access_token unseal_refresh_token unseal
    renewed-IsOutcome now old s st last x i same_account written =
        let (a, b) =
          unseal-seal_provider_credential lib laws ring ring nonce next_nonce
            (request_of old i.tokens i.identity i.token now) i.made i.sealed n m refl in
        replaced i.token i.tokens i.identity x i.stored i.answered i.identified
          (i.account ∙ same_account) i.expiring (renewed-expires now old s i)
          (subst (λ x. unseal_access_token lib x ring ≡ ok i.tokens.access) i.renewed a)
          (subst
            (λ x. unseal_refresh_token lib x ring ≡ ok (some (token_or i.tokens.refresh i.token)))
            i.renewed b)
          written

    write_replacement-IsOutcome :
        (now : Instant) (old s r : ProviderCredentialRecord) (st : MemoryCredentialStore)
        → IsUpdate lib ring nonce next_nonce p now old s
        → (write_replacement (ok (old, s)) st).0 ≡ ok r
        → Succeeds old r × IsOutcome now old r st (write_replacement (ok (old, s)) st).1
    unfolding write_replacement
    write_replacement-IsOutcome now old s r st (inl (fresh, e)) h =
        let same : same_record s old ≡ true = rw e (same_record_refl s) in
        let k : old ≡ r = same_ok old r (rw same at h) in
        rw same (rw (← k) (Succeeds-refl old, kept fresh refl refl))
    write_replacement-IsOutcome now old s r st (inr (x, i)) h =
        elim (Bool-cases (same_record s old)) [
          | inl t ↦
              let k : old ≡ r = same_ok old r (rw t at h) in
              let e : s ≡ r = same_record-eq s old t ∙ k in
              let same : old ≡ s = sym (same_record-eq s old t) in
              rw t (
                subst (λ y. Succeeds old y × IsOutcome now old y st st) e
                  (
                    subst (Succeeds old) same (Succeeds-refl old),
                    renewed-IsOutcome now old s st st x i (ap (λ y. y.subject_id) same)
                        (inr (same, refl)),
                  ))
          | inr f ↦ elim (Result-cases (validate_credential_replacement old s)) [
            | inr (e, v) ↦ absurd (let g = rw (f, v) at h in ground arith)
            | inl (u, v) ↦
                let (same, written) = upsert-ok s r st (rw (f, v) at h) in
                let (ew, ec) = validated-key old s v in
                let after = replacement-Succeeds old s v in
                rw (f, v, written)
                  (subst
                    (λ y.
                      Succeeds old y
                      × IsOutcome now old y st (assign s.workspace_id s.credential_id s st))
                    same
                    (
                      after,
                      renewed-IsOutcome now old s st (assign s.workspace_id s.credential_id s st) x
                          i (sym after.subject_id) (inl (rw (ew, ec) refl)),
                    ))
          ]
        ]

    -- A refresh that returns was given an aware time and found a stored credential that is not
    -- revoked, and returns a record of the same provider, account and creation that is not older. If
    -- the stored access token is known to expire after that time, it is the stored record and the
    -- store is as it was. Else the provider exchanged the stored refresh token and said that the new
    -- access token is of that account; the record expires with the new access token, which it is
    -- unsealed to, as it is to the new refresh token, or the one sent if there is no new one; and it
    -- took the place of the stored record, unless it is the same. The nonces of the encryption have
    -- 12 bytes.
    pub refresh-IsOutcome :
        (w c : String) (t : DateTime) (st : MemoryCredentialStore) (r : ProviderCredentialRecord)
        → (refresh_provider_credential_if_expired lib ring nonce next_nonce p w c t st).0 ≡ ok r
        → (now : Instant) × (old : ProviderCredentialRecord) × (t ≡ aware now)
          × (lookup w c st ≡ some old)
          × (is_some old.revoked_at ≡ false)
          × Succeeds old r
          × IsOutcome now old r st
              (refresh_provider_credential_if_expired lib ring nonce next_nonce p w c t st).1
    unfolding refresh_provider_credential_if_expired write_replacement
    refresh-IsOutcome w c t st r h =
        let returned =
          caught-ok not_connected
            (write_replacement (decide_refresh lib ring nonce next_nonce p w c t st) st).0 r h in
        elim (Result-cases (decide_refresh lib ring nonce next_nonce p w c t st)) [
          | inr (e, d) ↦ absurd (let g = rw (d, write_replacement) at returned in ground arith)
          | inl ((old, s), d) ↦
              let (now, given, found, live, made) =
                decide_refresh-found lib ring nonce next_nonce p w c t st old s d in
              let g : (write_replacement (ok (old, s)) st).0 ≡ ok r = rw d at returned in
              let (after, outcome) = write_replacement-IsOutcome now old s r st made g in
              (now, old, given, found, live, after, rw d outcome)
        ]
