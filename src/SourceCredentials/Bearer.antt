-- ===== src/SourceCredentials/Bearer.antt =====
-- The token that a source is read with (analystwatch/source_credentials.py).
use analyst_watch.Prelude.{
  String, false, ◌≡◌, refl, sym, ◌∙◌, ap, Option, none, some, [], ◌∷◌, inl, inr, Bool-cases,
  is_some, arith, concat, subst,
}
use analyst_watch.Result.{Result, ok, err, require-ok, bind-ok, caught, caught-ok, same_ok}
use analyst_watch.Models.{Instant, DateTime, naive, aware, SourceDefinition}
use analyst_watch.Credentials.{
  Library, IsLibrary, ProviderCredentialRecord, MemoryCredentialStore, lookup, unseal_access_token,
}
use analyst_watch.Credentials.Revocation.{Succeeds, same_some}
use analyst_watch.Refreshing.{Provider, is_fresh, refresh_provider_credential_if_expired}
use analyst_watch.Refreshing.Steps.{IsFresh, HasExpired, is_fresh-IsFresh, is_fresh-HasExpired}
use analyst_watch.Refreshing.Renewal.{IsOutcome, refresh-IsOutcome}
use analyst_watch.SourceCredentials.{
  source_provider, aware_now, not_unsealed, not_refreshed, Resolver, Candidate, find_candidate,
  refresh_with, usable, bearer, present, resolve_candidate, resolve_id, resolve,
}
use analyst_watch.SourceCredentials.Candidates.{find_candidate-IsCandidate}

aware_now-aware : (t : DateTime) (now : Instant) → aware_now t ≡ ok now → t ≡ aware now
aware_now-aware (naive s) now h = absurd (ground arith)
aware_now-aware (aware s) now h = ap aware (same_ok s now h)

module _ (lib : Library) (r : Resolver lib) (source : SourceDefinition) where
  -- The record that a source is read with: the stored one, if its access token is known to be
  -- fresh, with the store as it was, or what a refresh by the configured provider made of it, in the
  -- store that the refresh left.
  pub data IsUsed (c : Candidate lib) (current : ProviderCredentialRecord)
      (store last : MemoryCredentialStore) : Type 0 where
    stored_one :
        IsFresh c.stored c.now → c.stored ≡ current → last ≡ store → IsUsed c current store last
    refreshed_one :
        (p : Provider)
        → HasExpired c.stored c.now
        → r.load_provider c.provider ≡ some p
        → Succeeds c.stored current
        → IsOutcome lib c.ring r.nonce r.next_nonce p c.now c.stored current store last
        → IsUsed c current store last

  -- What stands behind a header, by the store before and after: a credential that may serve the
  -- source, the record that is used for it, whose access token is known to be fresh, and the token
  -- that it is unsealed to.
  pub data StandsBehind (header : String) (store last : MemoryCredentialStore) : Type 0 where
    live_credential :
        (credential_id : String) (c : Candidate lib) (current : ProviderCredentialRecord)
        (token : String)
        → source.config.credential_id ≡ some credential_id
        → source.workspace_id ≡ r.workspace_id
        → lookup r.workspace_id credential_id store ≡ some c.stored
        → is_some c.stored.revoked_at ≡ false
        → source_provider source.source_type ≡ some c.stored.provider
        → c.provider ≡ c.stored.provider
        → r.now ≡ aware c.now
        → r.load_keyring ≡ some c.ring
        → IsUsed c current store last
        → IsFresh current c.now
        → unseal_access_token lib current c.ring ≡ ok token
        → header ≡ concat ("Bearer " ∷ token ∷ [])
        → StandsBehind header store last

  module _ (laws : IsLibrary lib) (n : lib.byte_count r.nonce ≡ 12)
      (m : lib.byte_count r.next_nonce ≡ 12) where
    refresh_with-IsUsed :
        (credential_id : String) (c : Candidate lib) (o : Option Provider)
        (store : MemoryCredentialStore) (current : ProviderCredentialRecord)
        → lookup r.workspace_id credential_id store ≡ some c.stored
        → HasExpired c.stored c.now
        → r.load_provider c.provider ≡ o
        → (refresh_with lib r credential_id c o store).0 ≡ ok current
        → IsUsed c current store (refresh_with lib r credential_id c o store).1
    refresh_with-IsUsed credential_id c none store current k x o h = absurd (ground arith)
    refresh_with-IsUsed credential_id c (some p) store current k x o h =
        let (now, old, given, found_old, live, after, outcome) =
          refresh-IsOutcome lib c.ring r.nonce r.next_nonce p laws n m r.workspace_id credential_id
            (aware c.now) store current (caught-ok not_refreshed _ current h) in
        let same : old ≡ c.stored = same_some old c.stored (sym found_old ∙ k) in
        let time : now ≡ c.now = ground arith in
        let last =
          (refresh_provider_credential_if_expired lib c.ring r.nonce r.next_nonce p r.workspace_id
            credential_id (aware c.now) store).1 in
        refreshed_one p x o (subst (λ y. Succeeds y current) same after) (
          subst (λ y. IsOutcome lib c.ring r.nonce r.next_nonce p y c.stored current store last)
            time
            (subst (λ y. IsOutcome lib c.ring r.nonce r.next_nonce p now y current store last) same
              outcome))

    usable-IsUsed :
        (credential_id : String) (c : Candidate lib) (store : MemoryCredentialStore)
        (current : ProviderCredentialRecord)
        → lookup r.workspace_id credential_id store ≡ some c.stored
        → (usable lib r credential_id c store).0 ≡ ok current
        → IsUsed c current store (usable lib r credential_id c store).1
    unfolding usable
    usable-IsUsed credential_id c store current k h = elim (Bool-cases (is_fresh c.stored c.now)) [
      | inl t ↦ rw t (
          stored_one (is_fresh-IsFresh c.stored c.now t) (same_ok c.stored current (rw t at h))
            refl)
      | inr f ↦ rw f (
          refresh_with-IsUsed credential_id c (r.load_provider c.provider) store current k
            (is_fresh-HasExpired c.stored c.now f) refl (rw f at h))
    ]

    present-token :
        (c : Candidate lib) (m : Result ProviderCredentialRecord) (header : String)
        → present lib c m ≡ ok (some header)
        → (current : ProviderCredentialRecord) × (m ≡ ok current)
          × IsFresh current c.now
          × ((token : String) × (unseal_access_token lib current c.ring ≡ ok token)
              × (header ≡ concat ("Bearer " ∷ token ∷ [])))
    unfolding bearer
    present-token c (err e) header h = absurd (ground arith)
    present-token c (ok current) header h =
        let (made, b, h1) = bind-ok (bearer lib c current) (λ x. ok (some x)) (some header) h in
        let (f, h2) = require-ok (is_fresh current c.now) _ _ made b in
        let (token, u, h3) =
          bind-ok (caught not_unsealed (unseal_access_token lib current c.ring))
            (λ x. ok (concat ("Bearer " ∷ x ∷ []))) made h2 in
        let same : made ≡ header = same_some made header (same_ok (some made) (some header) h1) in
        (
          current,
          refl,
          is_fresh-IsFresh current c.now f,
          (
            token,
            caught-ok not_unsealed _ token u,
            sym same ∙ sym (same_ok (concat ("Bearer " ∷ token ∷ [])) made h3),
          ),
        )

    resolve_candidate-StandsBehind :
        (credential_id : String) (found_c : Result (Candidate lib)) (store : MemoryCredentialStore)
        (header : String)
        → source.config.credential_id ≡ some credential_id
        → find_candidate lib r source credential_id store ≡ found_c
        → (resolve_candidate lib r credential_id found_c store).0 ≡ ok (some header)
        → StandsBehind header store (resolve_candidate lib r credential_id found_c store).1
    resolve_candidate-StandsBehind credential_id (err e) store header i q h = absurd (ground arith)
    resolve_candidate-StandsBehind credential_id (ok c) store header i q h =
        let known = find_candidate-IsCandidate lib r source credential_id store c q in
        let (current, g, fresh, (token, u, e)) =
          present-token c (usable lib r credential_id c store).0 header h in
        live_credential credential_id c current token i known.workspace known.stored known.live
          (known.provider ∙ ap some (sym known.same)) (sym known.same)
          (aware_now-aware r.now c.now known.time) known.ring
          (usable-IsUsed credential_id c store current known.stored g) fresh u e

    resolve_id-StandsBehind :
        (id : Option String) (store : MemoryCredentialStore) (header : String)
        → source.config.credential_id ≡ id
        → (resolve_id lib r source id store).0 ≡ ok (some header)
        → StandsBehind header store (resolve_id lib r source id store).1
    resolve_id-StandsBehind none store header i h = absurd (ground arith)
    resolve_id-StandsBehind (some credential_id) store header i h =
        resolve_candidate-StandsBehind credential_id
          (find_candidate lib r source credential_id store) store header i refl h

    -- A header that is resolved for a source is the token of a credential of the resolver's
    -- workspace, which is the source's: the stored credential is not revoked and has the provider of
    -- the source's type, and the record that is used, whose access token is known to expire after the
    -- time of the call, is unsealed to the token. If that holds of the stored record, it is the one
    -- used and the store is as it was; else the one used is what the refresh with the configured
    -- provider made of the stored one, with the same provider and account, and the store is the one
    -- that the refresh left. The nonces of a refresh have 12 bytes.
    pub resolve-StandsBehind :
        (store : MemoryCredentialStore) (header : String)
        → (resolve lib r source store).0 ≡ ok (some header)
        → StandsBehind header store (resolve lib r source store).1
    unfolding resolve
    resolve-StandsBehind store header h =
        resolve_id-StandsBehind source.config.credential_id store header refl h
