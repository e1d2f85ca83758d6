-- ===== src/SourceCredentials/Candidates.antt =====
-- The stored credential that may serve a source (analystwatch/source_credentials.py).
use analyst_watch.Prelude.{
  String, false, not, ◌≡◌, ◌∙◌, ap, Option, none, some, is_some, ◌==◌, eq_iff, arith, subst,
}
use analyst_watch.Result.{ok, require-ok, bind-ok, same_ok}
use analyst_watch.Models.{SourceDefinition}
use analyst_watch.Credentials.{
  Library, Keyring, same_provider, MemoryCredentialStore, lookup, get_credential,
}
use analyst_watch.Credentials.Revocation.{same_provider-eq}
use analyst_watch.Refreshing.Returns.{get_credential-found}
use analyst_watch.SourceCredentials.{
  source_provider, found, aware_now, Resolver, Candidate, find_candidate,
}

found-ok {ℓ} : {A : Type ℓ} (o : Option A) (m : String) (a : A) → found o m ≡ ok a → o ≡ some a
found-ok none m a h = absurd (ground arith)
found-ok (some b) m a h = ap some (same_ok b a h)

module _ (lib : Library) (r : Resolver lib) (source : SourceDefinition) where
  -- A credential that may serve the source, as it is stored.
  pub record IsCandidate (credential_id : String) (store : MemoryCredentialStore)
      (c : Candidate lib) : Type 0 where
    pub workspace : source.workspace_id ≡ r.workspace_id
    pub provider : source_provider source.source_type ≡ some c.provider
    pub stored : lookup r.workspace_id credential_id store ≡ some c.stored
    pub same : c.stored.provider ≡ c.provider
    pub live : is_some c.stored.revoked_at ≡ false
    pub time : aware_now r.now ≡ ok c.now
    pub ring : r.load_keyring ≡ some c.ring

  pub find_candidate-IsCandidate :
      (credential_id : String) (store : MemoryCredentialStore) (c : Candidate lib)
      → find_candidate lib r source credential_id store ≡ ok c
      → IsCandidate credential_id store c
  unfolding find_candidate
  find_candidate-IsCandidate credential_id store c h =
      let (a, h1) = require-ok (source.workspace_id == r.workspace_id) _ _ c h in
      let (p, b, h2) = bind-ok (found (source_provider source.source_type) _) _ c h1 in
      let (answer, d, h3) = bind-ok (get_credential store r.workspace_id credential_id) _ c h2 in
      let (stored, e, h4) = bind-ok (found answer _) _ c h3 in
      let (f, h5) = require-ok (same_provider stored.provider p) _ _ c h4 in
      let (g, h6) = require-ok (not (is_some stored.revoked_at)) _ _ c h5 in
      let (now, k, h7) = bind-ok (aware_now r.now) _ c h6 in
      let (ring, l, h8) =
        bind-ok (found r.load_keyring _)
          (λ (x : Keyring lib). ok (record { stored = stored; provider = p; now = now; ring = x }))
          c h7 in
      let same : record { stored = stored; provider = p; now = now; ring = ring } ≡ c =
        same_ok _ c h8 in
      subst (IsCandidate credential_id store) same (record {
        workspace = ground (arith, eq_iff source.workspace_id r.workspace_id);
        provider = found-ok (source_provider source.source_type) _ p b;
        stored =
            get_credential-found r.workspace_id credential_id store stored
              (d ∙ ap ok (found-ok answer _ stored e));
        same = same_provider-eq stored.provider p f;
        live = ground arith;
        time = k;
        ring = found-ok r.load_keyring _ ring l;
      })
