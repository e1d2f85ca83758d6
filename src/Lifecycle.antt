-- ===== src/Lifecycle.antt =====
-- analystwatch/connection_lifecycle.py: what a connection shows of its credential. What the
-- provider answers to the check and to the identity request are arguments; guidance, a text, is
-- left out.
use analyst_watch.Prelude.{
  ℕ, Bool, true, false, ◌||◌, ◌&&◌, String, ◌==◌, Option, none, some, eqb, if◌then◌else◌, ◌≡◌, refl,
  ◌⊎◌, inl, inr, Bool-cases, arith,
}
use analyst_watch.Credentials.{ConnectionProvider}
use analyst_watch.Refreshing.{Identity}

pub data CredentialLifecycleState : Type 0 where
  needs_credential rejected unavailable identity_unverified verified : CredentialLifecycleState

pub data CredentialNextAction : Type 0 where
  configure reconnect retry review_scopes no_action : CredentialNextAction

-- What the code uses of `ConnectionCheck`.
pub record ConnectionCheck : Type 0 where
  pub configured : Bool
  pub reachable : Bool
  pub http_status : Option ℕ

-- What the code uses of `ConnectionDiscoveryError`.
pub record DiscoveryError : Type 0 where
  pub code : String
  pub http_status : Option ℕ

-- The identity that the loader returns, or the error that it raises.
pub data Loaded : Type 0 where
  identified : Identity → Loaded
  failed : DiscoveryError → Loaded

pub record CredentialLifecycle : Type 0 where
  pub provider : ConnectionProvider
  pub state : CredentialLifecycleState
  pub next_action : CredentialNextAction
  pub configured : Bool
  pub reachable : Bool
  pub identity_verified : Bool
  pub http_status : Option ℕ
  pub identity : Option Identity

-- `http_status in {401, 403}`
abbrev pub is_refusal : Option ℕ → Bool
is_refusal none = false
is_refusal (some status) = eqb status 401 || eqb status 403

abbrev pub after_failure : DiscoveryError → CredentialNextAction
after_failure e =
    if e.code == "provider_rejected" && is_refusal e.http_status then review_scopes else retry

abbrev pub reached : ConnectionProvider → ConnectionCheck → Loaded → CredentialLifecycle
reached provider check (identified identity) = record {
  provider = provider;
  state = verified;
  next_action = no_action;
  configured = true;
  reachable = true;
  identity_verified = true;
  http_status = check.http_status;
  identity = some identity;
}
reached provider check (failed e) = record {
  provider = provider;
  state = identity_unverified;
  next_action = after_failure e;
  configured = true;
  reachable = true;
  identity_verified = false;
  http_status = e.http_status;
  identity = none;
}

abbrev pub unreached : ConnectionProvider → ConnectionCheck → CredentialLifecycle
unreached provider check = record {
  provider = provider;
  state = if is_refusal check.http_status then rejected else unavailable;
  next_action = if is_refusal check.http_status then reconnect else retry;
  configured = true;
  reachable = false;
  identity_verified = false;
  http_status = check.http_status;
  identity = none;
}

abbrev pub unconfigured : ConnectionProvider → CredentialLifecycle
unconfigured provider = record {
  provider = provider;
  state = needs_credential;
  next_action = configure;
  configured = false;
  reachable = false;
  identity_verified = false;
  http_status = none;
  identity = none;
}

-- `_derive_credential_lifecycle`
unfoldable pub derive_credential_lifecycle :
    ConnectionProvider → ConnectionCheck → Loaded → CredentialLifecycle
derive_credential_lifecycle provider check loaded =
    if check.configured
    then if check.reachable then reached provider check loaded else unreached provider check
    else unconfigured provider

-- The flags of a lifecycle are those of its state, and the next action is the one for it.
pub data Shows : CredentialLifecycle → Type 0 where
  missing :
      (l : CredentialLifecycle)
      → l.state ≡ needs_credential
      → l.next_action ≡ configure
      → l.configured ≡ false
      → l.reachable ≡ false
      → l.identity ≡ none
      → Shows l
  refused :
      (l : CredentialLifecycle)
      → l.state ≡ rejected
      → l.next_action ≡ reconnect
      → l.configured ≡ true
      → l.reachable ≡ false
      → is_refusal l.http_status ≡ true
      → l.identity ≡ none
      → Shows l
  unanswered :
      (l : CredentialLifecycle)
      → l.state ≡ unavailable
      → l.next_action ≡ retry
      → l.reachable ≡ false
      → is_refusal l.http_status ≡ false
      → l.identity ≡ none
      → Shows l
  unidentified :
      (l : CredentialLifecycle)
      → l.state ≡ identity_unverified
      → (l.next_action ≡ retry)
        ⊎ ((l.next_action ≡ review_scopes) × (is_refusal l.http_status ≡ true))
      → l.reachable ≡ true
      → l.identity ≡ none
      → Shows l
  known :
      (l : CredentialLifecycle) (identity : Identity)
      → l.state ≡ verified
      → l.next_action ≡ no_action
      → l.reachable ≡ true
      → l.identity ≡ some identity
      → Shows l

-- Every lifecycle that is derived shows one of the five states with the flags, the action and the
-- identity that belong to it.
pub derive_credential_lifecycle-Shows :
    (provider : ConnectionProvider) (check : ConnectionCheck) (loaded : Loaded)
    → Shows (derive_credential_lifecycle provider check loaded)
unfolding derive_credential_lifecycle
derive_credential_lifecycle-Shows provider check loaded = elim (Bool-cases check.configured) [
  | inr f ↦ rw f (missing _ refl refl refl refl refl)
  | inl t ↦ elim (Bool-cases check.reachable) [
    | inl u ↦ rw (t, u) (shown loaded)
    | inr g ↦ elim (Bool-cases (is_refusal check.http_status)) [
      | inl v ↦ rw (t, g, v) (refused _ refl refl refl refl v refl)
      | inr w ↦ rw (t, g, w) (unanswered _ refl refl refl w refl)
    ]
  ]
]
  where
    shown : (l : Loaded) → Shows (reached provider check l)
    shown (identified identity) = known _ identity refl refl refl refl
    shown (failed e) = unidentified _ refl (action e) refl refl
      where
        action :
            (e : DiscoveryError)
            → (after_failure e ≡ retry)
              ⊎ ((after_failure e ≡ review_scopes) × (is_refusal e.http_status ≡ true))
        action e = elim (Bool-cases (e.code == "provider_rejected" && is_refusal e.http_status)) [
          | inl t ↦ inr (rw t refl, ground arith)
          | inr f ↦ inl (rw f refl)
        ]
