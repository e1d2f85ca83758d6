-- ===== src/Refreshing/Returns.antt =====
-- Equal records, and the stored record that a refresh finds
-- (analystwatch/credential_refresh.py).
use analyst_watch.Prelude.{
  ℕ, String, Bool, true, ◌≡◌, refl, ap, Option, none, some, List, [], ◌∷◌, ◌==◌, eqb, eq_iff,
  eq_refl, arith,
}
use analyst_watch.Result.{ok, same_ok, bind-ok, ◌>>=◌}
use analyst_watch.Workspaces.{validate_workspace_id, validate_workspace_id-eq}
use analyst_watch.Credentials.{
  ProviderCredentialRecord, EncryptedSecret, ConnectionProvider, microsoft, google, same_provider,
  MemoryCredentialStore, lookup, get_credential, validated_credential_id,
}
use analyst_watch.Credentials.Revocation.{same_provider-eq, validated_credential_id-eq}
use analyst_watch.Refreshing.{same_texts, same_option, same_secret, same_record, found_or}

same_texts_refl : (ss : List String) → same_texts ss ss ≡ true
same_texts_refl [] = refl
same_texts_refl (s ∷ ss) = rw (eq_refl s) (same_texts_refl ss)

same_option_refl {ℓ} :
    {A : Type ℓ} (same : A → A → Bool) (o : Option A)
    → ((a : A) → same a a ≡ true)
    → same_option same o o ≡ true
same_option_refl same none h = refl
same_option_refl same (some a) h = h a

same_provider_refl : (q : ConnectionProvider) → same_provider q q ≡ true
unfolding same_provider
same_provider_refl microsoft = refl
same_provider_refl google = refl

same_secret_refl : (e : EncryptedSecret) → same_secret e e ≡ true
same_secret_refl e = rw (eq_refl e.key_id, eq_refl e.nonce_b64, eq_refl e.ciphertext_b64) refl

eqb_refl : (n : _) → eqb n n ≡ true
eqb_refl n = ground arith

pub same_record_refl : (r : ProviderCredentialRecord) → same_record r r ≡ true
unfolding same_record
same_record_refl r =
    rw
      (
        eq_refl r.credential_id,
        eq_refl r.workspace_id,
        same_provider_refl r.provider,
        eq_refl r.subject_id,
        same_option_refl (◌==◌) r.display_name eq_refl,
        same_option_refl (◌==◌) r.email eq_refl,
        same_texts_refl r.scopes,
        same_secret_refl r.access_token,
        same_option_refl same_secret r.refresh_token same_secret_refl,
        same_option_refl eqb r.access_token_expires_at eqb_refl,
        eqb_refl r.created_at,
        eqb_refl r.updated_at,
        same_option_refl eqb r.revoked_at eqb_refl,
      )
      refl

same_texts-eq : (ss ts : List String) → same_texts ss ts ≡ true → ss ≡ ts
same_texts-eq [] [] h = refl
same_texts-eq [] (t ∷ ts) h = absurd (ground arith)
same_texts-eq (s ∷ ss) [] h = absurd (ground arith)
same_texts-eq (s ∷ ss) (t ∷ ts) h =
    let first : s ≡ t = ground (arith, eq_iff s t) in
    let rest = same_texts-eq ss ts (ground arith) in λ i. first i ∷ rest i

same_option-eq {ℓ} :
    {A : Type ℓ} (same : A → A → Bool) (o p : Option A)
    → ((a b : A) → same a b ≡ true → a ≡ b)
    → same_option same o p ≡ true
    → o ≡ p
same_option-eq same none none f h = refl
same_option-eq same none (some b) f h = absurd (ground arith)
same_option-eq same (some a) none f h = absurd (ground arith)
same_option-eq same (some a) (some b) f h = ap some (f a b h)

text-eq : (a b : String) → (a == b) ≡ true → a ≡ b
text-eq a b h = ground (arith, eq_iff a b)

number-eq : (a b : ℕ) → eqb a b ≡ true → a ≡ b
number-eq a b h = ground arith

same_secret-eq : (a b : EncryptedSecret) → same_secret a b ≡ true → a ≡ b
same_secret-eq a b h =
    let key = text-eq a.key_id b.key_id (ground arith) in
    let nonce = text-eq a.nonce_b64 b.nonce_b64 (ground arith) in
    let cipher = text-eq a.ciphertext_b64 b.ciphertext_b64 (ground arith) in
    λ i. record { key_id = key i; nonce_b64 = nonce i; ciphertext_b64 = cipher i }

pub same_record-eq : (r s : ProviderCredentialRecord) → same_record r s ≡ true → r ≡ s
unfolding same_record
same_record-eq r s h =
    let credential = text-eq r.credential_id s.credential_id (ground arith) in
    let workspace = text-eq r.workspace_id s.workspace_id (ground arith) in
    let provider = same_provider-eq r.provider s.provider (ground arith) in
    let subject = text-eq r.subject_id s.subject_id (ground arith) in
    let name = same_option-eq (◌==◌) r.display_name s.display_name text-eq (ground arith) in
    let email = same_option-eq (◌==◌) r.email s.email text-eq (ground arith) in
    let scopes = same_texts-eq r.scopes s.scopes (ground arith) in
    let access = same_secret-eq r.access_token s.access_token (ground arith) in
    let refresh =
      same_option-eq same_secret r.refresh_token s.refresh_token same_secret-eq (ground arith) in
    let expires =
      same_option-eq eqb r.access_token_expires_at s.access_token_expires_at number-eq
        (ground arith) in
    let created = number-eq r.created_at s.created_at (ground arith) in
    let updated = number-eq r.updated_at s.updated_at (ground arith) in
    let revoked = same_option-eq eqb r.revoked_at s.revoked_at number-eq (ground arith) in
    λ i. record {
      credential_id = credential i;
      workspace_id = workspace i;
      provider = provider i;
      subject_id = subject i;
      display_name = name i;
      email = email i;
      scopes = scopes i;
      access_token = access i;
      refresh_token = refresh i;
      access_token_expires_at = expires i;
      created_at = created i;
      updated_at = updated i;
      revoked_at = revoked i;
    }

pub found_or-ok :
    (o : Option ProviderCredentialRecord) (c : String) (r : ProviderCredentialRecord)
    → found_or o c ≡ ok r
    → o ≡ some r
found_or-ok none c r h = absurd (ground arith)
found_or-ok (some s) c r h = ground arith

pub same_key :
    (w w' c c' : String) (st : MemoryCredentialStore) (r : ProviderCredentialRecord)
    → w ≡ w'
    → c ≡ c'
    → lookup w' c' st ≡ some r
    → lookup w c st ≡ some r
same_key w w' c c' st r e f h = rw (e, f) h

pub get_credential-found :
    (w c : String) (st : MemoryCredentialStore) (r : ProviderCredentialRecord)
    → get_credential st w c ≡ ok (some r)
    → lookup w c st ≡ some r
unfolding get_credential
get_credential-found w c st r h =
    let (w', a, h1) =
      bind-ok (validate_workspace_id w)
        (λ w'. do c' ← validated_credential_id c; ok (lookup w' c' st)) (some r) h in
    let (c', b, h2) =
      bind-ok (validated_credential_id c) (λ c'. ok (lookup w' c' st)) (some r) h1 in
    same_key w w' c c' st r (validate_workspace_id-eq w w' a) (validated_credential_id-eq c c' b)
      (same_ok (lookup w' c' st) (some r) h2)
