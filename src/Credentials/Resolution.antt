-- ===== src/Credentials/Resolution.antt =====
-- backend/domain/credential_registry.py: the registry that is loaded has no secret twice, so that a
-- key finds its credential wherever it is listed.
use goat_ai.Prelude.{
  String, false, ◌≡◌, ◌↔◌, ◌≢◌, refl, sym, ◌∙◌, subst, ◌⊎◌, inl, inr, some, List, [], ◌∷◌, arith,
  str_eq, eq_iff, member, Option-cases,
}
use goat_ai.Prelude.Text.Strip.{strip}
use goat_ai.Credentials.{
  Python, Result, value_error, ok, Settings, ApiCredential, checked_entry, load_entry, load_each,
  load_api_credentials, find_credential, resolve_credential,
}

-- A credential is one of a list.
abbrev pub IsOneOf : ApiCredential → List ApiCredential → Type 0
IsOneOf c [] = ⊥
IsOneOf c (x ∷ credentials) = (x ≡ c) ⊎ IsOneOf c credentials

-- No secret hash is listed twice, nor one that was seen before.
abbrev pub HasNewSecrets : List String → List ApiCredential → Type 0
HasNewSecrets seen [] = Unit
HasNewSecrets seen (c ∷ credentials) =
    (member c.secret_sha256 seen ≡ false) × HasNewSecrets (c.secret_sha256 ∷ seen) credentials

IsOneOf-member :
    (seen : List String) (c : ApiCredential) (credentials : List ApiCredential)
    → HasNewSecrets seen credentials
    → IsOneOf c credentials
    → member c.secret_sha256 seen ≡ false
IsOneOf-member seen c [] fresh listed = absurd listed
IsOneOf-member seen c (x ∷ credentials) (new, fresh) (inl e) = rw (sym e) new
IsOneOf-member seen c (x ∷ credentials) (new, fresh) (inr listed) =
    let h = IsOneOf-member (x.secret_sha256 ∷ seen) c credentials fresh listed in ground arith

-- hmac.compare_digest tells whether two texts are equal.
abbrev pub ComparesTexts : {J : Type 0} → Python J → Type 0
ComparesTexts python = (a b : String) → python.compare_digest a b ≡ str_eq a b

Result-cases :
    {A : Type 0} (r : Result A) → ((m : String) × (r ≡ value_error m)) ⊎ ((a : A) × (r ≡ ok a))
Result-cases (value_error message) = inl (message, refl)
Result-cases (ok a) = inr (a, refl)

ok_inj : {A : Type 0} (a b : A) → ok a ≡ ok b → a ≡ b
ok_inj a b e = cc

module _ {J : Type 0} (python : Python J) where
  find_credential-IsOneOf :
      (digest : String) (c : ApiCredential) (credentials : List ApiCredential)
      → ComparesTexts python
      → find_credential python digest credentials ≡ some c
      → IsOneOf c credentials × (c.secret_sha256 ≡ digest) × (c.status ≡ "active")
  unfolding find_credential
  find_credential-IsOneOf digest c [] compares e = cc
  find_credential-IsOneOf digest c (x ∷ credentials) compares e =
      let same = compares x.secret_sha256 digest in
      ground (
        arith,
        find_credential-IsOneOf digest c credentials compares,
        eq_iff x.secret_sha256 digest,
        eq_iff x.status "active",
      )

  IsOneOf-find_credential :
      (digest : String) (seen : List String) (c : ApiCredential) (credentials : List ApiCredential)
      → ComparesTexts python
      → HasNewSecrets seen credentials
      → IsOneOf c credentials
      → c.secret_sha256 ≡ digest
      → c.status ≡ "active"
      → find_credential python digest credentials ≡ some c
  unfolding find_credential
  IsOneOf-find_credential digest seen c [] compares fresh listed h active = absurd listed
  IsOneOf-find_credential digest seen c (x ∷ credentials) compares (new, fresh) (inl e) h active =
      let same = compares c.secret_sha256 digest in
      rw (e, find_credential)
        (ground (arith, eq_iff c.secret_sha256 digest, eq_iff c.status "active"))
  IsOneOf-find_credential digest seen c (x ∷ credentials) compares (new, fresh) (inr listed) h
        active =
      let same = compares x.secret_sha256 digest in
      let other = IsOneOf-member (x.secret_sha256 ∷ seen) c credentials fresh listed in
      let rest =
        IsOneOf-find_credential digest (x.secret_sha256 ∷ seen) c credentials compares fresh listed
          h active in
      ground (arith, eq_iff x.secret_sha256 digest, eq_iff c.secret_sha256 x.secret_sha256)

  load_entry-member :
      (ids seen : List String) (raw : J) (c : ApiCredential)
      → load_entry python ids seen raw ≡ ok c
      → member c.secret_sha256 seen ≡ false
  unfolding load_entry checked_entry
  load_entry-member ids seen raw c e = ground arith

  load_each-HasNewSecrets :
      (ids seen : List String) (payload : List J) (credentials : List ApiCredential)
      → load_each python ids seen payload ≡ ok credentials
      → HasNewSecrets seen credentials
  unfolding load_each
  load_each-HasNewSecrets ids seen [] credentials e = ground arith
  load_each-HasNewSecrets ids seen (raw ∷ payload) credentials e =
      let all = raw ∷ payload in
      elim (Result-cases (load_entry python ids seen raw)) [
        | inl (m, bad) ↦
            let refused : load_each python ids seen all ≡ value_error m =
              rw (bad, load_each) refl in
            cc (e, refused)
        | inr (c, entry) ↦
            let ids' = c.credential_id ∷ ids in
            let seen' = c.secret_sha256 ∷ seen in
            elim (Result-cases (load_each python ids' seen' payload)) [
              | inl (m, bad) ↦
                  let refused : load_each python ids seen all ≡ value_error m =
                    rw (entry, load_each) (rw bad refl) in
                  cc (e, refused)
              | inr (rest, loaded) ↦
                  let listed : load_each python ids seen all ≡ ok (c ∷ rest) =
                    rw (entry, load_each) (rw loaded refl) in
                  subst (HasNewSecrets seen) (ok_inj (c ∷ rest) credentials (sym listed ∙ e)) (
                    load_entry-member ids seen raw c entry,
                    load_each-HasNewSecrets ids' seen' payload rest loaded,
                  )
            ]
      ]

  load_api_credentials-HasNewSecrets :
      (settings : Settings) (credentials : List ApiCredential)
      → strip settings.api_credentials_json ≢ ""
      → load_api_credentials python settings ≡ ok credentials
      → HasNewSecrets [] credentials
  unfolding load_api_credentials
  load_api_credentials-HasNewSecrets settings credentials given e =
      let raw = strip settings.api_credentials_json in
      elim (Option-cases (python.loads raw)) [
        | inl e' ↦ ground (arith, eq_iff raw "")
        | inr (payload, e') ↦ elim (Option-cases (python.as_list payload)) [
          | inl m ↦ ground (arith, eq_iff raw "")
          | inr (entries, m) ↦
              ground (arith, eq_iff raw "", load_each-HasNewSecrets [] [] entries credentials)
        ]
      ]

  -- Where the settings hold a registry that loads, a key resolves to a credential exactly if that
  -- credential is listed, anywhere in the registry, with the hash of the key and as active. The
  -- comparison of digests is assumed to tell whether they are equal.
  pub resolve_credential-IsOneOf_iff :
      (settings : Settings) (credentials : List ApiCredential) (key : String) (c : ApiCredential)
      → ComparesTexts python
      → strip settings.api_credentials_json ≢ ""
      → load_api_credentials python settings ≡ ok credentials
      → (resolve_credential python key settings ≡ ok (some c))
        ↔ (IsOneOf c credentials × (c.secret_sha256 ≡ python.sha256 key) × (c.status ≡ "active"))
  unfolding resolve_credential
  resolve_credential-IsOneOf_iff settings credentials key c compares given e =
      let fresh = load_api_credentials-HasNewSecrets settings credentials given e in
      let digest = python.sha256 key in
      rw (e, resolve_credential)
        (
          λ found. find_credential-IsOneOf digest c credentials compares (cc found),
          λ (listed, same, active).
              rw (IsOneOf-find_credential digest [] c credentials compares fresh listed same active)
                refl,
        )
