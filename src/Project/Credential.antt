-- ===== src/Project/Credential.antt =====
-- internal/modules/project/service.go: what SetCredential stores is what a worker clones with.
use Prim.Native.String.{len}
use guard_pipe.Prelude.{
  ℕ, ◌≡◌, refl, ap, ◌∙◌, Bool, true, false, List, [], ◌∷◌, ◌++◌, some, if◌then◌else◌, ◌==◌, ==_refl,
  any, map, find?, String, str_eq, eq_iff, Bool-cases, inl, inr, arith,
}
use guard_pipe.Errors.{ok}
use guard_pipe.Domain.Engine.{Actor}
use guard_pipe.Project.Crypto.{Aead, Opens, key_size, nonce_size, encrypt, decrypt, encrypt-decrypt}
use guard_pipe.Project.Store.{
  ProjectRow, RepositoryRow, CredentialRow, Projects, repository_of, is_credential, credential_of,
  upsert_credential,
}
use guard_pipe.Project.Service.{
  get_owned_project, github_pat, mask_token, get_plaintext, check_credential, set_credential,
  plaintext_or_empty, get_clone_info,
}

find?-replaced :
    (p : CredentialRow → Bool) (row : CredentialRow) (rows : List CredentialRow)
    → p row ≡ true
    → any p rows ≡ true
    → find? p (map (λ c. if p c then row else c) rows) ≡ some row
find?-replaced p row [] own hit = absurd (ground (arith, hit))
find?-replaced p row (r ∷ rs) own hit = elim (Bool-cases (p r)) [
  | inl same ↦ rw (same, own) refl
  | inr other ↦ rw (other, other) (find?-replaced p row rs own (rw other at hit))
]

find?-added :
    (p : CredentialRow → Bool) (row : CredentialRow) (rows : List CredentialRow)
    → p row ≡ true
    → any p rows ≡ false
    → find? p (rows ++ (row ∷ [])) ≡ some row
find?-added p row [] own new = rw own refl
find?-added p row (r ∷ rs) own new = elim (Bool-cases (p r)) [
  | inl same ↦ absurd (ground (arith, new, same))
  | inr other ↦ rw other (find?-added p row rs own (rw other at new))
]

is_credential_self : (row : CredentialRow) → is_credential row.project_id row.kind row ≡ true
is_credential_self row = rw (==_refl row.project_id, (eq_iff row.kind row.kind).1 refl) refl

credential_of-upsert :
    (row : CredentialRow) (s : Projects)
    → credential_of row.project_id row.kind (upsert_credential row s) ≡ some row
unfolding credential_of upsert_credential
credential_of-upsert row s =
    let conflicts = is_credential row.project_id row.kind in
    elim (Bool-cases (any conflicts s.credentials)) [
      | inl old ↦ rw old (find?-replaced conflicts row s.credentials (is_credential_self row) old)
      | inr new ↦ rw new (find?-added conflicts row s.credentials (is_credential_self row) new)
    ]

abbrev stored_row : Aead → (String → String) → String → String → Actor → ℕ → String → CredentialRow
stored_row c trim key nonce actor project token = record {
  project_id = project;
  kind = github_pat;
  ciphertext = c.seal key nonce (trim token);
  nonce = nonce;
  hint = mask_token (trim token);
  created_by = actor.user_id;
}

set_credential_done :
    (c : Aead) (trim : String → String) (key nonce : String) (actor : Actor) (project : ℕ)
    (token : String) (s : Projects) (p : ProjectRow)
    → get_owned_project actor project s ≡ ok p
    → str_eq (trim token) "" ≡ false
    → encrypt c (some nonce) key (trim token) ≡ ok (c.seal key nonce (trim token), nonce)
    → set_credential c trim key (some nonce) actor project github_pat token s ≡ (
      ok (mask_token (trim token)),
      upsert_credential (stored_row c trim key nonce actor project token) s,
    )
unfolding set_credential check_credential
set_credential_done c trim key nonce actor project token s p owned full sealed =
    rw (owned, full, sealed, set_credential, check_credential) refl

get_clone_info_stored :
    (c : Aead) (key : String) (project : ℕ) (s : Projects) (row : CredentialRow)
    (repo : RepositoryRow) (token : String)
    → repository_of project s ≡ some repo
    → credential_of project github_pat s ≡ some row
    → decrypt c key row.ciphertext row.nonce ≡ ok token
    → get_clone_info c key project s ≡ ok (repo.url, repo.default_branch, token)
unfolding get_clone_info get_plaintext plaintext_or_empty
get_clone_info_stored c key project s row repo token attached stored opened =
    rw (attached, stored, opened, get_clone_info, get_plaintext) refl

-- A token that the owner of a project sets, trimmed, is the one that a worker then clones its
-- repository with, whatever was stored before: for a cipher that opens what it sealed, a key and a nonce
-- of the sizes of AES-256-GCM, and a token that is not empty. The answer is the token's masked form.
pub set_credential-clone_info :
    (c : Aead) (trim : String → String) (key nonce : String) (actor : Actor) (project : ℕ)
    (token : String) (s : Projects) (p : ProjectRow) (repo : RepositoryRow)
    → Opens c
    → (len key == key_size) ≡ true
    → (len nonce == nonce_size) ≡ true
    → get_owned_project actor project s ≡ ok p
    → repository_of project s ≡ some repo
    → str_eq (trim token) "" ≡ false
    → let written = set_credential c trim key (some nonce) actor project github_pat token s in
      (written.0 ≡ ok (mask_token (trim token)))
      × (get_clone_info c key project written.1 ≡ ok (repo.url, repo.default_branch, trim token))
unfolding upsert_credential repository_of
set_credential-clone_info c trim key nonce actor project token s p repo opens whole sized owned
      attached full =
    let codes = encrypt-decrypt c opens key nonce (trim token) whole sized in
    let row = stored_row c trim key nonce actor project token in
    let done = set_credential_done c trim key nonce actor project token s p owned full codes.0 in
    (
      ap (λ r. r.0) done,
      ap (λ r. get_clone_info c key project r.1) done
          ∙ get_clone_info_stored c key project (upsert_credential row s) row repo (trim token)
              attached (credential_of-upsert row s) codes.1,
    )
