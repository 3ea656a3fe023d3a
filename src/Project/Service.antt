-- ===== src/Project/Service.antt =====
-- internal/modules/project/service.go: the check that every operation on a project goes through, the
-- credential of a project, and the attestation of its pentest targets. Audit rows are not modelled. A
-- token is a text of one-byte characters.
use Prim.Native.String.{◌++◌ as append, len, slice}
use text.Mathlib.Text.{find? as find_text}
use guard_pipe.Prelude.{
  ℕ, ◌+◌, ◌-◌, Bool, false, not, ◌&&◌, Option, none, some, if◌then◌else◌, ◌==◌, leb, ltb, is_some,
  String, str_eq,
}
use guard_pipe.Errors.{
  AppError, Result, ok, err, internal_error, fail_with, not_found, validation, forbidden, ◌>>=◌,
  ◌>>◌, refuse_if,
}
use guard_pipe.Domain.Engine.{Actor}
use guard_pipe.Project.Crypto.{Aead, encrypt, decrypt}
use guard_pipe.Project.Store.{
  ProjectRow, TargetRow, Projects, project_by_id, repository_of, credential_of, upsert_credential,
  delete_credential, target_by_id,
}

-- An operation on the rows: what it wrote stays when it fails.
abbrev pub Operation {ℓ} : Type ℓ → Type ℓ
Operation A = Projects → Result A × Projects

abbrev pub project_not_found : AppError
project_not_found = fail_with not_found "project.not_found"

unfoldable pub require_unscoped : Actor → Result (Unit {0})
require_unscoped actor =
    refuse_if (is_some actor.project_id) (fail_with forbidden "project.scoped_session")

-- A session for one shared project, and another project.
abbrev pub is_outside : Option ℕ → ℕ → Bool
is_outside none project = false
is_outside (some own) project = not (own == project)

-- A project of another organisation, or one that the session is not for, reads as not found.
unfoldable pub get_owned_project : Actor → ℕ → Projects → Result ProjectRow
get_owned_project actor project s = elim (project_by_id project s) [
  | none ↦ err project_not_found
  | some p ↦
      refuse_if (not (p.org_id == actor.org_id)) project_not_found
      >> refuse_if (is_outside actor.project_id project) project_not_found
      >> ok p
]

unfoldable pub get_owned_target : Actor → ℕ → Projects → Result TargetRow
get_owned_target actor target s = elim (target_by_id target s) [
  | none ↦ err (fail_with not_found "target.not_found")
  | some t ↦ get_owned_project actor t.project_id s >>= λ _. ok t
]

abbrev pub github_pat : String
github_pat = "github_pat"

abbrev pub dots : String → String → String
dots front token =
    append front
      (append "••••" (if leb (len token) 4 then token else slice token (len token - 4) (len token)))

-- `maskToken`: the prefix of up to four letters, and the last four characters.
unfoldable pub mask_token : String → String
mask_token token = elim (find_text token "_") [
  | none ↦ dots "" token
  | some i ↦
      if ltb 0 i && leb i 4
      then dots (slice token 0 (i + 1)) (slice token (i + 1) (len token))
      else dots "" token
]

-- The token is empty where the project has no credential.
unfoldable pub plaintext_or_empty : Option (Result String) → Result String
plaintext_or_empty none = ok ""
plaintext_or_empty (some (err e)) = err internal_error
plaintext_or_empty (some (ok token)) = ok token

unfoldable pub remove_credential : Actor → ℕ → Operation (Unit {0})
remove_credential actor project s = elim (get_owned_project actor project s) [
  | err e ↦ (err e, s)
  | ok p ↦ (ok tt, delete_credential project github_pat s)
]

module _ (c : Aead) where
  -- `CredentialRepo.GetPlaintext`; none where there is no row
  unfoldable pub get_plaintext : String → ℕ → String → Projects → Option (Result String)
  get_plaintext key project kind s = elim (credential_of project kind s) [
    | none ↦ none
    | some row ↦ some (decrypt c key row.ciphertext row.nonce)
  ]

  -- URL, branch and token, for the worker.
  unfoldable pub get_clone_info : String → ℕ → Projects → Result (String × String × String)
  get_clone_info key project s = elim (repository_of project s) [
    | none ↦ err (fail_with not_found "project.repository_not_found")
    | some repo ↦ plaintext_or_empty (get_plaintext key project github_pat s) >>= λ token.
        ok (repo.url, repo.default_branch, token)
  ]

module _ (c : Aead) (trim : String → String) where
  unfoldable pub check_credential : Actor → ℕ → String → String → Projects → Result ProjectRow
  check_credential actor project kind token s = get_owned_project actor project s >>= λ p.
      refuse_if (not (str_eq kind github_pat)) (fail_with validation "project.invalid_input")
      >> refuse_if (str_eq (trim token) "") (fail_with validation "project.invalid_input")
      >> ok p

  -- The hint, as in the response. `random` is what the random source gives for the nonce.
  unfoldable pub set_credential :
      String → Option String → Actor → ℕ → String → String → Operation String
  set_credential key random actor project kind token s =
      elim (check_credential actor project kind token s >>= λ _.
      encrypt c random key (trim token)) [
        | err e ↦ (err e, s)
        | ok sealed ↦ (
          ok (mask_token (trim token)),
          upsert_credential
              record {
                project_id = project;
                kind = kind;
                ciphertext = sealed.0;
                nonce = sealed.1;
                hint = mask_token (trim token);
                created_by = actor.user_id;
              }
              s,
        )
      ]
