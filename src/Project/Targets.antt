-- ===== src/Project/Targets.antt =====
-- internal/modules/project/service.go: registering, attesting and revoking pentest targets. The display name of the
-- response is not modelled: a failure to read it comes after the writes.
use guard_pipe.Prelude.{
  ℕ, suc, List, map, Bool, not, none, some, if◌then◌else◌, find?, is_some, String, str_eq,
}
use guard_pipe.Errors.{
  AppError, unprocessable, Result, ok, err, internal_error, fail_with, not_found, validation, ◌>>=◌,
  ◌>>◌, refuse_if,
}
use guard_pipe.Domain.Engine.{Actor}
use guard_pipe.Project.Store.{
  awaiting_attestation, attested, revoked, TargetRow, insert_target, Projects, target_by_id,
  set_target_status, insert_attestation, targets_of,
}
use guard_pipe.Validate.Address.{unmap}
use guard_pipe.Validate.Target.{
  TargetError, malformed, TargetResolution, refused, resolved, NameServer, Network, resolve_target,
}
use guard_pipe.Project.Service.{Operation, get_owned_project, get_owned_target}

-- `translateTargetError`
unfoldable pub translate_target_error : TargetError → AppError
translate_target_error malformed = fail_with validation "target.invalid_input"
translate_target_error _ = fail_with unprocessable "target.blocked_address"

-- What the answer of a write is, with the row that was to be written.
abbrev pub written : TargetRow → Result (Unit {0}) × Projects → Result TargetRow × Projects
written t (err e, s) = (err internal_error, s)
written t (ok _, s) = (ok t, s)

abbrev pub new_target : Network → ℕ → ℕ → ℕ → String → TargetResolution → TargetRow
new_target net i now project input r = record {
  id = i;
  project_id = project;
  target_input = net.trim input;
  normalized_host = r.normalized_host;
  pinned_ips = map unmap r.pinned_ips;
  status = awaiting_attestation;
  last_resolved_at = now;
}

-- The settings: whether private targets are allowed, and the list of denied hosts.
unfoldable pub register_target :
    Network → NameServer → Bool → List String → ℕ → Actor → ℕ → String → Operation TargetRow
register_target net lookup allow_private denylist now actor project input s =
    elim (get_owned_project actor project s) [
      | err e ↦ (err e, s)
      | ok p ↦ elim (resolve_target net lookup allow_private denylist input) [
        | refused e ↦ (err (translate_target_error e), s)
        | resolved r ↦
            let t = new_target net s.next_id now project input r in
            written t (insert_target t (record s { next_id = suc s.next_id }))
      ]
    ]

abbrev pub is_attested : TargetRow → Bool
is_attested t = elim t.status [ attested ↦ Bool.true | _ ↦ Bool.false ]

-- The latest resolved of the attested targets.
unfoldable pub get_attested_target : ℕ → Projects → Result TargetRow
get_attested_target project s = elim (find? is_attested (targets_of project s)) [
  | none ↦ err (fail_with not_found "project.pentest_target_not_found")
  | some t ↦ ok t
]

pub record AttestationInput : Type 0 where
  pub text_version : String
  pub is_accepted : Bool
  pub source_ip : String

unfoldable pub check_attestation :
    (String → String) → Actor → ℕ → AttestationInput → Projects → Result TargetRow
check_attestation trim actor target given s = get_owned_target actor target s >>= λ t.
    refuse_if (not given.is_accepted) (fail_with validation "target.attestation_required")
    >> refuse_if (str_eq (trim given.text_version) "")
        (fail_with validation "target.attestation_required")
    >> ok t

unfoldable pub attest_target :
    (String → String) → ℕ → Actor → ℕ → AttestationInput → Operation TargetRow
attest_target trim now actor target given s = elim (check_attestation trim actor target given s) [
  | err e ↦ (err e, s)
  | ok t ↦ (
    ok (record t { status = attested }),
    set_target_status target attested (
        insert_attestation
          record {
            target_id = target;
            user_id = actor.user_id;
            text_version = given.text_version;
            accepted_at = now;
            source_ip = given.source_ip;
          }
          s),
  )
]

unfoldable pub revoke_target : Actor → ℕ → Operation (Unit {0})
revoke_target actor target s = elim (get_owned_target actor target s) [
  | err e ↦ (err e, s)
  | ok t ↦ (ok tt, set_target_status target revoked s)
]

-- The administrator of the platform needs no project.
unfoldable pub admin_revoke_target : ℕ → Operation (Unit {0})
admin_revoke_target target s =
    if is_some (target_by_id target s)
    then (ok tt, set_target_status target revoked s)
    else (err internal_error, s)
