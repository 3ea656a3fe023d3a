-- ===== src/Tests/Vault.antt =====
-- internal/modules/project and internal/platform/validate at concrete inputs.
use guard_pipe.Prelude.{
  ◌+◌, ◌*◌, ◌^◌, ◌≡◌, refl, true, false, List, [], ◌∷◌, none, some, if◌then◌else◌, map, length,
  String, str_eq,
}
use guard_pipe.Errors.{ok, err}
use guard_pipe.Domain.Engine.{admin, Actor}
use guard_pipe.Validate.Address.{v4, v6, is_blocked_range}
use guard_pipe.Validate.Ranges.{dotted}
use guard_pipe.Validate.Target.{
  NameServer, trim_dots, candidate_host, normalize_target_host, host_denied, resolve_target,
}
use guard_pipe.Project.Crypto.{Aead, Opens, encrypt, check_key}
use guard_pipe.Project.Store.{
  attested, ProjectRow, RepositoryRow, Projects, project_by_id, repository_of, target_by_id,
  insert_target, upsert_credential,
}
use guard_pipe.Project.Service.{
  get_owned_project, get_owned_target, github_pat, mask_token, check_credential, set_credential,
  get_clone_info, project_not_found,
}
use guard_pipe.Tests.SigningIn.{env}
use guard_pipe.Project.Targets.{register_target, revoke_target}
use guard_pipe.Project.Collaborators.{remove_collaborator}
use guard_pipe.Project.Requests.{
  ProjectRequest, sets_credential, registers, revokes, removes, Settings, Call, handle_project,
  run_calls,
}
use guard_pipe.Project.Elsewhere.{SameElsewhere}
use guard_pipe.Project.Confined.{run_calls-SameElsewhere}
use guard_pipe.Project.Public.{ArePublic, run_calls-ArePublic}
use guard_pipe.Project.Credential.{set_credential-clone_info}

-- The identity stands for the cipher.
abbrev plain : Aead
plain = record { seal = λ k n t. t; unseal = λ k n t. some t }

abbrev plain_opens : Opens plain
plain_opens = λ k n t. refl

abbrev pub owner : Actor
owner = record { user_id = 7; org_id = 1; role = admin; project_id = none }

abbrev guest : Actor
guest = record { user_id = 8; org_id = 1; role = admin; project_id = some 21 }

abbrev shop : ProjectRow
shop = record { id = 20; org_id = 1 }

abbrev shop_repository : RepositoryRow
shop_repository = record {
  project_id = 20;
  url = "https://github.com/acme/shop";
  default_branch = "main";
}

abbrev mine : ProjectRow
mine = record { id = 21; org_id = 1 }

abbrev pub shelf : Projects
shelf = record {
  projects = shop ∷ mine ∷ [];
  repositories = shop_repository ∷ [];
  credentials = [];
  targets =
      record {
        id = 30;
        project_id = 20;
        target_input = "shop.example";
        normalized_host = "shop.example";
        pinned_ips = [];
        status = attested;
        last_resolved_at = 5;
      }
      ∷ [];
  attestations = [];
  invites = [];
  collaborators = [];
  next_id = 100;
}

abbrev vault_key : String
vault_key = "0123456789abcdef0123456789abcdef"

masked : mask_token "ghp_abcdef3f9a" ≡ "ghp_••••3f9a"
unfolding mask_token
masked = refl

shop_owned : get_owned_project owner 20 shelf ≡ ok shop
unfolding get_owned_project project_by_id
shop_owned = refl

guest_outside : get_owned_project guest 20 shelf ≡ err project_not_found
unfolding get_owned_project project_by_id
guest_outside = refl

shop_attached : repository_of 20 shelf ≡ some shop_repository
unfolding repository_of
shop_attached = refl

set_credential-clone_info_example :
    let written =
      set_credential plain
        (λ t. t)
        vault_key
        (some "twelve bytes")
        owner
        20
        github_pat
        "ghp_abcdef3f9a"
        shelf in
    (written.0 ≡ ok (mask_token "ghp_abcdef3f9a"))
    × (get_clone_info plain vault_key 20 written.1
        ≡ ok ("https://github.com/acme/shop", "main", "ghp_abcdef3f9a"))
set_credential-clone_info_example =
    set_credential-clone_info plain (λ t. t) vault_key "twelve bytes" owner 20 "ghp_abcdef3f9a"
      shelf shop shop_repository plain_opens refl refl shop_owned shop_attached refl

-- `shop.example` has a public address; every other name has a private one.
abbrev server : NameServer
server name =
    if str_eq name "shop.example"
    then some (v4 (dotted 93 184 216 34) ∷ [])
    else some (v4 (dotted 10 0 0 5) ∷ [])

abbrev settings : Settings
settings = record {
  cipher = plain;
  env = env;
  key = vault_key;
  network = record { trim = λ s. s; lower = λ s. s; url_host = λ s. none; split_host = λ s. none };
  allow_private = false;
  denylist = "*.bank.example" ∷ [];
}

bank_denied : host_denied settings.network "login.bank.example" settings.denylist ≡ true
unfolding host_denied
bank_denied = refl

-- A guest of project 21 tries the credential, a target and a collaborator of project 20, and registers a
-- target of its own.
abbrev attempts : List ProjectRequest
attempts =
    sets_credential (some "twelve bytes") 20 github_pat "ghp_abcdef3f9a"
    ∷ revokes 30
    ∷ removes 20 7
    ∷ sets_credential (some "twelve bytes") 21 github_pat "ghp_abcdef3f9a"
    ∷ registers server 9 21 "shop.example"
    ∷ registers server 9 21 "intranet"
    ∷ []

abbrev guest_calls : List Call
guest_calls = map (λ r. let c : Call = record { actor = guest; request = r } in c) attempts

one_registered : length (run_calls settings guest_calls (record shelf { targets = [] })).targets ≡ 1
unfolding run_calls handle_project set_credential check_credential get_owned_project project_by_id
    revoke_target get_owned_target target_by_id remove_collaborator register_target resolve_target
    normalize_target_host candidate_host trim_dots is_blocked_range host_denied insert_target
    encrypt check_key upsert_credential
one_registered = refl

run_calls-SameElsewhere_example : SameElsewhere 21 shelf (run_calls settings guest_calls shelf)
run_calls-SameElsewhere_example =
    run_calls-SameElsewhere settings 21 guest_calls shelf
      (refl, (refl, (refl, (refl, (refl, (refl, tt))))))

run_calls-ArePublic_example :
    ArePublic settings (run_calls settings guest_calls (record shelf { targets = [] }))
run_calls-ArePublic_example =
    run_calls-ArePublic settings guest_calls (record shelf { targets = [] }) refl tt

metadata_blocked : is_blocked_range (v6 (0xffff * 2 ^ 32 + dotted 169 254 169 254)) ≡ true
unfolding is_blocked_range
metadata_blocked = refl
