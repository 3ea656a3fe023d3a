-- ===== src/Pentest/Correlator.antt =====
-- internal/engines/pentest/correlation/correlator.go and dedupscope.go. A port is a natural number, 0 for
-- none; a finding keeps the fields that the correlator reads. The map of groups and the list `order` of its
-- keys are one list of entries, in which a key occurs once.
use Prim.Native.String.{compare, slice}
use Prim.Native.String.{◌++◌ as text_append}
use Prim.Native.Nat.{Ordering}
use text.Mathlib.Text.{starts_with}
use guard_pipe.Prelude.{
  ℕ, suc, zero, ◌+◌, ◌/◌, ◌%◌, Bool, true, false, ◌&&◌, ◌||◌, List, [], ◌∷◌, ◌++◌, if◌then◌else◌,
  ◌==◌, ltb, any, map, String, str_eq,
}
use guard_pipe.Domain.Finding.{Severity, Confidence}

pub data DedupScope : Type 0 where
  per_scan per_host per_host_port per_endpoint : DedupScope

pub data Signal : Type 0 where
  confirms refutes neutral : Signal

-- `domain.Finding` with its location; `evidence` counts the pieces of evidence.
pub record ScanFinding : Type 0 where
  pub rule_id : String
  pub severity : Severity
  pub confidence : Confidence
  pub host : String
  pub port : ℕ
  pub url : String
  pub evidence : ℕ

pub record ToolFinding : Type 0 where
  pub tool : String
  pub rule_id : String
  pub rule_family : String
  pub dedup_scope : DedupScope
  pub signal : Signal
  pub host : String
  pub port : ℕ
  pub endpoint : String
  pub has_evidence : Bool
  pub finding : ScanFinding

abbrev digit : ℕ → String
digit n = slice "0123456789" n (n + 1)

digits : ℕ → ℕ → String
digits zero n = ""
digits (suc k) n =
    let rest = digits k (n / 10) in if ltb n 10 then digit n else text_append rest (digit (n % 10))

-- `%d`: an int of 64 bits has 19 digits at most.
unfoldable pub decimal : ℕ → String
unfolding digits
decimal n = digits 19 n

abbrev pub host_port : String → ℕ → String
host_port host port = text_append host (text_append ":" (decimal port))

unfoldable pub dedup_key : DedupScope → String → ℕ → String → String
dedup_key per_host host port endpoint = host
dedup_key per_host_port host port endpoint = host_port host port
dedup_key per_endpoint host port endpoint =
    if str_eq endpoint "" then host_port host port else endpoint
dedup_key per_scan host port endpoint = "scan"

-- The table of overrides is empty.
abbrev pub rule_family_for : String → String
rule_family_for rule_id = rule_id

-- No prefix starts another, so the order in which the map is visited does not matter.
unfoldable pub dedup_scope_for : String → DedupScope
dedup_scope_for rule_id =
    if starts_with rule_id "pentest.headers." || starts_with rule_id "pentest.recon."
    then per_scan
    else if starts_with rule_id "pentest.tls."
    then per_host_port
    else if starts_with rule_id "pentest.disclosure." || starts_with rule_id "pentest.nuclei."
    then per_endpoint
    else if starts_with rule_id "pentest.misconfig.cors-wildcard-with-credentials"
    then per_host
    else per_host_port

unfoldable pub tool_for_rule_id : String → String
tool_for_rule_id rule_id =
    if starts_with rule_id "pentest.tls."
    then "testssl"
    else if starts_with rule_id "pentest.nuclei."
    then "nuclei"
    else if starts_with rule_id "pentest.recon."
    then "subdomain-enum"
    else "custom-checks"

unfoldable pub from_domain_finding : ScanFinding → ToolFinding
from_domain_finding f = record {
  tool = tool_for_rule_id f.rule_id;
  rule_id = f.rule_id;
  rule_family = rule_family_for f.rule_id;
  dedup_scope = dedup_scope_for f.rule_id;
  signal = confirms;
  host = f.host;
  port = f.port;
  endpoint = f.url;
  has_evidence = ltb 0 f.evidence;
  finding = f;
}

abbrev pub location_string : ToolFinding → String
location_string f = if f.port == 0 then f.host else dedup_key per_host_port f.host f.port ""

-- What groups: the family and the key in it.
pub record Key : Type 0 where
  pub family : String
  pub dedup : String

abbrev pub key_of : ToolFinding → Key
key_of f = record {
  family = f.rule_family;
  dedup = dedup_key f.dedup_scope f.host f.port f.endpoint;
}

abbrev pub key_eq : Key → Key → Bool
key_eq a b = str_eq a.family b.family && str_eq a.dedup b.dedup

pub record Group : Type 0 where
  pub representative : ScanFinding
  pub tools : List String
  pub locations : List String
  pub count : ℕ
  pub saw_confirms : Bool
  pub saw_refutes : Bool
  pub has_evidence : Bool

pub record Entry : Type 0 where
  pub key : Key
  pub group : Group

-- A set of texts, in the order of arrival.
abbrev pub add_text : List String → String → List String
add_text ts t = if any (str_eq t) ts then ts else ts ++ (t ∷ [])

abbrev pub is_confirms : Signal → Bool
is_confirms confirms = true
is_confirms _ = false

abbrev pub is_refutes : Signal → Bool
is_refutes refutes = true
is_refutes _ = false

abbrev pub empty_group : ToolFinding → Group
empty_group f = record {
  representative = f.finding;
  tools = [];
  locations = [];
  count = 0;
  saw_confirms = false;
  saw_refutes = false;
  has_evidence = false;
}

-- What one finding adds to its group.
unfoldable pub absorb : Group → ToolFinding → Group
absorb g f = record g {
  count = g.count + 1;
  tools = add_text g.tools f.tool;
  locations = add_text g.locations (location_string f);
  has_evidence = if f.has_evidence then true else g.has_evidence;
  saw_confirms = if is_confirms f.signal then true else g.saw_confirms;
  saw_refutes = if is_refutes f.signal then true else g.saw_refutes;
}

unfoldable pub absorb_at : Key → ToolFinding → Entry → Entry
absorb_at k f e = if key_eq k e.key then record e { group = absorb e.group f } else e

-- One round of the loop over the findings.
unfoldable pub add_finding : List Entry → ToolFinding → List Entry
unfolding absorb absorb_at
add_finding es f =
    let k = key_of f in
    let e : Entry = record { key = k; group = absorb (empty_group f) f } in
    if any (λ e. key_eq k e.key) es then map (absorb_at k f) es else es ++ (e ∷ [])

unfoldable pub add_findings : List Entry → List ToolFinding → List Entry
add_findings es [] = es
add_findings es (f ∷ fs) = add_findings (add_finding es f) fs

abbrev text_le : String → String → Bool
text_le a b = elim (compare a b) [ Ordering.gt ↦ false | _ ↦ true ]

insert_text : String → List String → List String
insert_text t [] = t ∷ []
insert_text t (u ∷ us) = if text_le t u then t ∷ u ∷ us else u ∷ insert_text t us

unfoldable pub sort_texts : List String → List String
unfolding insert_text
sort_texts [] = []
sort_texts (t ∷ ts) = insert_text t (sort_texts ts)

-- `CorrelatedFinding` as `Merge` leaves it.
pub record Merged : Type 0 where
  pub rule_family : String
  pub dedup_scope : DedupScope
  pub representative : ScanFinding
  pub tools : List String
  pub occurrence_count : ℕ
  pub affected_locations : List String
  pub conflicting_signals : Bool
  pub has_evidence : Bool

unfoldable pub finish : Entry → Merged
finish e = record {
  rule_family = e.key.family;
  dedup_scope = dedup_scope_for e.group.representative.rule_id;
  representative = e.group.representative;
  tools = sort_texts e.group.tools;
  occurrence_count = e.group.count;
  affected_locations = sort_texts e.group.locations;
  conflicting_signals = e.group.saw_confirms && e.group.saw_refutes;
  has_evidence = e.group.has_evidence;
}

unfoldable pub merge : List ToolFinding → List Merged
unfolding finish
merge tf = map finish (add_findings [] tf)
