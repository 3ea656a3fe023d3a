-- ===== src/Tests/Merging.antt =====
-- internal/engines/pentest/correlation at concrete inputs.
use guard_pipe.Prelude.{ℕ, ◌≡◌, refl, List, [], ◌∷◌, map, String}
use guard_pipe.Domain.Finding.{Severity, Confidence}
use guard_pipe.Pentest.Correlator.{
  ScanFinding, ToolFinding, decimal, dedup_key, per_endpoint, dedup_scope_for, tool_for_rule_id,
  from_domain_finding, merge, absorb, absorb_at, add_finding, add_findings, sort_texts, finish,
}
use guard_pipe.Pentest.Groups.{firsts}
use guard_pipe.Pentest.Grouping.{merged_of, merge-firsts}

abbrev found : String → String → ℕ → String → ScanFinding
found rule host port url = record {
  rule_id = rule;
  severity = Severity.medium;
  confidence = Confidence.high;
  host = host;
  port = port;
  url = url;
  evidence = 1;
}

-- A missing header on two ports, and a weak cipher on each of them.
abbrev detections : List ToolFinding
detections =
    from_domain_finding (found "pentest.headers.missing-hsts" "a.example" 443 "https://a.example/")
    ∷ from_domain_finding (found "pentest.tls.weak-cipher" "a.example" 443 "")
    ∷ from_domain_finding
        (found "pentest.headers.missing-hsts" "a.example" 8443 "https://a.example:8443/")
    ∷ from_domain_finding (found "pentest.tls.weak-cipher" "a.example" 8443 "")
    ∷ []

port_text : dedup_key per_endpoint "a.example" 8443 "" ≡ "a.example:8443"
unfolding dedup_key decimal
port_text = refl

counts_merged : map (λ m. m.occurrence_count) (merge detections) ≡ 2 ∷ 1 ∷ 1 ∷ []
unfolding dedup_key decimal dedup_scope_for tool_for_rule_id from_domain_finding merge absorb
    absorb_at add_finding add_findings sort_texts finish
counts_merged = refl

places_merged :
    map (λ m. m.affected_locations) (merge detections)
    ≡ ("a.example:443" ∷ "a.example:8443" ∷ [])
      ∷ ("a.example:443" ∷ [])
      ∷ ("a.example:8443" ∷ [])
      ∷ []
unfolding dedup_key decimal dedup_scope_for tool_for_rule_id from_domain_finding merge absorb
    absorb_at add_finding add_findings sort_texts finish
places_merged = refl

merge-firsts_example : merge detections ≡ map (merged_of detections) (firsts detections)
merge-firsts_example = merge-firsts detections
