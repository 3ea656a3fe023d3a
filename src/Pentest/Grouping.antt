-- ===== src/Pentest/Grouping.antt =====
-- internal/engines/pentest/correlation/correlator.go: Merge against the description of its groups.
use mathlib.Core.List.{append-nil, append_assoc}
use guard_pipe.Prelude.{
  ◌≡◌, refl, sym, ap, ◌∙◌, Bool, true, false, ◌&&◌, ◌||◌, List, [], ◌∷◌, ◌++◌, if◌then◌else◌, any,
  map, keep, length, Bool-cases, or-false, inl, inr,
}
use guard_pipe.Pentest.Correlator.{
  ToolFinding, Key, key_of, key_eq, Entry, is_confirms, is_refutes, empty_group, absorb, absorb_at,
  add_finding, add_findings, Merged, dedup_scope_for, sort_texts, finish, merge, location_string,
}
use guard_pipe.Pentest.Groups.{
  same_issue, distinct, group_of, entry_of, firsts_from, firsts, any-append_one, map-append_one,
  key_eq→≡, key_eq_refl, keep_none, keep_hit, absorb_at_miss, absorb_at-entry_of, absorb-group_of,
}

map_absorb :
    (done : List ToolFinding) (x : ToolFinding) (fs : List ToolFinding)
    → map (absorb_at (key_of x) x) (map (entry_of done) fs) ≡ map (entry_of (done ++ (x ∷ []))) fs
map_absorb done x [] = refl
map_absorb done x (f ∷ fs) = rw (absorb_at-entry_of done x f, map_absorb done x fs) refl

absorb_none :
    (k : Key) (x : ToolFinding) (es : List Entry)
    → any (λ e. key_eq k e.key) es ≡ false
    → map (absorb_at k x) es ≡ es
absorb_none k x [] h = refl
absorb_none k x (e ∷ es) h =
    let parts = or-false {a = key_eq k e.key} {b = any (λ e. key_eq k e.key) es} h in
    rw (absorb_at_miss k x e parts.0, absorb_none k x es parts.1) refl

any_entries :
    (done : List ToolFinding) (k : Key) (fs : List ToolFinding)
    → any (λ e. key_eq k e.key) (map (entry_of done) fs) ≡ any (λ f. key_eq k (key_of f)) fs
any_entries done k [] = refl
any_entries done k (f ∷ fs) = ap (λ b. key_eq k (key_of f) || b) (any_entries done k fs)

-- The first findings stand for all the findings done so far.
abbrev Covers : List ToolFinding → List ToolFinding → Type 0
Covers seen done = (g : ToolFinding) → any (same_issue g) seen ≡ any (same_issue g) done

abbrev extend : List ToolFinding → ToolFinding → List ToolFinding
extend seen f = if any (same_issue f) seen then seen else seen ++ (f ∷ [])

extend_known :
    (seen : List ToolFinding) (x : ToolFinding)
    → any (same_issue x) seen ≡ true
    → extend seen x ≡ seen
extend_known seen x h = rw h refl

extend_new :
    (seen : List ToolFinding) (x : ToolFinding)
    → any (same_issue x) seen ≡ false
    → extend seen x ≡ seen ++ (x ∷ [])
extend_new seen x h = rw h refl

any-append_hit :
    (p : ToolFinding → Bool) (xs : List ToolFinding) (x : ToolFinding)
    → p x ≡ true
    → any p (xs ++ (x ∷ [])) ≡ true
any-append_hit p xs x h = any-append_one p xs x ∙ rw h refl

any-append_miss :
    (p : ToolFinding → Bool) (xs : List ToolFinding) (x : ToolFinding)
    → p x ≡ false
    → any p (xs ++ (x ∷ [])) ≡ any p xs
any-append_miss p xs x h = any-append_one p xs x ∙ rw h refl

same_keys :
    (seen : List ToolFinding) (g x : ToolFinding)
    → same_issue g x ≡ true
    → any (same_issue g) seen ≡ any (same_issue x) seen
same_keys seen g x same =
    ap (λ k. any (λ f. key_eq k (key_of f)) seen) (key_eq→≡ (key_of g) (key_of x) same)

extend-Covers :
    (seen done : List ToolFinding) (x : ToolFinding)
    → Covers seen done
    → Covers (extend seen x) (done ++ (x ∷ []))
extend-Covers seen done x covers g = elim (Bool-cases (any (same_issue x) seen)) [
  | inl known ↦ elim (Bool-cases (same_issue g x)) [
    | inl same ↦
        ap (any (same_issue g)) (extend_known seen x known)
        ∙ same_keys seen g x same
        ∙ known
        ∙ sym (any-append_hit (same_issue g) done x same)
    | inr other ↦
        ap (any (same_issue g)) (extend_known seen x known)
        ∙ covers g
        ∙ sym (any-append_miss (same_issue g) done x other)
  ]
  | inr new ↦
      ap (any (same_issue g)) (extend_new seen x new)
      ∙ any-append_one (same_issue g) seen x
      ∙ ap (λ b. if same_issue g x then true else b) (covers g)
      ∙ sym (any-append_one (same_issue g) done x)
]

add_known :
    (es : List Entry) (x : ToolFinding)
    → any (λ e. key_eq (key_of x) e.key) es ≡ true
    → add_finding es x ≡ map (absorb_at (key_of x) x) es
unfolding add_finding
add_known es x h = rw h refl

add_new :
    (es : List Entry) (x : ToolFinding)
    → any (λ e. key_eq (key_of x) e.key) es ≡ false
    → add_finding es x
      ≡ es
        ++ (let e : Entry = record { key = key_of x; group = absorb (empty_group x) x } in e ∷ [])
unfolding add_finding
add_new es x h = rw h refl

-- The group of a new issue.
entry_of_new :
    (done : List ToolFinding) (x : ToolFinding)
    → any (same_issue x) done ≡ false
    → (let e : Entry = record { key = key_of x; group = absorb (empty_group x) x } in e)
      ≡ entry_of (done ++ (x ∷ [])) x
entry_of_new done x new =
    ap (λ g. let e : Entry = record { key = key_of x; group = g } in e)
      (absorb-group_of x [] x
        ∙ ap (group_of x) (
            sym (
              keep_hit (same_issue x) done x (key_eq_refl (key_of x))
              ∙ ap (λ ms. ms ++ (x ∷ [])) (keep_none (same_issue x) done new))))

add_finding-entries :
    (seen done : List ToolFinding) (x : ToolFinding)
    → Covers seen done
    → add_finding (map (entry_of done) seen) x ≡ map (entry_of (done ++ (x ∷ []))) (extend seen x)
add_finding-entries seen done x covers =
    let es = map (entry_of done) seen in
    let found = any_entries done (key_of x) seen in
    elim (Bool-cases (any (same_issue x) seen)) [
      | inl known ↦
          add_known es x (found ∙ known)
          ∙ map_absorb done x seen
          ∙ ap (map (entry_of (done ++ (x ∷ [])))) (sym (extend_known seen x known))
      | inr new ↦
          add_new es x (found ∙ new)
          ∙ ap (λ e. es ++ (e ∷ [])) (entry_of_new done x (sym (covers x) ∙ new))
          ∙ ap (λ old. old ++ (entry_of (done ++ (x ∷ [])) x ∷ []))
              (sym (absorb_none (key_of x) x es (found ∙ new)) ∙ map_absorb done x seen)
          ∙ sym (map-append_one (entry_of (done ++ (x ∷ []))) seen x)
          ∙ ap (map (entry_of (done ++ (x ∷ [])))) (sym (extend_new seen x new))
    ]

add_findings-entries :
    (seen done fs : List ToolFinding)
    → Covers seen done
    → add_findings (map (entry_of done) seen) fs ≡ map (entry_of (done ++ fs)) (firsts_from seen fs)
unfolding add_findings
add_findings-entries seen done [] covers = ap (λ xs. map (entry_of xs) seen) (sym (append-nil done))
add_findings-entries seen done (x ∷ fs) covers =
    ap (λ es. add_findings es fs) (add_finding-entries seen done x covers)
    ∙ add_findings-entries (extend seen x) (done ++ (x ∷ [])) fs (extend-Covers seen done x covers)
    ∙ ap (λ xs. map (entry_of xs) (firsts_from (extend seen x) fs)) (append_assoc done (x ∷ []) fs)

-- What is reported of the issue of a first finding: all findings of the issue, together.
abbrev pub merged_of : List ToolFinding → ToolFinding → Merged
merged_of fs f =
    let ms = keep (same_issue f) fs in
    record {
      rule_family = f.rule_family;
      dedup_scope = dedup_scope_for f.finding.rule_id;
      representative = f.finding;
      tools = sort_texts (distinct (map (λ m. m.tool) ms));
      occurrence_count = length ms;
      affected_locations = sort_texts (distinct (map location_string ms));
      conflicting_signals = any (λ m. is_confirms m.signal) ms && any (λ m. is_refutes m.signal) ms;
      has_evidence = any (λ m. m.has_evidence) ms;
    }

finish-entries :
    (done fs : List ToolFinding) → map finish (map (entry_of done) fs) ≡ map (merged_of done) fs
unfolding finish
finish-entries done [] = refl
finish-entries done (f ∷ fs) = ap (λ ms. merged_of done f ∷ ms) (finish-entries done fs)

-- Merge reports one finding for each issue, in the order in which the issues first occur: it stands on
-- the first finding of the issue and counts all of them, with their tools and locations, each text once
-- and sorted; it has evidence if one of them has, and is in conflict if one confirms and one refutes.
pub merge-firsts : (fs : List ToolFinding) → merge fs ≡ map (merged_of fs) (firsts fs)
unfolding merge
merge-firsts fs =
    ap (map finish) (add_findings-entries [] [] fs (λ g. refl)) ∙ finish-entries fs (firsts fs)
