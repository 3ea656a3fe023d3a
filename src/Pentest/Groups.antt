-- ===== src/Pentest/Groups.antt =====
-- internal/engines/pentest/correlation/correlator.go: the groups of Merge, described from the list of findings.
use guard_pipe.Prelude.{
  ◌+◌, ◌≡◌, refl, sym, ap, ◌∙◌, Bool, true, false, List, [], ◌∷◌, ◌++◌, if◌then◌else◌, any, map,
  keep, String, str_eq, eq_iff, length, Bool-cases, inl, inr, arith, keep-append, and_true,
}
use guard_pipe.Pentest.Correlator.{
  ToolFinding, Key, key_of, key_eq, Group, Entry, add_text, is_confirms, is_refutes, absorb,
  absorb_at, location_string,
}

-- Two findings of one family with one key.
abbrev pub same_issue : ToolFinding → ToolFinding → Bool
same_issue f g = key_eq (key_of f) (key_of g)

abbrev pub distinct_from : List String → List String → List String
distinct_from seen [] = seen
distinct_from seen (t ∷ ts) = distinct_from (add_text seen t) ts

-- The texts of a list, each once.
abbrev pub distinct : List String → List String
distinct = distinct_from []

-- The group of a first finding and all the findings of its issue, itself among them.
abbrev pub group_of : ToolFinding → List ToolFinding → Group
group_of f ms = record {
  representative = f.finding;
  tools = distinct (map (λ m. m.tool) ms);
  locations = distinct (map location_string ms);
  count = length ms;
  saw_confirms = any (λ m. is_confirms m.signal) ms;
  saw_refutes = any (λ m. is_refutes m.signal) ms;
  has_evidence = any (λ m. m.has_evidence) ms;
}

abbrev pub entry_of : List ToolFinding → ToolFinding → Entry
entry_of fs f = record { key = key_of f; group = group_of f (keep (same_issue f) fs) }

abbrev pub firsts_from : List ToolFinding → List ToolFinding → List ToolFinding
firsts_from seen [] = seen
firsts_from seen (f ∷ fs) =
    firsts_from (if any (same_issue f) seen then seen else seen ++ (f ∷ [])) fs

-- The first finding of every issue, in the order of the list.
abbrev pub firsts : List ToolFinding → List ToolFinding
firsts = firsts_from []

distinct_from-append :
    (seen ts : List String) (t : String)
    → distinct_from seen (ts ++ (t ∷ [])) ≡ add_text (distinct_from seen ts) t
distinct_from-append seen [] t = refl
distinct_from-append seen (u ∷ us) t = distinct_from-append (add_text seen u) us t

pub map-append_one {ℓ κ} :
    {A : Type ℓ} {B : Type κ} (f : A → B) (xs : List A) (x : A)
    → map f (xs ++ (x ∷ [])) ≡ map f xs ++ (f x ∷ [])
map-append_one f [] x = refl
map-append_one f (y ∷ ys) x = ap (λ zs. f y ∷ zs) (map-append_one f ys x)

pub any-append_one :
    (p : ToolFinding → Bool) (xs : List ToolFinding) (x : ToolFinding)
    → any p (xs ++ (x ∷ [])) ≡ (if p x then true else any p xs)
any-append_one p [] x = ground arith
any-append_one p (y ∷ ys) x = ground (arith, any-append_one p ys x)

length-append_one :
    (xs : List ToolFinding) (x : ToolFinding) → length (xs ++ (x ∷ [])) ≡ length xs + 1
length-append_one [] x = refl
length-append_one (y ∷ ys) x = ground (arith, length-append_one ys x)

pub absorb-group_of :
    (f : ToolFinding) (ms : List ToolFinding) (x : ToolFinding)
    → absorb (group_of f ms) x ≡ group_of f (ms ++ (x ∷ []))
unfolding absorb
absorb-group_of f ms x =
    rw
      (
        map-append_one (λ m. m.tool) ms x,
        distinct_from-append [] (map (λ m. m.tool) ms) x.tool,
        map-append_one location_string ms x,
        distinct_from-append [] (map location_string ms) (location_string x),
        any-append_one (λ m. is_confirms m.signal) ms x,
        any-append_one (λ m. is_refutes m.signal) ms x,
        any-append_one (λ m. m.has_evidence) ms x,
        length-append_one ms x,
      )
      refl

pub key_eq→≡ : (a b : Key) → key_eq a b ≡ true → a ≡ b
key_eq→≡ a b h =
    let parts = and_true {a = str_eq a.family b.family} {b = str_eq a.dedup b.dedup} h in
    let first : Key = record { family = b.family; dedup = a.dedup } in
    ap (λ t. let k : Key = record { family = t; dedup = a.dedup } in k)
      ((eq_iff a.family b.family).0 parts.0)
    ∙ ap (λ t. let k : Key = record { family = b.family; dedup = t } in k)
        ((eq_iff a.dedup b.dedup).0 parts.1)

pub key_eq_refl : (a : Key) → key_eq a a ≡ true
key_eq_refl a = rw ((eq_iff a.family a.family).1 refl, (eq_iff a.dedup a.dedup).1 refl) refl

key_eq_sym : (a b : Key) → key_eq a b ≡ key_eq b a
key_eq_sym a b = elim (Bool-cases (key_eq a b)) [
  | inl same ↦ rw (key_eq→≡ a b same) refl
  | inr other ↦ elim (Bool-cases (key_eq b a)) [
    | inl same ↦ rw (key_eq→≡ b a same) refl
    | inr different ↦ other ∙ sym different
  ]
]

pub keep_none : (p : ToolFinding → Bool) (xs : List ToolFinding) → any p xs ≡ false → keep p xs ≡ []
keep_none p [] h = refl
keep_none p (x ∷ xs) h = elim (Bool-cases (p x)) [
  | inl hit ↦ absurd (ground (arith, h, hit))
  | inr miss ↦ rw miss (keep_none p xs (rw miss at h))
]

pub keep_hit :
    (p : ToolFinding → Bool) (xs : List ToolFinding) (x : ToolFinding)
    → p x ≡ true
    → keep p (xs ++ (x ∷ [])) ≡ keep p xs ++ (x ∷ [])
keep_hit p xs x h = keep-append p xs (x ∷ []) ∙ rw h refl

keep_miss :
    (p : ToolFinding → Bool) (xs : List ToolFinding) (x : ToolFinding)
    → p x ≡ false
    → keep p (xs ++ (x ∷ [])) ≡ keep p xs
keep_miss p [] x h = rw h refl
keep_miss p (y ∷ ys) x h = ground (arith, keep_miss p ys x h)

absorb_at_hit :
    (k : Key) (f : ToolFinding) (e : Entry)
    → key_eq k e.key ≡ true
    → absorb_at k f e ≡ record e { group = absorb e.group f }
unfolding absorb_at
absorb_at_hit k f e h = rw h refl

pub absorb_at_miss :
    (k : Key) (f : ToolFinding) (e : Entry) → key_eq k e.key ≡ false → absorb_at k f e ≡ e
unfolding absorb_at
absorb_at_miss k f e h = rw h refl

-- An entry takes the finding in exactly when it is of its issue.
pub absorb_at-entry_of :
    (done : List ToolFinding) (x f : ToolFinding)
    → absorb_at (key_of x) x (entry_of done f) ≡ entry_of (done ++ (x ∷ [])) f
absorb_at-entry_of done x f =
    let entry : List ToolFinding → Entry = λ ms. record { key = key_of f; group = group_of f ms } in
    let swap = key_eq_sym (key_of x) (key_of f) in
    elim (Bool-cases (same_issue f x)) [
      | inl same ↦
          absorb_at_hit (key_of x) x (entry_of done f) (swap ∙ same)
          ∙ ap (λ g. let e : Entry = record { key = key_of f; group = g } in e)
              (absorb-group_of f (keep (same_issue f) done) x)
          ∙ ap entry (sym (keep_hit (same_issue f) done x same))
      | inr other ↦
          absorb_at_miss (key_of x) x (entry_of done f) (swap ∙ other)
          ∙ ap entry (sym (keep_miss (same_issue f) done x other))
    ]
