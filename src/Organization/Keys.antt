-- ===== src/Organization/Keys.antt =====
-- internal/store/repo/invite_repo.go: rows of invitations by their keys, and how marking rows moves them.
use guard_pipe.Prelude.{
  ℕ, ◌<◌, ◌≡◌, refl, subst, Bool, true, false, ◌&&◌, List, [], ◌∷◌, ◌++◌, some, arith, ◌==◌,
  ==_refl, find?, All, All-append, any, Bool-cases, some_inj, inl, inr,
}
use guard_pipe.Organization.Store.{
  OrgStore, Invite, InviteStatus, is_pending, is_invite, update_first,
}

-- No other invitation has this identifier.
abbrev pub NoInvite : ℕ → List Invite → Type 0
NoInvite i = All λ inv. (inv.id == i) ≡ false

abbrev pub Distinct : List Invite → Type 0
Distinct [] = Unit
Distinct (x ∷ xs) = NoInvite x.id xs × Distinct xs

-- Invitations have identifiers of their own, all handed out.
abbrev pub IsKeyed : OrgStore → Type 0
IsKeyed s = Distinct s.invites × All (λ inv. inv.id < s.database.next_id) s.invites

abbrev pub mark : InviteStatus → Invite → Invite
mark status inv = record inv { status = status }

pub NoInvite-mark :
    (i j : ℕ) (status : InviteStatus) (xs : List Invite)
    → NoInvite i xs
    → NoInvite i (update_first (is_invite j) (mark status) xs)
NoInvite-mark i j status [] n = tt
NoInvite-mark i j status (x ∷ xs) n = ground (arith, NoInvite-mark i j status xs n.1)

pub Distinct-mark :
    (j : ℕ) (status : InviteStatus) (xs : List Invite)
    → Distinct xs
    → Distinct (update_first (is_invite j) (mark status) xs)
Distinct-mark j status [] d = tt
Distinct-mark j status (x ∷ xs) d =
    ground (arith, NoInvite-mark x.id j status xs d.0, Distinct-mark j status xs d.1)

pub below_mark :
    (n j : ℕ) (status : InviteStatus) (xs : List Invite)
    → All (λ inv. inv.id < n) xs
    → All (λ inv. inv.id < n) (update_first (is_invite j) (mark status) xs)
below_mark n j status [] h = tt
below_mark n j status (x ∷ xs) h = ground (arith, below_mark n j status xs h.1)

pub Distinct-append :
    (row : Invite) (xs : List Invite)
    → All (λ inv. inv.id < row.id) xs
    → Distinct xs
    → Distinct (xs ++ row ∷ [])
Distinct-append row [] h d = (tt, tt)
Distinct-append row (x ∷ xs) h d = (
  All-append (λ (inv : Invite). (inv.id == x.id) ≡ false) xs (row ∷ []) d.0 (ground arith, tt),
  Distinct-append row xs h.1 d.1,
)

-- A row that is found by any test is the row of its identifier.
pub find?-NoInvite :
    (p : Invite → Bool) (i : ℕ) (xs : List Invite) {inv : Invite}
    → NoInvite i xs
    → find? p xs ≡ some inv
    → (inv.id == i) ≡ false
find?-NoInvite p i [] n f = cc
find?-NoInvite p i (x ∷ xs) {inv} n f = elim (Bool-cases (p x)) [
  | inl hit ↦ subst (λ (y : Invite). (y.id == i) ≡ false) (some_inj (rw hit at f)) n.0
  | inr miss ↦ find?-NoInvite p i xs {inv = inv} n.1 (rw miss at f)
]

pub find?-Distinct :
    (p : Invite → Bool) (xs : List Invite) {inv : Invite}
    → Distinct xs
    → find? p xs ≡ some inv
    → find? (is_invite inv.id) xs ≡ some inv
find?-Distinct p [] d f = cc
find?-Distinct p (x ∷ xs) {inv} d f = elim (Bool-cases (p x)) [
  | inl hit ↦ let same : x ≡ inv = some_inj (rw hit at f) in rw same (rw (==_refl inv.id) refl)
  | inr miss ↦
      let rest = find?-Distinct p xs {inv = inv} d.1 (rw miss at f) in
      let other = find?-NoInvite p x.id xs {inv = inv} d.0 (rw miss at f) in
      ground (arith, rest, other)
]

-- Marking one invitation leaves the others as they are.
pub find?-mark_ne :
    (i j : ℕ) (status : InviteStatus) (xs : List Invite)
    → (j == i) ≡ false
    → find? (is_invite i) (update_first (is_invite j) (mark status) xs) ≡ find? (is_invite i) xs
find?-mark_ne i j status [] n = refl
find?-mark_ne i j status (x ∷ xs) n = ground (arith, find?-mark_ne i j status xs n)

pub find?-append :
    (i : ℕ) (row : Invite) (xs : List Invite) {inv : Invite}
    → find? (is_invite i) xs ≡ some inv
    → find? (is_invite i) (xs ++ row ∷ []) ≡ some inv
find?-append i row [] f = cc
find?-append i row (x ∷ xs) {inv} f = elim (Bool-cases (x.id == i)) [
  | inl hit ↦ rw hit (rw hit at f)
  | inr miss ↦ rw miss (find?-append i row xs {inv = inv} (rw miss at f))
]

pub find?-mark_self :
    (i : ℕ) (status : InviteStatus) (xs : List Invite) {inv : Invite}
    → find? (is_invite i) xs ≡ some inv
    → find? (is_invite i) (update_first (is_invite i) (mark status) xs) ≡ some (mark status inv)
find?-mark_self i status [] f = cc
find?-mark_self i status (x ∷ xs) {inv} f = elim (Bool-cases (x.id == i)) [
  | inl hit ↦
      let same : x ≡ inv = some_inj (rw hit at f) in
      let mine : (inv.id == i) ≡ true = rw same at hit in rw same (rw mine (rw mine refl))
  | inr miss ↦ rw miss (rw miss (find?-mark_self i status xs {inv = inv} (rw miss at f)))
]

-- A pending row with this identifier.
abbrev pub waits : ℕ → Invite → Bool
waits i inv = is_pending inv.status && inv.id == i

-- No pending row has this identifier.
abbrev pub NoneWaits : ℕ → List Invite → Type 0
NoneWaits i = All λ inv. waits i inv ≡ false

pub NoneWaits-mark :
    (i j : ℕ) (status : InviteStatus) (xs : List Invite)
    → (j == i) ≡ false
    → NoneWaits i xs
    → NoneWaits i (update_first (is_invite j) (mark status) xs)
NoneWaits-mark i j status [] n h = tt
NoneWaits-mark i j status (x ∷ xs) n h = ground (arith, NoneWaits-mark i j status xs n h.1)

pub NoneWaits-any :
    (i j : ℕ) (xs : List Invite) → NoneWaits i xs → any (waits j) xs ≡ true → (j == i) ≡ false
NoneWaits-any i j [] h a = ground arith
NoneWaits-any i j (x ∷ xs) h a = elim (Bool-cases (waits j x)) [
  | inl here ↦ ground (arith, here, h.0)
  | inr later ↦ NoneWaits-any i j xs h.1 (rw later at a)
]

NoInvite-NoneWaits : (j i : ℕ) (xs : List Invite) → (j == i) ≡ true → NoInvite j xs → NoneWaits i xs
NoInvite-NoneWaits j i [] e n = tt
NoInvite-NoneWaits j i (x ∷ xs) e n = (ground (arith, n.0), NoInvite-NoneWaits j i xs e n.1)

-- With identifiers of their own, one closed row means that none waits.
pub NoneWaits-closed :
    (i : ℕ) (xs : List Invite) {inv : Invite}
    → Distinct xs
    → find? (is_invite i) xs ≡ some inv
    → is_pending inv.status ≡ false
    → NoneWaits i xs
NoneWaits-closed i [] d f c = tt
NoneWaits-closed i (x ∷ xs) {inv} d f c = elim (Bool-cases (x.id == i)) [
  | inl hit ↦
      let same : x ≡ inv = some_inj (rw hit at f) in
      let closed : is_pending x.status ≡ false = rw same c in
      (rw closed refl, NoInvite-NoneWaits x.id i xs hit d.0)
  | inr miss ↦ (ground (arith, miss), NoneWaits-closed i xs {inv = inv} d.1 (rw miss at f) c)
]

pub find?-below :
    (n i : ℕ) (xs : List Invite) {inv : Invite}
    → find? (is_invite i) xs ≡ some inv
    → All (λ v. v.id < n) xs
    → inv.id < n
find?-below n i [] f h = cc
find?-below n i (x ∷ xs) {inv} f h = elim (Bool-cases (x.id == i)) [
  | inl hit ↦ subst (λ (v : Invite). v.id < n) (some_inj (rw hit at f)) h.0
  | inr miss ↦ find?-below n i xs {inv = inv} (rw miss at f) h.1
]
