-- ===== src/Billing/Take.antt =====
-- internal/store/repo/billing_repo.go: what an UPDATE that takes tokens from one bucket does to
-- the other buckets and to the balance.
use guard_pipe.Prelude.{
  ℕ, zero, suc, ◌+◌, ◌-◌, ◌≤◌, ◌<◌, ◌≡◌, refl, Bool, false, List, [], ◌∷◌, Option, some, arith, leb,
  ◌==◌, if◌then◌else◌, find?, sum_of, keep, sub_ℕ, All, Bool-cases, inl, inr, ==_refl,
}
use guard_pipe.Billing.Store.{
  Store, Bucket, update_bucket, change_remaining, balance, is_spendable, insert_by_expiry,
  sort_by_expiry, spendable_buckets,
}

abbrev pub find_bucket : ℕ → List Bucket → Option Bucket
find_bucket i = find? λ b. b.id == i

-- The buckets after `take` tokens have left the bucket `i`.
unfoldable pub taken : ℕ → ℕ → List Bucket → List Bucket
taken i take [] = []
taken i take (b ∷ bs) =
    if b.id == i then record b { remaining = b.remaining - take } ∷ bs else b ∷ taken i take bs

change_remaining-sub :
    (take : ℕ) (b : Bucket)
    → 0 < take
    → take ≤ b.remaining
    → change_remaining (sub_ℕ 0 take) b ≡ some (record b { remaining = b.remaining - take })
unfolding change_remaining
change_remaining-sub zero b p h = absurd (omega arith)
change_remaining-sub (suc n) b p h = ground arith

pub update_bucket-taken :
    (i take : ℕ) (bs : List Bucket) {b : Bucket}
    → find_bucket i bs ≡ some b
    → 0 < take
    → take ≤ b.remaining
    → update_bucket i (sub_ℕ 0 take) bs ≡ some (taken i take bs)
unfolding update_bucket taken
update_bucket-taken i take [] f p h = ground arith
update_bucket-taken i take (c ∷ bs) {b} f p h = elim (Bool-cases (c.id == i)) [
  | inl hit ↦ rw (hit, change_remaining-sub take c p (ground arith)) refl
  | inr miss ↦ rw (miss, update_bucket-taken i take bs {b = b} (ground arith) p h) refl
]

pub find_bucket-taken_self :
    (i take : ℕ) (bs : List Bucket) (b : Bucket)
    → find_bucket i bs ≡ some b
    → find_bucket i (taken i take bs) ≡ some (record b { remaining = b.remaining - take })
unfolding taken
find_bucket-taken_self i take [] b f = ground arith
find_bucket-taken_self i take (c ∷ bs) b f = ground (arith, find_bucket-taken_self i take bs b)

pub find_bucket-taken_ne :
    (i j take : ℕ) (bs : List Bucket)
    → (j == i) ≡ false
    → find_bucket j (taken i take bs) ≡ find_bucket j bs
unfolding taken
find_bucket-taken_ne i j take [] n = refl
find_bucket-taken_ne i j take (c ∷ bs) n = ground (arith, find_bucket-taken_ne i j take bs n)

pub balance-taken :
    (now i take : ℕ) (bs : List Bucket) (b : Bucket)
    → find_bucket i bs ≡ some b
    → now < b.expires_at
    → take ≤ b.remaining
    → balance now (taken i take bs) + take ≡ balance now bs
unfolding taken balance
balance-taken now i take [] b f e h = ground arith
balance-taken now i take (c ∷ bs) b f e h = ground (arith, balance-taken now i take bs b)

-- Buckets in store order and in spending order hold the same rows.
abbrev pub NoId : ℕ → List Bucket → Type 0
NoId i = All λ b. (b.id == i) ≡ false

abbrev pub DistinctIds : List Bucket → Type 0
DistinctIds [] = Unit
DistinctIds (b ∷ bs) = NoId b.id bs × DistinctIds bs

-- A local copy of a bucket that is the row of the store, and is not expired.
abbrev pub IsCurrent : ℕ → List Bucket → Bucket → Type 0
IsCurrent now rows b = (find_bucket b.id rows ≡ some b) × (now < b.expires_at)

pub find_bucket-NoId :
    (i j : ℕ) (b : Bucket) (bs : List Bucket)
    → NoId i bs
    → find_bucket j bs ≡ some b
    → (i == j) ≡ false
find_bucket-NoId i j b [] n f = ground arith
find_bucket-NoId i j b (c ∷ bs) n f = ground (arith, find_bucket-NoId i j b bs n.1)

IsCurrent-cons :
    (now : ℕ) (c : Bucket) (bs cs : List Bucket)
    → NoId c.id bs
    → All (IsCurrent now bs) cs
    → All (IsCurrent now (c ∷ bs)) cs
IsCurrent-cons now c bs [] n h = tt
IsCurrent-cons now c bs (d ∷ cs) n h =
    let other = find_bucket-NoId c.id d.id d bs n h.0.0 in
    ((rw other h.0.0, h.0.1), IsCurrent-cons now c bs cs n h.1)

keep-NoId : (p : Bucket → Bool) (i : ℕ) (bs : List Bucket) → NoId i bs → NoId i (keep p bs)
keep-NoId p i [] n = tt
keep-NoId p i (b ∷ bs) n = ground (arith, keep-NoId p i bs n.1)

pub keep-DistinctIds :
    (p : Bucket → Bool) (bs : List Bucket) → DistinctIds bs → DistinctIds (keep p bs)
keep-DistinctIds p [] d = tt
keep-DistinctIds p (b ∷ bs) d = ground (arith, keep-DistinctIds p bs d.1, keep-NoId p b.id bs d.0)

keep-IsCurrent :
    (now : ℕ) (bs : List Bucket)
    → DistinctIds bs
    → All (IsCurrent now bs) (keep (is_spendable now) bs)
keep-IsCurrent now [] d = tt
keep-IsCurrent now (b ∷ bs) d = elim (Bool-cases (is_spendable now b)) [
  | inl good ↦ rw good (
    (rw (==_refl b.id) refl, ground arith),
    IsCurrent-cons now b bs (keep (is_spendable now) bs) d.0 (keep-IsCurrent now bs d.1),
  )
  | inr bad ↦
      rw bad (IsCurrent-cons now b bs (keep (is_spendable now) bs) d.0 (keep-IsCurrent now bs d.1))
]

-- Sorting keeps predicates of all entries, distinct identifiers and sums.
module _ {κ} (P : Bucket → Type κ) where
  insert_by_expiry-All :
      (b : Bucket) (bs : List Bucket) → P b → All P bs → All P (insert_by_expiry b bs)
  unfolding insert_by_expiry
  insert_by_expiry-All b [] h k = (h, tt)
  insert_by_expiry-All b (c ∷ cs) h k = elim (Bool-cases (leb b.expires_at c.expires_at)) [
    | inl first ↦ rw first (h, k)
    | inr later ↦ rw later (k.0, insert_by_expiry-All b cs h k.1)
  ]

  pub sort_by_expiry-All : (bs : List Bucket) → All P bs → All P (sort_by_expiry bs)
  unfolding sort_by_expiry
  sort_by_expiry-All [] h = tt
  sort_by_expiry-All (b ∷ bs) h =
      insert_by_expiry-All b (sort_by_expiry bs) h.0 (sort_by_expiry-All bs h.1)

insert_by_expiry-DistinctIds :
    (b : Bucket) (bs : List Bucket)
    → NoId b.id bs
    → DistinctIds bs
    → DistinctIds (insert_by_expiry b bs)
unfolding insert_by_expiry
insert_by_expiry-DistinctIds b [] n d = (tt, tt)
insert_by_expiry-DistinctIds b (c ∷ cs) n d = elim (Bool-cases (leb b.expires_at c.expires_at)) [
  | inl first ↦ rw first (n, d)
  | inr later ↦ rw later (
    insert_by_expiry-All (λ x. (x.id == c.id) ≡ false) b cs (ground arith) d.0,
    insert_by_expiry-DistinctIds b cs n.1 d.1,
  )
]

pub sort_by_expiry-DistinctIds :
    (bs : List Bucket) → DistinctIds bs → DistinctIds (sort_by_expiry bs)
unfolding sort_by_expiry
sort_by_expiry-DistinctIds [] d = tt
sort_by_expiry-DistinctIds (b ∷ bs) d =
    insert_by_expiry-DistinctIds b (sort_by_expiry bs)
      (sort_by_expiry-All (λ x. (x.id == b.id) ≡ false) bs d.0) (sort_by_expiry-DistinctIds bs d.1)

insert_by_expiry-sum :
    (f : Bucket → ℕ) (b : Bucket) (bs : List Bucket)
    → sum_of f (insert_by_expiry b bs) ≡ f b + sum_of f bs
unfolding insert_by_expiry
insert_by_expiry-sum f b [] = refl
insert_by_expiry-sum f b (c ∷ cs) = elim (Bool-cases (leb b.expires_at c.expires_at)) [
  | inl first ↦ rw first refl
  | inr later ↦ rw later (omega (arith, insert_by_expiry-sum f b cs))
]

pub sort_by_expiry-sum :
    (f : Bucket → ℕ) (bs : List Bucket) → sum_of f (sort_by_expiry bs) ≡ sum_of f bs
unfolding sort_by_expiry
sort_by_expiry-sum f [] = refl
sort_by_expiry-sum f (b ∷ bs) =
    omega (arith, insert_by_expiry-sum f b (sort_by_expiry bs), sort_by_expiry-sum f bs)

-- The spendable buckets are rows of the store, pairwise different, and hold the balance.
pub spendable_buckets-IsCurrent :
    (now : ℕ) (s : Store)
    → DistinctIds s.buckets
    → All (IsCurrent now s.buckets) (spendable_buckets now s)
      × DistinctIds (spendable_buckets now s)
unfolding spendable_buckets
spendable_buckets-IsCurrent now s d = (
  sort_by_expiry-All (IsCurrent now s.buckets) _ (keep-IsCurrent now s.buckets d),
  sort_by_expiry-DistinctIds _ (keep-DistinctIds (is_spendable now) s.buckets d),
)

pub spendable_buckets-balance :
    (now : ℕ) (s : Store)
    → sum_of (λ b. b.remaining) (spendable_buckets now s) ≡ balance now s.buckets
unfolding spendable_buckets balance
spendable_buckets-balance now s = sort_by_expiry-sum (λ b. b.remaining) _
