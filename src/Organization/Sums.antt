-- ===== src/Organization/Sums.antt =====
-- Sums over rows of which one is updated or deleted.
use guard_pipe.Prelude.{
  ℕ, ◌+◌, ◌≤◌, ◌≡◌, refl, sym, subst, inl, inr, Bool, List, [], ◌∷◌, some, arith, if◌then◌else◌,
  find?, keep, sum_of, some_inj, Bool-cases,
}
use guard_pipe.Organization.Store.{update_first, delete_first}

-- Sums over a list of which one row changes.
module _ {ℓ} {A : Type ℓ} (w : A → ℕ) (p : A → Bool) where
  pub sum_of-update_first_any :
      (f : A → A) (xs : List A)
      → ((x : A) → w x ≤ 1)
      → sum_of w xs ≤ sum_of w (update_first p f xs) + 1
  sum_of-update_first_any f [] small = omega arith
  sum_of-update_first_any f (x ∷ xs) small =
      ground (arith, small x, sum_of-update_first_any f xs small)

  pub sum_of-update_first :
      (f : A → A) (xs : List A) {x : A}
      → find? p xs ≡ some x
      → w x ≤ w (f x)
      → sum_of w xs ≤ sum_of w (update_first p f xs)
  sum_of-update_first f [] found h = omega arith
  sum_of-update_first f (y ∷ ys) {x} found h = elim (Bool-cases (p y)) [
    | inl hit ↦
        let same : y ≡ x = some_inj (rw hit at found) in
        let grows : w y ≤ w (f y) = subst (λ z. w z ≤ w (f z)) (sym same) h in
        rw hit (omega (arith, grows))
    | inr miss ↦ rw miss (omega (arith, sum_of-update_first f ys {x = x} (rw miss at found) h))
  ]

  pub sum_of-delete_first_any :
      (xs : List A) → ((x : A) → w x ≤ 1) → sum_of w xs ≤ sum_of w (delete_first p xs) + 1
  sum_of-delete_first_any [] small = omega arith
  sum_of-delete_first_any (x ∷ xs) small = ground (arith, small x, sum_of-delete_first_any xs small)

  pub sum_of-delete_first :
      (xs : List A) {x : A}
      → find? p xs ≡ some x
      → w x ≡ 0
      → sum_of w xs ≤ sum_of w (delete_first p xs)
  sum_of-delete_first [] found h = omega arith
  sum_of-delete_first (y ∷ ys) {x} found h = elim (Bool-cases (p y)) [
    | inl hit ↦
        let same : y ≡ x = some_inj (rw hit at found) in
        let none_here : w y ≡ 0 = subst (λ z. w z ≡ 0) (sym same) h in
        rw hit (omega (arith, none_here))
    | inr miss ↦ rw miss (omega (arith, sum_of-delete_first ys {x = x} (rw miss at found) h))
  ]

  pub sum_of-keep : (xs : List A) → sum_of w (keep p xs) ≡ sum_of (λ x. if p x then w x else 0) xs
  sum_of-keep [] = refl
  sum_of-keep (x ∷ xs) = ground (arith, sum_of-keep xs)
