-- ===== src/Project/Frame.antt =====
-- What a list keeps of the rows that pass a test, where only others change.
use guard_pipe.Prelude.{
  ◌≡◌, refl, ap, ◌∙◌, Bool, false, List, [], ◌∷◌, ◌++◌, some, keep, map, find?, Bool-cases, inl,
  inr, arith, ◌⊎◌, some_inj,
}
use guard_pipe.Organization.Store.{update_first}

module _ {ℓ} {A : Type ℓ} (p : A → Bool) where
  pub keep-map_same :
      (f : A → A) (xs : List A)
      → ((x : A) → (f x ≡ x) ⊎ ((p x ≡ false) × (p (f x) ≡ false)))
      → keep p (map f xs) ≡ keep p xs
  keep-map_same f [] h = refl
  keep-map_same f (x ∷ xs) h = elim (h x) [
    | inl same ↦ rw (same, keep-map_same f xs h) refl
    | inr gone ↦ rw (gone.0, gone.1) (keep-map_same f xs h)
  ]

  pub keep-append_gone : (xs : List A) (x : A) → p x ≡ false → keep p (xs ++ (x ∷ [])) ≡ keep p xs
  keep-append_gone [] x h = rw h refl
  keep-append_gone (y ∷ ys) x h = ground (arith, keep-append_gone ys x h)

  pub keep-keep :
      (r : A → Bool) (xs : List A)
      → ((x : A) → r x ≡ false → p x ≡ false)
      → keep p (keep r xs) ≡ keep p xs
  keep-keep r [] h = refl
  keep-keep r (x ∷ xs) h = elim (Bool-cases (r x)) [
    | inl stays ↦ rw (stays) (ground (arith, keep-keep r xs h))
    | inr goes ↦ rw (goes, h x goes) (keep-keep r xs h)
  ]

  pub keep-update_first :
      (r : A → Bool) (f : A → A) (xs : List A) (y : A)
      → find? r xs ≡ some y
      → p y ≡ false
      → p (f y) ≡ false
      → keep p (update_first r f xs) ≡ keep p xs
  keep-update_first r f [] y found old new = cc
  keep-update_first r f (x ∷ xs) y found old new = elim (Bool-cases (r x)) [
    | inl hit ↦
        let same : x ≡ y = some_inj (rw hit at found) in
        rw (hit, ap p same ∙ old, ap (λ z. p (f z)) same ∙ new) refl
    | inr miss ↦ rw miss (ground (arith, keep-update_first r f xs y (rw miss at found) old new))
  ]
