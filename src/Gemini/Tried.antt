-- ===== src/Gemini/Tried.antt =====
-- internal/adapters/gemini: which keys a call tries.
use guard_pipe.Prelude.{ℕ, zero, suc, ◌+◌, ◌%◌, List, [], ◌∷◌, ◌++◌, if◌then◌else◌, length, String}
use guard_pipe.Errors.{Result, ok, err}
use guard_pipe.Gemini.Rotation.{KeyPool, is_quota_error, gemini_unavailable}

abbrev pub drop : ℕ → List String → List String
drop zero ks = ks
drop (suc n) [] = []
drop (suc n) (k ∷ ks) = drop n ks

abbrev pub take : ℕ → List String → List String
take zero ks = []
take (suc n) [] = []
take (suc n) (k ∷ ks) = k ∷ take n ks

-- Every key of the pool once, from the current one.
abbrev pub rotation : KeyPool → List String
rotation p = drop p.current p.keys ++ take p.current p.keys

module _ {R : Type 0} (ask : ℕ → String → Result R) where
  -- The first reply that is not a quota error, and how many keys were passed over.
  unfoldable pub first_reply : ℕ → List String → Result R × ℕ
  first_reply i [] = (err gemini_unavailable, i)
  first_reply i (k ∷ ks) =
      let rest = first_reply (suc i) ks in
      elim (ask i k) [ ok r ↦ (ok r, i) | err e ↦ if is_quota_error e then rest else (err e, i) ]

  abbrev pub at_offset : KeyPool → Result R × ℕ → Result R × KeyPool
  at_offset p r = (r.0, record p { current = (p.current + r.1) % length p.keys })

  abbrev moved : KeyPool → ℕ → KeyPool
  moved p i = record p { current = (p.current + i) % length p.keys }
