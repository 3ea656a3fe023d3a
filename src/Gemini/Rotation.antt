-- ===== src/Gemini/Rotation.antt =====
-- internal/adapters/gemini/rotation.go, and Complete in client.go. One request to the API is a parameter:
-- what it gives for the attempt and the key. One call at a time uses the pool.
use guard_pipe.Prelude.{
  ℕ, zero, suc, ◌+◌, ◌%◌, Bool, true, false, List, [], ◌∷◌, Option, none, some, if◌then◌else◌,
  length, String,
}
use guard_pipe.Errors.{AppError, Kind, rate_limited, external, Result, ok, err, fail_with}

pub record KeyPool : Type 0 where
  pub keys : List String
  pub current : ℕ

abbrev pub key_at : List String → ℕ → Option String
key_at [] i = none
key_at (k ∷ ks) zero = some k
key_at (k ∷ ks) (suc i) = key_at ks i

-- `NewKeyPool`
abbrev pub new_key_pool : List String → KeyPool
new_key_pool keys = record { keys = keys; current = 0 }

-- None where Go's index would panic.
unfoldable pub current_key : KeyPool → Option String
current_key p = key_at p.keys p.current

unfoldable pub advance : KeyPool → KeyPool
advance p = record p { current = (p.current + 1) % length p.keys }

abbrev pub is_rate_limited : Kind → Bool
is_rate_limited rate_limited = true
is_rate_limited _ = false

unfoldable pub is_quota_error : AppError → Bool
is_quota_error e = is_rate_limited e.kind

abbrev pub gemini_unavailable : AppError
gemini_unavailable = fail_with external "gemini.unavailable"

module _ {R : Type 0} (ask : ℕ → String → Result R) where
  -- The loop, with the attempts that are left and the number of this one.
  unfoldable pub attempts : ℕ → ℕ → KeyPool → Option (Result R × KeyPool)
  attempts zero i p = some (err gemini_unavailable, p)
  attempts (suc left) i p =
      let rest = attempts left (suc i) (advance p) in
      elim (current_key p) [
        | none ↦ none
        | some key ↦ elim (ask i key) [
          | ok r ↦ some (ok r, p)
          | err e ↦ if is_quota_error e then rest else some (err e, p)
        ]
      ]

  unfoldable pub complete : KeyPool → Option (Result R × KeyPool)
  complete p = attempts (length p.keys) 0 p
