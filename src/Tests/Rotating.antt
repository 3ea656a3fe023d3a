-- ===== src/Tests/Rotating.antt =====
-- internal/adapters/gemini at concrete inputs.
use guard_pipe.Prelude.{ℕ, ◌≡◌, refl, [], ◌∷◌, some, if◌then◌else◌, String, str_eq}
use guard_pipe.Errors.{Result, ok, err, fail_with, rate_limited}
use guard_pipe.Gemini.Rotation.{KeyPool, complete, attempts, current_key, advance, is_quota_error}

-- Of three keys the last, which is the current one, has no quota left.
abbrev pool : KeyPool
pool = record { keys = "one" ∷ "two" ∷ "three" ∷ []; current = 2 }

abbrev ask : ℕ → String → Result String
ask i key = if str_eq key "three" then err (fail_with rate_limited "gemini.quota") else ok key

answered : complete ask pool ≡ some (ok "one", record pool { current = 0 })
unfolding complete attempts current_key advance is_quota_error
answered = refl
