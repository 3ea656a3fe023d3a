-- ===== src/Errors.antt =====
-- internal/platform/errors/errors.go: typed application errors and the HTTP status of each kind.
-- An error keeps its kind and its code; titles, details, fields and extensions are texts for the
-- client. `Result` is Go's pair of a value and an error.
use guard_pipe.Prelude.{ℕ, ◌⊎◌, inl, inr, ◌≡◌, refl, subst, String, Bool, true, false}

pub data Kind : Type 0 where
  not_found conflict validation unauthorized forbidden rate_limited : Kind
  external internal unprocessable payment_required : Kind

unfoldable pub status_for : Kind → ℕ
status_for not_found = 404
status_for conflict = 409
status_for validation = 400
status_for unauthorized = 401
status_for forbidden = 403
status_for rate_limited = 429
status_for external = 502
status_for internal = 500
status_for unprocessable = 422
status_for payment_required = 402

pub record AppError : Type 0 where
  pub kind : Kind
  pub code : String

-- `Internal(err)`: the cause is for the log only.
abbrev pub internal_error : AppError
internal_error = record { kind = internal; code = "internal.unexpected" }

abbrev pub fail_with : Kind → String → AppError
fail_with k c = record { kind = k; code = c }

pub data Result {u} (V : Type u) : Type u where
  err : AppError → Result V
  ok : V → Result V

-- What follows `if err != nil { return err }`: an error stops, a value goes on.
abbrev pub ◌>>=◌ {u v} : {V : Type u} {W : Type v} → Result V → (V → Result W) → Result W
err x >>= next = err x
ok value >>= next = next value

-- The same, for a test that gives no value.
abbrev pub ◌>>◌ {v} : {W : Type v} → Result (Unit {0}) → Result W → Result W
test >> next = test >>= λ _. next

infixl 5 ◌>>=◌ ◌>>◌
-- `if cond { return err }`
abbrev pub refuse_if : Bool → AppError → Result (Unit {0})
refuse_if false e = ok tt
refuse_if true e = err e

-- What holds of the value, if there is one.
abbrev pub OnOk {ℓ κ} : {A : Type ℓ} → (A → Type κ) → Result A → Type κ
OnOk P (ok a) = P a
OnOk P (err e) = Unit

pub OnOk-bind {ℓ ℓ' κ κ'} :
    {A : Type ℓ} {B : Type ℓ'} (P : A → Type κ) (Q : B → Type κ') (m : Result A) (f : A → Result B)
    → OnOk P m
    → ((a : A) → P a → OnOk Q (f a))
    → OnOk Q (m >>= f)
OnOk-bind P Q (ok a) f h k = k a h
OnOk-bind P Q (err e) f h k = tt

pub ok_inj {ℓ} : {A : Type ℓ} {a b : A} → ok a ≡ ok b → a ≡ b
ok_inj h = cc

pub OnOk-ok {ℓ κ} : {A : Type ℓ} (P : A → Type κ) (m : Result A) {a : A} → m ≡ ok a → OnOk P m → P a
OnOk-ok P (ok b) e h = subst P (ok_inj e) h
OnOk-ok P (err x) e h = cc

pub OnOk-weaken {ℓ κ κ'} :
    {A : Type ℓ} (P : A → Type κ) (Q : A → Type κ') (m : Result A)
    → OnOk P m
    → ((a : A) → P a → Q a)
    → OnOk Q m
OnOk-weaken P Q (ok a) h f = f a h
OnOk-weaken P Q (err e) h f = tt

pub Result-cases {ℓ} :
    {A : Type ℓ} (m : Result A) → ((a : A) × (m ≡ ok a)) ⊎ ((e : AppError) × (m ≡ err e))
Result-cases (ok a) = inl (a, refl)
Result-cases (err e) = inr (e, refl)

-- Where a guard and what follows succeed, the guard did not fire and what follows succeeds.
pub refuse_if-eq-ok {v} :
    {W : Type v} (stop : Bool) (e : AppError) (next : Result W) {w : W}
    → (refuse_if stop e >> next) ≡ ok w
    → (stop ≡ false) × (next ≡ ok w)
refuse_if-eq-ok true e next run = cc
refuse_if-eq-ok false e next run = (refl, run)

-- Where a step and what follows succeed, the step gives a value with which what follows succeeds.
pub bind-eq-ok {u v} :
    {V : Type u} {W : Type v} (step : Result V) (next : V → Result W) {w : W}
    → (step >>= next) ≡ ok w
    → (value : V) × (step ≡ ok value) × (next value ≡ ok w)
bind-eq-ok (err x) next run = cc
bind-eq-ok (ok value) next run = (value, refl, run)
