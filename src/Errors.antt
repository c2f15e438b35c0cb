-- ===== src/Errors.antt =====
-- error.go, and the errors that the package builds with `fmt.Errorf` and `%w`.
use go_dbw.Prelude.{ℕ, String, ◌≡◌, ◌≢◌, refl, Bool, true, false, List, eqb, ◌⊎◌, inl, inr}

-- The package's sentinels.
pub data Sentinel : Type 0 where
  unknown invalid_parameter internal record_not_found max_retries invalid_field_mask : Sentinel

-- An operand of a format that is printed, and not wrapped.
pub data Arg : Type 0 where
  text_arg : String → Arg
  texts_arg : List String → Arg
  number_arg : ℕ → Arg

-- An error keeps its format and operands; the text is not rendered.
pub data Error : Type 0 where
  sentinel : Sentinel → Error
  -- `gorm.ErrRecordNotFound`
  gorm_not_found : Error
  -- any other error of gorm, of a driver or of the caller's code
  foreign : String → Error
  -- `fmt.Errorf(format, args..., cause)` with `%w` for the cause
  errorf : String → List Arg → Error → Error
  -- `fmt.Errorf` that wraps nothing
  plain : String → List Arg → Error

abbrev sentinel_code : Sentinel → ℕ
sentinel_code unknown = 0
sentinel_code invalid_parameter = 1
sentinel_code internal = 2
sentinel_code record_not_found = 3
sentinel_code max_retries = 4
sentinel_code invalid_field_mask = 5

-- `errors.Is(e, s)` for a sentinel of the package.
abbrev pub errors_is : Error → Sentinel → Bool
errors_is (sentinel r) s = eqb (sentinel_code r) (sentinel_code s)
errors_is gorm_not_found s = false
errors_is (foreign _) s = false
errors_is (errorf _ _ e) s = errors_is e s
errors_is (plain _ _) s = false

-- The comparison `err == gorm.ErrRecordNotFound`.
abbrev pub is_gorm_not_found : Error → Bool
is_gorm_not_found gorm_not_found = true
is_gorm_not_found _ = false

-- What a call gives: a result, an error, or a run-time panic.
pub data Outcome {ℓ} (A : Type ℓ) : Type ℓ where
  ok : A → Outcome A
  err : Error → Outcome A
  panic : Outcome A

infixl 5 ◌>>=◌
abbrev pub ◌>>=◌ {ℓ κ} : {X : Type ℓ} {Y : Type κ} → Outcome X → (X → Outcome Y) → Outcome Y
ok x >>= next = next x
err e >>= next = err e
panic >>= next = panic

infixl 5 ◌>>◌
abbrev pub ◌>>◌ {ℓ} : {Y : Type ℓ} → Outcome (Unit {0}) → Outcome Y → Outcome Y
m >> k = m >>= λ _. k

-- An early return with an error if the test holds.
abbrev pub fail_if : Bool → Error → Outcome (Unit {0})
fail_if true e = err e
fail_if false e = ok tt

-- To split on an outcome and keep the equation.
pub Outcome-cases {ℓ} :
    {A : Type ℓ} (m : Outcome A)
    → ((a : A) × (m ≡ ok a)) ⊎ (((e : Error) × (m ≡ err e)) ⊎ (m ≡ panic))
Outcome-cases (ok a) = inl (a, refl)
Outcome-cases (err e) = inr (inl (e, refl))
Outcome-cases panic = inr (inr refl)

-- What holds if an outcome is a success: either it is none, or it holds.
pub fails_or {ℓ} : {X : Type ℓ} (m : Outcome (Unit {0})) → (m ≡ ok tt → X) → (m ≢ ok tt) ⊎ X
fails_or (ok _) f = inr (f refl)
fails_or (err e) f = inl (λ h. cc)
fails_or panic f = inl (λ h. cc)

-- The same for a panic, with what holds of any other outcome.
pub panics_or {ℓ} :
    {X Y : Type ℓ} (m : Outcome (Unit {0}))
    → (m ≡ panic → X)
    → (m ≢ panic → Y)
    → ((m ≡ panic) × X) ⊎ ((m ≢ panic) × Y)
panics_or panic f g = inl (refl, f refl)
panics_or (ok _) f g = inr (λ h. cc, g (λ h. cc))
panics_or (err e) f g = inr (λ h. cc, g (λ h. cc))

-- A chain that gives a result had one from its first step.
pub >>=-eq-ok {ℓ κ} :
    {X : Type ℓ} {Y : Type κ} (r : Outcome X) (next : X → Outcome Y) {y : Y}
    → (r >>= next) ≡ ok y
    → (x : X) × (r ≡ ok x) × (next x ≡ ok y)
>>=-eq-ok panic next h = cc
>>=-eq-ok (err e) next h = cc
>>=-eq-ok (ok x) next h = (x, refl, h)
