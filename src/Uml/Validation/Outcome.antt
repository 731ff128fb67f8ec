-- ===== src/Uml/Validation/Outcome.antt =====
-- canonical-model.validation.ts: the outcome of a check. `CanonicalModelValidationError`, thrown
-- by `throwSemanticError` with one issue whose keyword is `semantic`, is a value.
use uml_class_designer_be.Common.{ℕ, String, Bool, true, false, ◌≡◌, refl, ◌⊎◌, inl, inr, List}

pub data PathStep : Type 0 where
  key : String → PathStep
  index : ℕ → PathStep

abbrev pub IssuePath : Type 0
IssuePath = List PathStep

-- The error, the `SyntaxError` that `BigInt` throws, or the error with the issues of the schema.
pub data Failure : Type 0 where
  semantic : (path : IssuePath) (message : String) → Failure
  syntax_error : Failure
  schema : Failure

pub data Outcome {ℓ} (A : Type ℓ) : Type ℓ where
  thrown : (failure : Failure) → Outcome A
  returned : (value : A) → Outcome A

-- What follows a check is skipped once one has thrown.
module _ {ℓ κ} {A : Type ℓ} {B : Type κ} where
  infixl 5 ◌>>=◌
  abbrev pub ◌>>=◌ : Outcome A → (A → Outcome B) → Outcome B
  thrown failure >>= next = thrown failure
  returned value >>= next = next value

  pub >>=-eq-returned :
      (check : Outcome A) (next : A → Outcome B) {result : B}
      → (check >>= next) ≡ returned result
      → (value : A) × (check ≡ returned value) × (next value ≡ returned result)
  >>=-eq-returned (thrown failure) next h = absurd (cc)
  >>=-eq-returned (returned value) next h = (value, refl, h)

infixl 5 ◌>>◌
abbrev pub ◌>>◌ {κ} : {B : Type κ} → Outcome (Unit {0}) → Outcome B → Outcome B
check >> rest = check >>= λ done. rest

-- `if (test) throwSemanticError(path, message)`
abbrev pub refuse_if : Bool → IssuePath → String → Outcome (Unit {0})
refuse_if true path message = thrown (semantic path message)
refuse_if false path message = returned tt

pub Outcome-cases {ℓ} :
    {A : Type ℓ} (m : Outcome A) → ((a : A) × (m ≡ returned a)) ⊎ ((e : Failure) × (m ≡ thrown e))
Outcome-cases (returned a) = inl (a, refl)
Outcome-cases (thrown e) = inr (e, refl)

pub refuse_if-eq-returned {ℓ} :
    {A : Type ℓ} (b : Bool) (path : IssuePath) (message : String) (k : Unit {0} → Outcome A) {a : A}
    → (refuse_if b path message >>= k) ≡ returned a
    → (b ≡ false) × (k tt ≡ returned a)
refuse_if-eq-returned true path message k h = cc
refuse_if-eq-returned false path message k h = (refl, h)

pub returned_inj {ℓ} : {A : Type ℓ} {a b : A} → returned a ≡ returned b → a ≡ b
returned_inj h = cc
