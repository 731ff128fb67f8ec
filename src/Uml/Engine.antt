-- ===== src/Uml/Engine.antt =====
-- What the code calls that the repository does not hold.
use uml_class_designer_be.Common.{ℕ, String, Bool}
use uml_class_designer_be.Uml.Types.{Diagram, CanonicalUmlModel}
use uml_class_designer_be.Uml.Command.{UmlCommand}

pub record Engine : Type 0 where
  -- `toLocaleLowerCase('es')` and `toLowerCase()`, by the tables of the platform
  pub locale_lower_case : String → String
  pub lower_case : String → String
  -- `JSON.stringify` of a diagram
  pub stringify : Diagram → String
  -- `new Date(ms).toISOString()`
  pub iso : ℕ → String
  -- the validator that Ajv compiles from contracts/uml-model.schema.json
  pub conforms : CanonicalUmlModel → Bool
  -- class-validator's `isUUID(x, '4')`
  pub is_uuid : String → Bool
  -- `commandFingerprint`: SHA-256 of the base revision and the command in a stable form
  pub fingerprint : ℕ → UmlCommand → String
