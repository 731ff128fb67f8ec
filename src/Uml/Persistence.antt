-- ===== src/Uml/Persistence.antt =====
-- src/modules/uml-domain/canonical-model.validator.ts, and `validateCanonicalModel` of
-- canonical-model.validation.ts. `structuredClone` is the identity on values.
pub mod Stamp
pub mod Laws
use Prim.Native.Char.{code}
use Prim.Native.String.{◌++◌ as str_append}
use uml_class_designer_be.Common.{ℕ, String, Option, none, some, nat_eq, if◌then◌else◌}
use uml_class_designer_be.Uml.Types.{CanonicalUmlModel}
use uml_class_designer_be.Uml.Engine.{Engine}
use uml_class_designer_be.Uml.Validation.Outcome.{Failure, Outcome, returned, thrown, ◌>>=◌, ◌>>◌}
use uml_class_designer_be.Uml.Validation.{assert_canonical_semantic_integrity}

unfoldable pub validate_canonical_model : Engine → CanonicalUmlModel → Outcome CanonicalUmlModel
validate_canonical_model engine value =
    if engine.conforms value
    then (assert_canonical_semantic_integrity engine.locale_lower_case value >>= λ _.
        returned value)
    else thrown Failure.schema

-- `replaceAll('-', '')`
abbrev pub without_dashes : String → String
without_dashes String.[] = String.[]
without_dashes (String.◌∷◌ c s) =
    if nat_eq (code c) b'-' then without_dashes s else String.◌∷◌ c (without_dashes s)

unfoldable pub to_canonical_persistence_id : Engine → String → String → String
to_canonical_persistence_id engine prefix id =
    str_append prefix (str_append "_" (without_dashes (engine.lower_case id)))

pub record PersistenceIdentity : Type 0 where
  pub project_id : String
  pub document_id : String

unfoldable pub remapped : Engine → PersistenceIdentity → CanonicalUmlModel → CanonicalUmlModel
remapped engine identity document = record document {
  project = record document.project {
    id = to_canonical_persistence_id engine "project" identity.project_id;
  };
  diagram = record document.diagram {
    id = to_canonical_persistence_id engine "diagram" identity.document_id;
  };
}

unfoldable pub stamped : ℕ → String → CanonicalUmlModel → CanonicalUmlModel
stamped revision updated_at document = record document {
  metadata = record document.metadata { revision = revision; updated_at = updated_at };
}

-- A `CanonicalModelValidationError` becomes a `BadRequestException` with the same issues: the
-- failure is kept.
unfoldable pub validate_and_normalize :
    Engine → CanonicalUmlModel → ℕ → ℕ → Option PersistenceIdentity → Outcome CanonicalUmlModel
validate_and_normalize engine value persisted_revision updated_at none = do
  normalized ← validate_canonical_model engine value
  returned (stamped persisted_revision (engine.iso updated_at) normalized)
validate_and_normalize engine value persisted_revision updated_at (some identity) = do
  normalized ← validate_canonical_model engine value
  renamed ← validate_canonical_model engine (remapped engine identity normalized)
  returned (stamped persisted_revision (engine.iso updated_at) renamed)
