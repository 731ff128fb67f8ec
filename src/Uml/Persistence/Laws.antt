-- ===== src/Uml/Persistence/Laws.antt =====
-- canonical-model.validator.ts: what is stored has passed the check under the stored identifiers.
use uml_class_designer_be.Common.{
  ℕ, true, ◌≡◌, sym, ap, ◌∙◌, subst, some, arith, All, inl, inr, Bool-cases,
}
use uml_class_designer_be.Uml.Types.{CanonicalUmlModel}
use uml_class_designer_be.Uml.Engine.{Engine}
use uml_class_designer_be.Uml.Validation.Outcome.{returned, >>=-eq-returned, returned_inj}
use uml_class_designer_be.Uml.Validation.{assert_canonical_semantic_integrity}
use uml_class_designer_be.Uml.Validation.Semantics.{
  IsSound, assert_canonical_semantic_integrity-IsSound,
}
use uml_class_designer_be.Uml.Persistence.{
  PersistenceIdentity, validate_canonical_model, validate_and_normalize, remapped, stamped,
  to_canonical_persistence_id,
}
use uml_class_designer_be.Uml.Persistence.Stamp.{stamped-IsSound}
use uml_class_designer_be.Uml.Multiplicity.{codes}
use uml_class_designer_be.Uml.Validation.Characters.Laws.{IsXmlChar}

pub validate_canonical_model-eq-returned :
    (engine : Engine) (value : CanonicalUmlModel) {document : CanonicalUmlModel}
    → validate_canonical_model engine value ≡ returned document
    → (document ≡ value) × (engine.conforms value ≡ true) × IsSound value
unfolding validate_canonical_model
validate_canonical_model-eq-returned engine value h = elim (Bool-cases (engine.conforms value)) [
  | inr bad ↦ absurd (ground arith)
  | inl good ↦
      let (_, passed, done) =
        >>=-eq-returned (assert_canonical_semantic_integrity engine.locale_lower_case value)
          (λ _. returned value) (ground arith) in
      (
        sym (returned_inj done),
        good,
        assert_canonical_semantic_integrity-IsSound engine.locale_lower_case value passed,
      )
]

-- What a normalization for storage has checked.
pub normalized_unstamped :
    (engine : Engine) (value document : CanonicalUmlModel) (revision now : ℕ)
    → (identity : PersistenceIdentity)
    → validate_and_normalize engine value revision now (some identity) ≡ returned document
    → (document ≡ stamped revision (engine.iso now) (remapped engine identity value))
      × (engine.conforms (remapped engine identity value) ≡ true)
      × IsSound (remapped engine identity value)
unfolding validate_and_normalize
normalized_unstamped engine value document revision now identity h =
    let (normalized, first, h₁) = >>=-eq-returned (validate_canonical_model engine value) _ h in
    let (renamed, second, h₂) =
      >>=-eq-returned (validate_canonical_model engine (remapped engine identity normalized)) _
        h₁ in
    let (same, _, _) = validate_canonical_model-eq-returned engine value first in
    let (again, conforming, sound) =
      validate_canonical_model-eq-returned engine (remapped engine identity normalized) second in
    let moved = ap (remapped engine identity) same in
    (
      sym (returned_inj h₂) ∙ ap (stamped revision (engine.iso now)) (again ∙ moved),
      ap engine.conforms (sym moved) ∙ conforming,
      subst IsSound moved sound,
    )

-- The document under the identifiers of the database.
abbrev pub under_identity : Engine → PersistenceIdentity → CanonicalUmlModel → CanonicalUmlModel
under_identity engine identity value = record value {
  project = record value.project {
    id = to_canonical_persistence_id engine "project" identity.project_id;
  };
  diagram = record value.diagram {
    id = to_canonical_persistence_id engine "diagram" identity.document_id;
  };
}

-- A document that is normalized for storage is the one given, but for the identifiers of its
-- project and its diagram, which are those of the database, and for its stamp, the revision and
-- the time. It is sound, if the text of the time is of characters that XML 1.0 has, and it
-- conforms to the schema before it is stamped.
pub validate_and_normalize-IsSound :
    (engine : Engine) (value document : CanonicalUmlModel) (revision now : ℕ)
    → (identity : PersistenceIdentity) → All IsXmlChar (codes (engine.iso now))
    → validate_and_normalize engine value revision now (some identity) ≡ returned document
    → (document ≡ record value {
      project = record value.project {
        id = to_canonical_persistence_id engine "project" identity.project_id;
      };
      diagram = record value.diagram {
        id = to_canonical_persistence_id engine "diagram" identity.document_id;
      };
      metadata = record value.metadata { revision = revision; updated_at = engine.iso now };
    })
      × (engine.conforms (under_identity engine identity value) ≡ true)
      × IsSound document
unfolding remapped stamped
validate_and_normalize-IsSound engine value document revision now identity printable h =
    let (same, conforming, sound) =
      normalized_unstamped engine value document revision now identity h in
    (
      same,
      conforming,
      subst IsSound (sym same) (
          stamped-IsSound revision (engine.iso now) (remapped engine identity value) printable
            sound),
    )
