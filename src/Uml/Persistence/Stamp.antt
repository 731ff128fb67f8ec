-- ===== src/Uml/Persistence/Stamp.antt =====
-- canonical-model.validator.ts: the stamp of a sound document leaves it sound.
use uml_class_designer_be.Common.{String, List, [], ◌∷◌, ◌++◌, All, ℕ}
use uml_class_designer_be.Uml.Types.{Metadata, CanonicalUmlModel}
use uml_class_designer_be.Uml.Json.{Json, string, object}
use uml_class_designer_be.Uml.View.{
  entries, metadata_view, project_view, diagram_view, document_view,
}
use uml_class_designer_be.Uml.Multiplicity.{codes}
use uml_class_designer_be.Uml.Validation.Outcome.{key}
use uml_class_designer_be.Uml.Validation.Characters.Laws.{
  IsXmlChar, IsXmlSafe, At, InEntries, here, in_object, in_value, in_others,
}
use uml_class_designer_be.Uml.Validation.Semantics.{IsSound}
use uml_class_designer_be.Uml.Persistence.{stamped}

-- The value of the last key is replaced by another that is safe.
last_replaced :
    (before : List (String × Json)) (k : String) (v w : Json)
    → IsXmlSafe (InEntries (entries (before ++ (k, v) ∷ [])))
    → IsXmlSafe (At w)
    → IsXmlSafe (InEntries (entries (before ++ (k, w) ∷ [])))
last_replaced [] k v w h new p s (in_value _ _ _ q _ m) = new q s m
last_replaced [] k v w h new p s (in_others _ _ _ _ _ m) = elim m [ ]
last_replaced ((j, u) ∷ before) k v w h new p s (in_value _ _ _ q _ m) =
    h (key j ∷ q) s (in_value j u _ q s m)
last_replaced ((j, u) ∷ before) k v w h new p s (in_others _ _ _ _ _ m) =
    last_replaced before k v w (λ q t n. h q t (in_others j u _ q t n)) new p s m

only_string : (t : String) → All IsXmlChar (codes t) → IsXmlSafe (At (string t))
only_string t good p s (here _) = good

metadata-IsXmlSafe :
    (m : Metadata) (revision : ℕ) (updated_at : String)
    → IsXmlSafe (At (metadata_view m))
    → All IsXmlChar (codes updated_at)
    → IsXmlSafe (At (metadata_view (record m { revision = revision; updated_at = updated_at })))
metadata-IsXmlSafe m revision updated_at h good p s (in_object _ _ _ (in_value k v rest q _ n)) =
    h p s (in_object _ p s (in_value k v _ q s n))
metadata-IsXmlSafe m revision updated_at h good p s
      (in_object _ _ _ (in_others _ _ _ _ _ (in_value _ _ _ q _ n))) =
    only_string updated_at good q s n
metadata-IsXmlSafe m revision updated_at h good p s
      (in_object _ _ _ (in_others j u _ _ _ (in_others k v rest _ _ n))) =
    h p s (in_object _ p s (in_others j u _ p s (in_others k _ rest p s n)))

document_metadata :
    (d : CanonicalUmlModel)
    → IsXmlSafe (At (document_view d))
    → IsXmlSafe (At (metadata_view d.metadata))
unfolding document_view
document_metadata d h p s m = h (key "metadata" ∷ p) s (
    in_object _ _ s (
      in_others _ _ _ _ s (
        in_others _ _ _ _ s
          (in_others _ _ _ _ s (in_value "metadata" (metadata_view d.metadata) _ p s m)))))

last_of_object :
    (before : List (String × Json)) (k : String) (v w : Json)
    → IsXmlSafe (At (object (entries (before ++ (k, v) ∷ []))))
    → IsXmlSafe (At w)
    → IsXmlSafe (At (object (entries (before ++ (k, w) ∷ []))))
last_of_object before k v w h new p s (in_object _ _ _ m) =
    last_replaced before k v w (λ q t n. h q t (in_object _ q t n)) new p s m

pub stamped-IsSound :
    (revision : ℕ) (updated_at : String) (d : CanonicalUmlModel)
    → All IsXmlChar (codes updated_at)
    → IsSound d
    → IsSound (stamped revision updated_at d)
unfolding stamped document_view
stamped-IsSound revision updated_at d good h = record {
  safe =
      last_of_object
        (("schemaVersion", string "0.1.0")
          ∷ ("project", project_view d.project)
          ∷ ("diagram", diagram_view d.diagram)
          ∷ [])
        "metadata" (metadata_view d.metadata)
        (metadata_view (record d.metadata { revision = revision; updated_at = updated_at })) h.safe
        (metadata-IsXmlSafe d.metadata revision updated_at (document_metadata d h.safe) good);
  ids_distinct = h.ids_distinct;
  well_formed = h.well_formed;
  linked = h.linked;
  apart = h.apart;
  generalization_acyclic = h.generalization_acyclic;
  composition_acyclic = h.composition_acyclic;
}
