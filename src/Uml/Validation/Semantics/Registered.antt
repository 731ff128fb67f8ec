-- ===== src/Uml/Validation/Semantics/Registered.antt =====
-- canonical-model.validation.ts: what has been registered, and the maps of a check, hold.
use uml_class_designer_be.Common.{
  String, true, false, ◌≡◌, refl, sym, ap, subst, ◌∙◌, inl, inr, List, [], ◌∷◌, ◌++◌, map, contains,
  keys, IsDistinct, All, arith, contains-append, eq_iff, insert, keys-insert_new,
  IsDistinct-append-ne, IsDistinct-append_right, Bool, Memᴰ_of_contains, lookup-insert, eq_refl,
  if◌then◌else◌, ◌==◌,
}
use mathlib.Core.List.{append_assoc, append-nil, Memᴰ}
use uml_class_designer_be.Uml.Types.{
  UmlClassifier, UmlRelationship, UmlPosition, RelationshipKind, Diagram, CanonicalUmlModel,
}
use uml_class_designer_be.Uml.Executor.Identity.{relationship_ids}
use uml_class_designer_be.Uml.Validation.Outcome.{returned}
use uml_class_designer_be.Uml.Validation.Acyclic.Cycles.{Walk}
use uml_class_designer_be.Uml.Validation.Acyclic.Fuel.{has_cycle-decides}
use uml_class_designer_be.Uml.Validation.Classifiers.{Classifiers}
use uml_class_designer_be.Uml.Validation.Classifiers.Identifiers.{
  classifier_ids, operation_ids, insert_all,
}
use uml_class_designer_be.Uml.Validation.Acyclic.{Adjacency, targets_of, adjacency_from}
use uml_class_designer_be.Uml.Validation.Relationships.{is_kind, kind_name}
use uml_class_designer_be.Uml.Validation.{adjacency, assert_acyclic}

-- Every identifier of a document, in the order in which it is registered.
abbrev pub all_ids : CanonicalUmlModel → List String
all_ids d =
    (d.project.id ∷ [])
    ++ ((d.diagram.id ∷ []) ++ (classifier_ids d.diagram.elements ++ relationship_ids d.diagram))

-- A path of relationships of a kind, one or more, each from its source to its target.
pub data Follows (rs : List UmlRelationship) (kind : RelationshipKind)
    : String → String → Type 0 where
  one :
      (r : UmlRelationship)
      → Memᴰ r rs
      → r.kind ≡ kind
      → Follows rs kind r.source.element_id r.target.element_id
  more :
      (x : String) (r : UmlRelationship)
      → Follows rs kind x r.source.element_id
      → Memᴰ r rs
      → r.kind ≡ kind
      → Follows rs kind x r.target.element_id

abbrev pub IsAcyclic : Diagram → RelationshipKind → Type 0
IsAcyclic d kind = (x : String) → ¬ Follows d.relationships kind x x

targets_of-insert :
    (k x : String) (ts : List String) (g : Adjacency)
    → targets_of (insert k ts g) x ≡ (if k == x then ts else targets_of g x)
targets_of-insert k x ts g = ground (arith, lookup-insert k x ts g)

-- What the map has already stays in it.
adjacency_from-keeps :
    (p : RelationshipKind → Bool) (rs : List UmlRelationship) (g : Adjacency) (x y : String)
    → contains y (targets_of g x) ≡ true
    → contains y (targets_of (adjacency_from p rs g) x) ≡ true
unfolding adjacency_from
adjacency_from-keeps p [] g x y h = h
adjacency_from-keeps p (r ∷ rs) g x y h =
    let ts = targets_of g r.source.element_id in
    adjacency_from-keeps p rs _ x y (
      ground (
        arith,
        eq_iff r.source.element_id x,
        targets_of-insert r.source.element_id x (ts ++ r.target.element_id ∷ []) g,
        contains-append y ts (r.target.element_id ∷ []),
      ))

-- The map has every relationship of the kind.
adjacency_from-has :
    (p : RelationshipKind → Bool) (rs : List UmlRelationship) (g : Adjacency) (r : UmlRelationship)
    → Memᴰ r rs
    → p r.kind ≡ true
    → contains r.target.element_id (targets_of (adjacency_from p rs g) r.source.element_id) ≡ true
unfolding adjacency_from
adjacency_from-has p [] g r m h = elim m [ ]
adjacency_from-has p (q ∷ rs) g r (Memᴰ.tail m) h = adjacency_from-has p rs _ r m h
adjacency_from-has p (q ∷ rs) g r (Memᴰ.head e) h =
    let ts = targets_of g r.source.element_id in
    rw (← e, h)
      (adjacency_from-keeps p rs _ r.source.element_id r.target.element_id (
        ground (
          arith,
          eq_iff r.source.element_id r.source.element_id,
          eq_iff r.target.element_id r.target.element_id,
          targets_of-insert r.source.element_id r.source.element_id (ts ++ r.target.element_id ∷ [])
              g,
          contains-append r.target.element_id ts (r.target.element_id ∷ []),
        )))

is_kind_same : (a b : RelationshipKind) → a ≡ b → is_kind a b ≡ true
is_kind_same a b e = rw e (eq_refl (kind_name b))

Follows-Walk :
    (rs : List UmlRelationship) (kind : RelationshipKind) (x y : String)
    → Follows rs kind x y
    → Walk (adjacency rs kind) x y
Follows-Walk rs kind x y (one r m e) = Walk.edge _ _ (
    Memᴰ_of_contains _ _
      (adjacency_from-has (is_kind kind) rs [] r m (is_kind_same kind r.kind (sym e))))
Follows-Walk rs kind x y (more _ r w m e) =
    Walk.after _ _ _ (Follows-Walk rs kind x r.source.element_id w) (
      Memᴰ_of_contains _ _
        (adjacency_from-has (is_kind kind) rs [] r m (is_kind_same kind r.kind (sym e))))

element-classifier_ids :
    (x : String) (es : List UmlClassifier)
    → contains x (classifier_ids es) ≡ false
    → contains x (map (λ e. e.id) es) ≡ false
element-classifier_ids x [] h = refl
element-classifier_ids x (c ∷ es) h =
    let attributes = map (λ a. a.id) c.attributes in
    let below = operation_ids c.operations ++ classifier_ids es in
    ground (
      arith,
      contains-append x attributes below,
      contains-append x (operation_ids c.operations) (classifier_ids es),
      element-classifier_ids x es,
    )

pub IsDistinct-elements :
    (es : List UmlClassifier) → IsDistinct (classifier_ids es) → IsDistinct (map (λ e. e.id) es)
IsDistinct-elements [] d = tt
IsDistinct-elements (c ∷ es) d =
    let attributes = map (λ a. a.id) c.attributes in
    let below = operation_ids c.operations ++ classifier_ids es in
    (
      ground (
        arith,
        d.0,
        contains-append c.id attributes below,
        contains-append c.id (operation_ids c.operations) (classifier_ids es),
        element-classifier_ids c.id es,
      ),
      IsDistinct-elements es (
          IsDistinct-append_right (operation_ids c.operations) (classifier_ids es)
            (IsDistinct-append_right attributes below d.1)),
    )

-- The keys of the map are the identifiers of the classifiers, in their order.
pub keys-insert_all :
    (es : List UmlClassifier) (m : Classifiers)
    → IsDistinct (keys m ++ map (λ e. e.id) es)
    → keys (insert_all es m) ≡ (keys m ++ map (λ e. e.id) es)
keys-insert_all [] m d = sym (append-nil (keys m))
keys-insert_all (c ∷ es) m d =
    let ids = map (λ e. e.id) es in
    let grown = keys-insert_new c.id c m (IsDistinct-append-ne (keys m) ids c.id d) in
    let moved : (keys (insert c.id c m) ++ ids) ≡ (keys m ++ c.id ∷ ids) =
      ap (λ l. l ++ ids) grown ∙ append_assoc (keys m) (c.id ∷ []) ids in
    keys-insert_all es (insert c.id c m) (subst IsDistinct (sym moved) d) ∙ moved

pub assert_acyclic-IsAcyclic :
    (d : Diagram) (kind : RelationshipKind)
    → assert_acyclic d.relationships kind ≡ returned tt
    → IsAcyclic d kind
unfolding assert_acyclic
assert_acyclic-IsAcyclic d kind h = elim (has_cycle-decides (adjacency d.relationships kind)) [
  | inl (found, _) ↦ absurd (ground arith)
  | inr (_, acyclic) ↦ λ x w. acyclic x (Follows-Walk d.relationships kind x x w)
]

pub positions_known :
    (x : String) (ps : List UmlPosition) (ids : List String)
    → All (λ p. contains p.element_id ids ≡ true) ps
    → contains x (map (λ p. p.element_id) ps) ≡ true
    → contains x ids ≡ true
positions_known x [] ids known h = absurd (cc)
positions_known x (p ∷ ps) ids known h =
    ground (arith, eq_iff p.element_id x, known.0, positions_known x ps ids known.1)
