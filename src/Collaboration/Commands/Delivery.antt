-- ===== src/Collaboration/Commands/Delivery.antt =====
-- document-command.service.ts: the marks of the operations that were broadcast.
use uml_class_designer_be.Common.{ℕ, String, Bool, ◌&&◌, some, map, any, ◌==◌, if◌then◌else◌}
use uml_class_designer_be.Collaboration.Database.{
  Database, DocumentOperation, is_operation, is_not_set,
}

-- `updateMany` of the operations that pass a test and are not delivered.
abbrev pub delivered_where : ℕ → (DocumentOperation → Bool) → DocumentOperation → DocumentOperation
delivered_where now test o =
    if test o && is_not_set o.broadcasted_at then record o { broadcasted_at = some now } else o

unfoldable pub mark_broadcast_delivered : ℕ → String → String → Database → Database
mark_broadcast_delivered now document_id operation_id db = record db {
  operations = map (delivered_where now (is_operation document_id operation_id)) db.operations;
}

unfoldable pub has_pending_broadcasts : String → Database → Bool
has_pending_broadcasts document_id db =
    any (λ o. o.document_id == document_id && is_not_set o.broadcasted_at) db.operations

unfoldable pub mark_pending_broadcasts_delivered : ℕ → String → Database → Database
mark_pending_broadcasts_delivered now document_id db = record db {
  operations = map (delivered_where now (λ o. o.document_id == document_id)) db.operations;
}
