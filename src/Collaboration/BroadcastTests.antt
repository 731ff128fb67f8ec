-- ===== src/Collaboration/BroadcastTests.antt =====
-- Whom a broadcast reaches, on a small database: tests, and the theorem at a concrete input.
use mathlib.Core.List.{Memᴰ}
use uml_class_designer_be.Common.{List, true, false, ◌&&◌, any, ◌≡◌, refl, [], ◌∷◌}
use uml_class_designer_be.Collaboration.Database.{is_active_session}
use uml_class_designer_be.Collaboration.Commands.{CollaborationIdentity}
use uml_class_designer_be.Collaboration.Commands.Reads.{
  exists, is_listed, authorized_members, get_authorized_document, get_broadcast_authorization,
  lets_through, list_documents_awaiting_delivery,
}
use uml_class_designer_be.Collaboration.Commands.Reads.Authorization.{lets_through_iff}
use uml_class_designer_be.Collaboration.CommandTests.{user, database}

abbrev editor : CollaborationIdentity
editor = record { user_id = user; session_id = "s1" }

-- a user with a session that is not its own
abbrev stranger : CollaborationIdentity
stranger = record { user_id = "u9"; session_id = "s1" }

abbrev recipients : List CollaborationIdentity
recipients = stranger ∷ editor ∷ []

lets_through_iff_example :
    lets_through (get_broadcast_authorization 10 "doc" recipients database database) editor ≡ (
      any (is_active_session 10 user "s1") database.sessions
      && exists (get_authorized_document "doc" user database))
lets_through_iff_example =
    lets_through_iff 10 "doc" recipients editor database database (Memᴰ.tail (Memᴰ.head refl))
      (refl, tt)

reaches_editor :
    lets_through (get_broadcast_authorization 10 "doc" recipients database database) editor ≡ true
unfolding lets_through get_broadcast_authorization is_listed authorized_members
reaches_editor = refl

skips_stranger :
    lets_through (get_broadcast_authorization 10 "doc" recipients database database) stranger
    ≡ false
unfolding lets_through get_broadcast_authorization is_listed authorized_members
skips_stranger = refl

none_awaits : list_documents_awaiting_delivery 5 database ≡ []
unfolding list_documents_awaiting_delivery
none_awaits = refl
