-- ===== src/Rest/Projects/Guard.antt =====
-- project-member.guard.ts
use uml_class_designer_be.Common.{String, Bool, true, not, Option, none, some, List, any}
use uml_class_designer_be.Uml.Engine.{Engine}
use uml_class_designer_be.Collaboration.Database.{Database, ProjectRole}
use uml_class_designer_be.Rest.Replies.{ServiceError, ServiceReply, done, ◌>>=◌, require, required}
use uml_class_designer_be.Rest.Projects.{is_owner, find_member}

abbrev pub same_role : ProjectRole → ProjectRole → Bool
same_role ProjectRole.owner r = is_owner r
same_role ProjectRole.editor r = not (is_owner r)

-- `acceptedRoles && !acceptedRoles.includes(role)`, negated
abbrev pub accepts : Option (List ProjectRole) → ProjectRole → Bool
accepts none role = true
accepts (some roles) role = any (same_role role) roles

-- `canActivate` of the guard, for the user that the access guard has found
unfoldable pub can_activate :
    Engine
    → Option String
    → Option String
    → Option (List ProjectRole)
    → Database
    → ServiceReply ProjectRole
can_activate engine project user roles db = do
  id ← required project ServiceError.bad_request
  _ ← require (engine.is_uuid id) ServiceError.bad_request
  principal ← required user ServiceError.other_error
  membership ← required (find_member db id principal) ServiceError.not_found
  _ ← require (accepts roles membership.role) ServiceError.forbidden
  done membership.role
