-- ===== src/Rest/Replies.antt =====
-- What a service returns or throws: the HTTP exceptions of documents.service.ts and
-- projects.service.ts, and the checks with which their transactions begin.
use uml_class_designer_be.Common.{
  ℕ, String, Bool, true, false, Option, none, some, nat_eq, ◌&&◌, ◌==◌,
}
use uml_class_designer_be.Uml.Engine.{Engine}
use uml_class_designer_be.Uml.Validation.Outcome.{Failure, Outcome, returned, thrown}
use uml_class_designer_be.Collaboration.Database.{Database, count}
use uml_class_designer_be.Collaboration.Commands.{lock_active_session}

pub data ServiceError : Type 0 where
  bad_request unauthorized forbidden not_found too_many_requests : ServiceError
  conflict : (current_revision : Option ℕ) → ServiceError
  -- an error that becomes no HTTP exception
  other_error : ServiceError

pub data ServiceReply {ℓ} (A : Type ℓ) : Type ℓ where
  done : A → ServiceReply A
  failed : ServiceError → ServiceReply A

infixl 5 ◌>>=◌ ◌>>◌
abbrev pub ◌>>=◌ {ℓ κ} :
    {A : Type ℓ} {B : Type κ} → ServiceReply A → (A → ServiceReply B) → ServiceReply B
done a >>= f = f a
failed e >>= f = failed e

abbrev pub ◌>>◌ {ℓ} : {B : Type ℓ} → ServiceReply (Unit {0}) → ServiceReply B → ServiceReply B
m >> k = m >>= λ _. k

-- `if (!test) throw`
abbrev pub require : Bool → ServiceError → ServiceReply (Unit {0})
require true e = done tt
require false e = failed e

abbrev pub required {ℓ} : {A : Type ℓ} → Option A → ServiceError → ServiceReply A
required none e = failed e
required (some a) e = done a

-- `validateAndNormalize` throws a bad request, or what `BigInt` throws.
abbrev pub validated {ℓ} : {A : Type ℓ} → Outcome A → ServiceReply A
validated (returned a) = done a
validated (thrown Failure.syntax_error) = failed ServiceError.other_error
validated (thrown _) = failed ServiceError.bad_request

unfoldable pub lock_mutation_session :
    Engine → ℕ → String → String → Database → ServiceReply (Unit {0})
lock_mutation_session engine now user session db =
    require (lock_active_session engine now db (record { user_id = user; session_id = session }))
      ServiceError.unauthorized

-- the statements see two moments of the database
unfoldable pub lock_collaborator_membership :
    String → String → Database → Database → ServiceReply (Unit {0})
lock_collaborator_membership project user db db' = do
  _ ← require (nat_eq (count (λ p. p.id == project) db.projects) 1) ServiceError.not_found
  require (nat_eq (count (λ m. m.project_id == project && m.user_id == user) db'.members) 1)
      ServiceError.not_found
