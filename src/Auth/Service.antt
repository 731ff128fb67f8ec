-- ===== src/Auth/Service.antt =====
-- src/modules/auth/auth.service.ts: `register`, `login`, `refresh` and `logout`, and the check of
-- access tokens of access-token-verifier.service.ts. Between two statements of a call others may
-- send any: `others n` are those before its statement `n + 1`. An exception is a reply. What a call
-- reports as revoked (`notifySessionRevoked`) is a part of its result.
pub mod Rotation
pub mod Revocation
pub mod Replay
pub mod Logout
use Prim.Native.Char.{code}
use uml_class_designer_be.Common.{
  ℕ, ◌+◌, ◌*◌, ◌/◌, String, Bool, true, false, not, ◌&&◌, ◌||◌, Option, none, some, List, [], ◌∷◌,
  ◌++◌, any, find, leb, ltb, nat_eq, ◌==◌, if◌then◌else◌,
}
use uml_class_designer_be.Auth.Engine.{AuthEngine, AccessTokenClaims}
use uml_class_designer_be.Auth.Tokens.{
  ParsedRefreshToken, session_id, token_text, is_safe_integer, is_empty, utf16_length,
  new_session_token, parse_refresh_token,
}
use uml_class_designer_be.Auth.Sessions.{
  Statement, execute_all, rotate_refresh_token, rotated_rows, next_sequence, is_replayed,
  is_logged_out, revoke_where, forget_consumed, create_session,
}
use uml_class_designer_be.Collaboration.Database.{
  Database, User, AuthSession, is_active_session, count,
}

pub record SafeUser : Type 0 where
  pub id : String
  pub email : String
  pub display_name : String

pub record AuthResult : Type 0 where
  pub access_token : String
  pub expires_in : ℕ
  pub user : SafeUser
  pub refresh_token : String
  pub refresh_expires_at : ℕ

pub data AuthReply {ℓ} (A : Type ℓ) : Type ℓ where
  done : A → AuthReply A
  unauthorized conflict other_error : AuthReply A

-- The database after a call, its reply, and the session that it reports as revoked.
pub record Answer {ℓ} (A : Type ℓ) : Type ℓ where
  pub database : Database
  pub reply : AuthReply A
  pub notified : Option String

abbrev pub refused {ℓ} : {A : Type ℓ} → Database → AuthReply A → Answer A
refused db why = record { database = db; reply = why; notified = none }

abbrev pub to_safe_user : User → SafeUser
to_safe_user u = record { id = u.id; email = u.email; display_name = u.display_name }

unfoldable pub build_auth_result : AuthEngine → ℕ → User → String → String → ℕ → AuthResult
build_auth_result engine now user id refresh_token expires_at = record {
  access_token = engine.sign_jwt user.id id now;
  expires_in = engine.access_token_ttl_seconds;
  user = to_safe_user user;
  refresh_token = refresh_token;
  refresh_expires_at = expires_at;
}

-- `normalizeEmail`
abbrev pub normalize_email : AuthEngine → String → String
normalize_email engine email = engine.lower_case (engine.trim email)

abbrev pub refresh_expiry : AuthEngine → ℕ → ℕ
refresh_expiry engine now = now + engine.refresh_token_ttl_seconds * 1000

-- the row of a new session
unfoldable pub new_session : AuthEngine → ℕ → String → String → AuthSession
new_session engine now id user_id = record {
  id = id;
  user_id = user_id;
  token_hash = engine.hash (new_session_token engine id 0);
  refresh_sequence = 0;
  expires_at = refresh_expiry engine now;
  revoked_at = none;
}

-- The answer if the row of a new session could be inserted, or `why` it could not.
abbrev pub session_answer :
    AuthEngine → ℕ → User → String → Answer AuthResult → Option Database → Answer AuthResult
session_answer engine now user id why none = why
session_answer engine now user id why (some after) = record {
  database = after;
  reply = done (
      build_auth_result engine now user id (new_session_token engine id 0)
        (refresh_expiry engine now));
  notified = none;
}

abbrev pub is_known_user : Database → User → Bool
is_known_user db user = any (λ u. u.id == user.id || u.email == user.email) db.users

-- `id` and `user_id` are new random identifiers.
unfoldable pub register :
    AuthEngine
    → ℕ
    → (id user_id : String) → (email display_name password_hash : String) → Database
    → Answer AuthResult
register engine now id user_id email display_name password_hash db =
    let user : User = record {
      id = user_id;
      email = normalize_email engine email;
      display_name = engine.trim display_name;
      password_hash = password_hash;
    } in
    if is_known_user db user
    then refused db AuthReply.conflict
    else session_answer engine now user id (refused db AuthReply.conflict) (
        create_session (new_session engine now id user_id)
          (record db { users = db.users ++ user ∷ [] }))

-- the hash that an unknown user's password is checked against
abbrev pub password_hash_of : String → Option User → String
password_hash_of dummy none = dummy
password_hash_of dummy (some user) = user.password_hash

unfoldable pub login :
    AuthEngine
    → ℕ
    → (others : List Statement) → (dummy id : String) → (email password : String) → Database
    → Answer AuthResult
login engine now others dummy id email password db =
    let found = find (λ u. u.email == normalize_email engine email) db.users in
    let matches = engine.verify_password (password_hash_of dummy found) password in
    elim found [
      | none ↦ refused db AuthReply.unauthorized
      | some user ↦
          if matches
          then session_answer engine now user id
              (refused (execute_all others db) AuthReply.other_error)
              (create_session (new_session engine now id user.id) (execute_all others db))
          else refused db AuthReply.unauthorized
    ]

-- a revocation, and what follows where it has changed a row
unfoldable pub revoke_and_notify :
    ℕ → List Statement → String → (AuthSession → Bool) → Database → Database × Option String
revoke_and_notify now others id p db =
    if ltb 0 (count p db.sessions)
    then (forget_consumed id (execute_all others (revoke_where now p db)), some id)
    else (revoke_where now p db, none)

-- the session with its user, after a rotation
unfoldable pub answer_rotated :
    AuthEngine → ℕ → ParsedRefreshToken → String → Database → Answer AuthResult
answer_rotated engine now parsed next_token db =
    elim (find (λ s. s.id == session_id parsed) db.sessions) [
      | none ↦ refused db AuthReply.unauthorized
      | some s ↦ elim (find (λ u. u.id == s.user_id) db.users) [
        | none ↦ refused db AuthReply.unauthorized
        | some user ↦ record {
          database = db;
          reply = done (build_auth_result engine now user s.id next_token s.expires_at);
          notified = none;
        }
      ]
    ]

-- `refresh` behind the checks of the token
unfoldable pub refresh_parsed :
    AuthEngine → ℕ → (ℕ → List Statement) → ParsedRefreshToken → Database → Answer AuthResult
refresh_parsed engine now others parsed db =
    let next_token = new_session_token engine (session_id parsed) (next_sequence parsed) in
    let presented = engine.hash (token_text parsed) in
    let rotated = rotate_refresh_token now parsed presented (engine.hash next_token) db in
    if nat_eq (rotated_rows now parsed presented db) 1
    then answer_rotated engine now parsed next_token (execute_all (others 0) rotated)
    else let seen = execute_all (others 0) rotated in
      let (after, notified) =
        revoke_and_notify now (others 1) (session_id parsed) (is_replayed seen parsed presented)
          seen in
      record { database = after; reply = AuthReply.unauthorized; notified = notified }

unfoldable pub refresh :
    AuthEngine → ℕ → (ℕ → List Statement) → Option String → Database → Answer AuthResult
refresh engine now others token db = elim (parse_refresh_token engine token) [
  | none ↦ refused db AuthReply.unauthorized
  | some parsed ↦
      if is_safe_integer (next_sequence parsed)
      then refresh_parsed engine now others parsed db
      else refused db AuthReply.unauthorized
]

unfoldable pub logout :
    AuthEngine → ℕ → List Statement → Option String → Database → Answer (Unit {0})
logout engine now others token db = elim (parse_refresh_token engine token) [
  | none ↦ refused db (done tt)
  | some parsed ↦
      let (after, notified) =
        revoke_and_notify now others (session_id parsed)
          (is_logged_out db parsed (engine.hash (token_text parsed))) db in
      record { database = after; reply = done tt; notified = notified }
]

pub record AuthenticatedPrincipal : Type 0 where
  pub user : SafeUser
  pub session_id : String
  pub access_token_expires_at : ℕ

-- `token.includes(' ')`
unfoldable pub includes_space : String → Bool
includes_space String.[] = false
includes_space (String.◌∷◌ c text) = nat_eq (code c) b' ' || includes_space text

-- what the claims of a valid access token have to be; times are in milliseconds
unfoldable pub are_claims : AuthEngine → ℕ → AccessTokenClaims → Bool
are_claims engine now claims =
    claims.typ == "access"
    && engine.is_uuid claims.sub
    && engine.is_uuid claims.sid
    && is_safe_integer claims.exp
    && ltb (now / 1000) claims.exp

-- `verifyAccessToken`; the session is read at the time `later`, from the database then
unfoldable pub verify_access_token :
    AuthEngine → ℕ → ℕ → String → Database → AuthReply AuthenticatedPrincipal
verify_access_token engine now later token db =
    if is_empty token || ltb 4096 (utf16_length token) || includes_space token
    then AuthReply.unauthorized
    else elim (engine.verify_jwt now token) [
      | none ↦ AuthReply.unauthorized
      | some claims ↦
          if are_claims engine now claims
          then elim (find (is_active_session later claims.sub claims.sid) db.sessions) [
            | none ↦ AuthReply.unauthorized
            | some s ↦ elim (find (λ u. u.id == s.user_id) db.users) [
              | none ↦ AuthReply.unauthorized
              | some user ↦ done (record {
                user = to_safe_user user;
                session_id = s.id;
                access_token_expires_at = claims.exp;
              })
            ]
          ]
          else AuthReply.unauthorized
    ]
