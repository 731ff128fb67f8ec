-- ===== src/Auth/Tests.antt =====
-- Authentication on one session: tests, and the theorems at concrete inputs.
use uml_class_designer_be.Common.{
  ℕ, String, Bool, true, false, ◌&&◌, ◌≡◌, refl, Option, none, some, List, [], ◌∷◌, nat_eq, ◌==◌,
  All, arith,
}
use uml_class_designer_be.Auth.Engine.{AuthEngine, AccessTokenClaims}
use uml_class_designer_be.Auth.Tokens.{
  ParsedRefreshToken, digit, digits_before, decimal_text, signature_of, new_session_token,
  split_at_dots, utf16_length, is_signature, parse_parts, parse_split, parse_refresh_token,
}
use uml_class_designer_be.Auth.Tokens.RoundTrip.{has_no_dot, IsStandard, parse-new_session_token}
use uml_class_designer_be.Auth.Sessions.{
  Statement, forgets_consumed, is_rotated, rotate_refresh_token, is_replayed, is_logged_out,
  execute_statement, execute_all,
}
use uml_class_designer_be.Auth.Sessions.Growth.{IsRevoked}
use uml_class_designer_be.Auth.Service.{
  AuthReply, done, AuthResult, build_auth_result, new_session, register, login, revoke_and_notify,
  answer_rotated, refresh_parsed, refresh, logout, includes_space, are_claims, verify_access_token,
}
use uml_class_designer_be.Auth.Service.Replay.{later, refresh-rejects_reuse}
use uml_class_designer_be.Auth.Service.Logout.{logout-is_final}
use uml_class_designer_be.Collaboration.Database.{Database, AuthSession}
use uml_class_designer_be.Uml.Multiplicity.{decimal}

abbrev session : String
session = "123e4567-e89b-42d3-a456-426614174000"

abbrev ann : String
ann = "123e4567-e89b-42d3-a456-426614174001"

abbrev claims : AccessTokenClaims
claims = record { sub = ann; sid = session; typ = "access"; exp = 900 }

-- Signatures, hashes and access tokens that show what they are made of.
abbrev engine : AuthEngine
engine = record {
  is_uuid = λ s. nat_eq (utf16_length s) 36 && has_no_dot s;
  hash = λ s. s;
  sign = λ s. "AAAAAAAAAAAAAAAAAAAAAAAAAAAAAAAAAAAAAAAAAAA";
  verify_password = λ h p. h == p;
  sign_jwt = λ user id now. id;
  verify_jwt = λ now token. some claims;
  trim = λ s. s;
  lower_case = λ s. s;
  access_token_ttl_seconds = 900;
  refresh_token_ttl_seconds = 60;
}

unfoldable auth : Unit {0}
unfolding decimal digit digits_before decimal_text signature_of new_session_token split_at_dots
    utf16_length is_signature parse_parts parse_split parse_refresh_token is_rotated
    rotate_refresh_token is_replayed is_logged_out execute_statement execute_all build_auth_result
    new_session register login revoke_and_notify answer_rotated refresh_parsed refresh logout
    includes_space are_claims verify_access_token
auth = tt

and_parts : (a b : Bool) → (a && b) ≡ true → (a ≡ true) × (b ≡ true)
and_parts true b h = (refl, h)
and_parts false b h = cc

engine-IsStandard : IsStandard engine
unfolding is_signature utf16_length
engine-IsStandard = record {
  uuid_length = λ s h. length_of_test (utf16_length s) (and_parts _ (has_no_dot s) h).0;
  uuid_text = λ s h. (and_parts (nat_eq (utf16_length s) 36) (has_no_dot s) h).1;
  signature_text = λ s. refl;
}
  where
    length_of_test : (n : ℕ) → nat_eq n 36 ≡ true → n ≡ 36
    length_of_test n h = ground arith

abbrev token_of : ℕ → String
token_of n = new_session_token engine session n

twelfth :
    token_of 12
    ≡ "123e4567-e89b-42d3-a456-426614174000.12.AAAAAAAAAAAAAAAAAAAAAAAAAAAAAAAAAAAAAAAAAAA"
unfolding auth
twelfth = refl

leading_zero :
    parse_refresh_token engine
      (some "123e4567-e89b-42d3-a456-426614174000.012.AAAAAAAAAAAAAAAAAAAAAAAAAAAAAAAAAAAAAAAAAAA")
    ≡ none
unfolding auth
leading_zero = refl

parse-new_session_token_example :
    parse_refresh_token engine (some (token_of 12))
    ≡ some (ParsedRefreshToken.versioned session (token_of 12) 12)
unfolding utf16_length
parse-new_session_token_example =
    parse-new_session_token engine engine-IsStandard session 12 refl refl

abbrev row : String → ℕ → Option ℕ → AuthSession
row hash n revoked = record {
  id = session;
  user_id = ann;
  token_hash = hash;
  refresh_sequence = n;
  expires_at = 60000;
  revoked_at = revoked;
}

abbrev database : AuthSession → Database
database s = record {
  users = record { id = ann; email = "ann@x"; display_name = "Ann"; password_hash = "pw" } ∷ [];
  sessions = s ∷ [];
  consumed_tokens = [];
  projects = [];
  members = [];
  documents = [];
  revisions = [];
  operations = [];
}

abbrev signed_in : Database
signed_in = database (row (token_of 0) 0 none)

abbrev nobody_else : ℕ → List Statement
nobody_else n = []

abbrev refreshed : AuthResult
refreshed = record {
  access_token = session;
  expires_in = 900;
  user = record { id = ann; email = "ann@x"; display_name = "Ann" };
  refresh_token = token_of 1;
  refresh_expires_at = 60000;
}

refreshes : (refresh engine 10 nobody_else (some (token_of 0)) signed_in).reply ≡ done refreshed
unfolding auth
refreshes = refl

rotates_row :
    (refresh engine 10 nobody_else (some (token_of 0)) signed_in).database
    ≡ database (row (token_of 1) 1 none)
unfolding auth
rotates_row = refl

logs_in :
    (login engine 0 [] "" session "ann@x" "pw" (record signed_in { sessions = [] })).database
    ≡ signed_in
unfolding auth
logs_in = refl

wrong_password :
    (login engine 0 [] "" session "ann@x" "pv" signed_in).reply ≡ AuthReply.unauthorized
unfolding auth
wrong_password = refl

known_email :
    (register engine 0 session "u2" "ann@x" "Ann" "pw" signed_in).reply ≡ AuthReply.conflict
unfolding auth
known_email = refl

refresh-rejects_reuse_example :
    ((refresh engine 20 nobody_else
        (some (token_of 0))
        (later engine 10 nobody_else (forgets_consumed "s2" ∷ []) (token_of 0) signed_in)).reply
      ≡ AuthReply.unauthorized)
    × (true ≡ true
        → All
            (IsRevoked session)
            (refresh engine 20 nobody_else (some (token_of 0)) (
              later engine 10 nobody_else
                (forgets_consumed "s2" ∷ [])
                (token_of 0)
                signed_in)).database.sessions)
refresh-rejects_reuse_example =
    refresh-rejects_reuse engine 10 20 nobody_else nobody_else (forgets_consumed "s2" ∷ [])
      (token_of 0) signed_in (ParsedRefreshToken.versioned session (token_of 0) 0) refreshed
      (refl, tt) (parse-new_session_token engine engine-IsStandard session 0 uuid refl) tt (tt, tt)
      tt tt refreshes
  where
    uuid : engine.is_uuid session ≡ true
    uuid = unfold utf16_length in refl

accepts :
    verify_access_token engine 10 11 session signed_in
    ≡ done (record {
      user = record { id = ann; email = "ann@x"; display_name = "Ann" };
      session_id = session;
      access_token_expires_at = 900;
    })
unfolding auth
accepts = refl

logout-is_final_example :
    All (IsRevoked session) (logout engine 10 [] (some (token_of 0)) signed_in).database.sessions
    × (verify_access_token engine 20 21 session (
          execute_all
            (forgets_consumed "s2" ∷ [])
            (logout engine 10 [] (some (token_of 0)) signed_in).database)
        ≡ AuthReply.unauthorized)
unfolding utf16_length
logout-is_final_example =
    logout-is_final engine 10 [] (forgets_consumed "s2" ∷ []) (token_of 0) signed_in session
      (token_of 0) 0 (parse-new_session_token engine engine-IsStandard session 0 refl refl)
      (λ own. omega arith, tt) tt (tt, tt) 20 21 session claims refl refl
