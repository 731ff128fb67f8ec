-- ===== src/Auth/Service/Logout.antt =====
-- auth.service.ts, access-token-verifier.service.ts: a logout is final.
use uml_class_designer_be.Common.{
  ℕ, ◌≤◌, String, ◌≡◌, refl, sym, inl, inr, none, some, List, [], ◌∷◌, find, arith, ==-cases,
  eq_iff, All, subst,
}
use uml_class_designer_be.Auth.Engine.{AuthEngine, AccessTokenClaims}
use uml_class_designer_be.Auth.Tokens.{
  ParsedRefreshToken, session_id, token_text, parse_refresh_token,
}
use uml_class_designer_be.Collaboration.Database.{Database, AuthSession, is_active_session}
use uml_class_designer_be.Auth.Sessions.{Statement, execute_all, is_logged_out}
use uml_class_designer_be.Auth.Sessions.Growth.{
  SparesId, IsRevoked, All-execute_all, IsRevoked-IsStable,
}
use uml_class_designer_be.Auth.Service.{AuthReply, logout, revoke_and_notify, verify_access_token}
use uml_class_designer_be.Auth.Service.Revocation.{IsCovered, revoke_and_notify-IsRevoked}

logged_out-IsCovered :
    (db : Database) (id token hash : String) (n : ℕ) (rows : List AuthSession)
    → All (λ s. s.id ≡ id → n ≤ s.refresh_sequence) rows
    → All (IsCovered id (is_logged_out db (ParsedRefreshToken.versioned id token n) hash)) rows
unfolding is_logged_out
logged_out-IsCovered db id token hash n [] h = tt
logged_out-IsCovered db id token hash n (s ∷ rows) h = (
  λ own live. ground (arith, eq_iff s.id id, h.0 own),
  logged_out-IsCovered db id token hash n rows h.1,
)

logout_lem :
    (engine : AuthEngine) (now : ℕ) (others : List Statement) (token : String) (db : Database)
    (parsed : ParsedRefreshToken)
    → parse_refresh_token engine (some token) ≡ some parsed
    → (logout engine now others (some token) db).database
      ≡ (revoke_and_notify now others
          (session_id parsed)
          (is_logged_out db parsed (engine.hash (token_text parsed)))
          db).0
unfolding logout
logout_lem engine now others token db parsed e = rw (e, logout) refl

-- No row of a revoked session is active.
revoked-not_found :
    (later : ℕ) (user id : String) (rows : List AuthSession)
    → All (IsRevoked id) rows
    → find (is_active_session later user id) rows ≡ none
revoked-not_found later user id [] h = refl
revoked-not_found later user id (s ∷ rows) h = elim (==-cases s.id id) [
  | inl own ↦ ground (arith, own.0, h.0 own.1, revoked-not_found later user id rows h.1)
  | inr other ↦ rw other.0 (revoked-not_found later user id rows h.1)
]

revoked-unauthorized :
    (engine : AuthEngine) (now later : ℕ) (access id : String) (claims : AccessTokenClaims)
    (db : Database)
    → engine.verify_jwt now access ≡ some claims
    → claims.sid ≡ id
    → All (IsRevoked id) db.sessions
    → verify_access_token engine now later access db ≡ AuthReply.unauthorized
unfolding verify_access_token
revoked-unauthorized engine now later access id claims db e own h =
    let gone =
      revoked-not_found later claims.sub claims.sid db.sessions
        (subst (λ (i : String). All (IsRevoked i) db.sessions) (sym own) h) in
    ground (arith, e, gone)

-- A logout with the token of a session, which is not ahead of its row, revokes the session; from then
-- on, whatever statements others send that create no session under its identifier, no access token
-- of that session is accepted, at any time.
pub logout-is_final :
    (engine : AuthEngine) (now : ℕ) (others between : List Statement) (token : String)
    (db : Database) (id text : String) (n : ℕ)
    → parse_refresh_token engine (some token) ≡ some (ParsedRefreshToken.versioned id text n)
    → All (λ s. s.id ≡ id → n ≤ s.refresh_sequence) db.sessions
    → All (SparesId id) others
    → All (SparesId id) between
    → (now' later : ℕ) (access : String) (claims : AccessTokenClaims)
    → engine.verify_jwt now' access ≡ some claims
    → claims.sid ≡ id
    → let after = (logout engine now others (some token) db).database in
      All (IsRevoked id) after.sessions
      × (verify_access_token engine now' later access (execute_all between after)
          ≡ AuthReply.unauthorized)
logout-is_final engine now others between token db id text n e rows a b now' later access claims j
      own =
    let parsed = ParsedRefreshToken.versioned id text n in
    let over =
      revoke_and_notify-IsRevoked now id (is_logged_out db parsed (engine.hash text)) others db
        (logged_out-IsCovered db id text (engine.hash text) n db.sessions rows) a in
    rw (logout_lem engine now others token db parsed e) (
      over,
      revoked-unauthorized engine now' later access id claims _ j own
          (All-execute_all id (IsRevoked id) (IsRevoked-IsStable id) between _ b over),
    )
