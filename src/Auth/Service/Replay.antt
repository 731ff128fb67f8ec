-- ===== src/Auth/Service/Replay.antt =====
-- auth.service.ts: `refresh` with a token that was used before.
use uml_class_designer_be.Common.{
  ℕ, String, Bool, true, false, ◌≡◌, refl, inl, inr, some, List, [], ◌∷◌, nat_eq, if◌then◌else◌,
  arith, Bool-cases, eq_iff, All, IsDistinct,
}
use uml_class_designer_be.Auth.Engine.{AuthEngine}
use uml_class_designer_be.Auth.Tokens.{
  ParsedRefreshToken, session_id, token_text, parse_refresh_token, is_safe_integer,
  new_session_token,
}
use uml_class_designer_be.Collaboration.Database.{Database, AuthSession}
use uml_class_designer_be.Auth.Sessions.{
  Statement, rotates, execute_statement, execute_all, rotate_refresh_token, rotated_rows,
  expected_sequence, next_sequence, is_replayed,
}
use uml_class_designer_be.Auth.Sessions.Growth.{
  SparesId, IsPast, IsRevoked, All-execute_all, IsPast-IsStable,
}
use uml_class_designer_be.Auth.Service.{
  AuthReply, done, AuthResult, refresh, refresh_parsed, answer_rotated, refused,
}
use uml_class_designer_be.Auth.Service.Rotation.{session_ids, rotation-IsPast, past-not_rotated}
use uml_class_designer_be.Auth.Service.Revocation.{IsCovered, revoke_and_notify-IsRevoked}

abbrev pub is_versioned : ParsedRefreshToken → Bool
is_versioned (ParsedRefreshToken.versioned id token sequence) = true
is_versioned (ParsedRefreshToken.legacy id token) = false

answer_rotated-database :
    (engine : AuthEngine) (now : ℕ) (parsed : ParsedRefreshToken) (token : String) (db : Database)
    → (answer_rotated engine now parsed token db).database ≡ db
unfolding answer_rotated
answer_rotated-database engine now parsed token db = ground arith

past-IsCovered :
    (db : Database) (parsed : ParsedRefreshToken) (hash : String) (rows : List AuthSession)
    → is_versioned parsed ≡ true
    → All (IsPast (session_id parsed) (expected_sequence parsed)) rows
    → All (IsCovered (session_id parsed) (is_replayed db parsed hash)) rows
unfolding is_replayed
past-IsCovered db parsed hash [] v h = tt
past-IsCovered db (ParsedRefreshToken.legacy id token) hash (s ∷ rows) v h = absurd (cc)
past-IsCovered db (ParsedRefreshToken.versioned id token n) hash (s ∷ rows) v h = (
  λ own live. ground (arith, eq_iff s.id id, h.0 own),
  past-IsCovered db (ParsedRefreshToken.versioned id token n) hash rows v h.1,
)

module _ (engine : AuthEngine) (parsed : ParsedRefreshToken) where
  -- The session is past the token.
  abbrev IsUsed : Database → Type 0
  IsUsed db = All (IsPast (session_id parsed) (expected_sequence parsed)) db.sessions

  IsUsed-execute_all :
      (sts : List Statement) (db : Database)
      → All (SparesId (session_id parsed)) sts
      → IsUsed db
      → IsUsed (execute_all sts db)
  IsUsed-execute_all sts db =
      All-execute_all (session_id parsed) (IsPast (session_id parsed) (expected_sequence parsed))
        (IsPast-IsStable (session_id parsed) (expected_sequence parsed)) sts db

  -- A refresh that succeeds uses its token up.
  refresh_parsed-IsUsed :
      (now : ℕ) (others : ℕ → List Statement) (db : Database) (r : AuthResult)
      → IsDistinct (session_ids db)
      → All (SparesId (session_id parsed)) (others 0)
      → (refresh_parsed engine now others parsed db).reply ≡ done r
      → IsUsed (refresh_parsed engine now others parsed db).database
  unfolding refresh_parsed rotate_refresh_token
  refresh_parsed-IsUsed now others db r keys spares h =
      let presented = engine.hash (token_text parsed) in
      let next_token = new_session_token engine (session_id parsed) (next_sequence parsed) in
      elim (Bool-cases (nat_eq (rotated_rows now parsed presented db) 1)) [
        | inl one ↦
            rw (one, answer_rotated-database)
              (IsUsed-execute_all (others 0)
                (rotate_refresh_token now parsed presented (engine.hash next_token) db) spares
                (rotation-IsPast now parsed presented (engine.hash next_token) db.sessions keys
                  (λ z. absurd (ground (arith, one, z)))))
        | inr other ↦ absurd (ground (arith, other))
      ]

  -- A refresh with a token that is used up is refused, and a versioned token ends its session.
  refresh_parsed-IsUsed_refused :
      (now : ℕ) (others : ℕ → List Statement) (db : Database)
      → All (SparesId (session_id parsed)) (others 0)
      → All (SparesId (session_id parsed)) (others 1)
      → IsUsed db
      → let a = refresh_parsed engine now others parsed db in
        (a.reply ≡ AuthReply.unauthorized)
        × (is_versioned parsed ≡ true → All (IsRevoked (session_id parsed)) a.database.sessions)
  unfolding refresh_parsed rotate_refresh_token execute_all execute_statement
  refresh_parsed-IsUsed_refused now others db spares spares' used =
      let presented = engine.hash (token_text parsed) in
      let next_token = new_session_token engine (session_id parsed) (next_sequence parsed) in
      let seen =
        execute_all (others 0)
          (rotate_refresh_token now parsed presented (engine.hash next_token) db) in
      let still : IsUsed seen =
        IsUsed-execute_all (rotates now parsed presented (engine.hash next_token) ∷ others 0) db
          (tt, spares) used in
      rw (past-not_rotated now parsed presented db.sessions used) (
        refl,
        λ v.
            revoke_and_notify-IsRevoked now (session_id parsed) (is_replayed seen parsed presented)
              (others 1) seen (past-IsCovered seen parsed presented seen.sessions v still) spares',
      )

refresh_lem :
    (engine : AuthEngine) (now : ℕ) (others : ℕ → List Statement) (token : String) (db : Database)
    (parsed : ParsedRefreshToken)
    → parse_refresh_token engine (some token) ≡ some parsed
    → refresh engine now others (some token) db ≡ (
        if is_safe_integer (next_sequence parsed)
        then refresh_parsed engine now others parsed db
        else refused db AuthReply.unauthorized)
unfolding refresh
refresh_lem engine now others token db parsed e = rw (e, refresh) refl

-- The state after a refresh, and after what others have sent since.
abbrev pub later :
    AuthEngine → ℕ → (ℕ → List Statement) → List Statement → String → Database → Database
later engine now others between token db =
    execute_all between (refresh engine now others (some token) db).database

-- A refresh token is good for one refresh: after one that succeeded, and whatever statements others
-- send that create no session under its identifier, a second refresh with the same token is
-- refused, and if the token has a sequence number every row of its session is revoked.
pub refresh-rejects_reuse :
    (engine : AuthEngine) (now now' : ℕ) (others others' : ℕ → List Statement)
    (between : List Statement) (token : String) (db : Database) (parsed : ParsedRefreshToken)
    (r : AuthResult)
    → IsDistinct (session_ids db)
    → parse_refresh_token engine (some token) ≡ some parsed
    → All (SparesId (session_id parsed)) (others 0)
    → All (SparesId (session_id parsed)) between
    → All (SparesId (session_id parsed)) (others' 0)
    → All (SparesId (session_id parsed)) (others' 1)
    → (refresh engine now others (some token) db).reply ≡ done r
    → let again =
        refresh engine now' others' (some token) (later engine now others between token db) in
      (again.reply ≡ AuthReply.unauthorized)
      × (is_versioned parsed ≡ true → All (IsRevoked (session_id parsed)) again.database.sessions)
refresh-rejects_reuse engine now now' others others' between token db parsed r keys e a b c d h =
    let same = refresh_lem engine now others token db parsed e in
    elim (Bool-cases (is_safe_integer (next_sequence parsed))) [
      | inl safe ↦
          let first = rw safe at same in
          let used =
            IsUsed-execute_all engine parsed between _ b
              (refresh_parsed-IsUsed engine parsed now others db r keys a (rw (← first) h)) in
          rw (first, refresh_lem engine now' others' token _ parsed e, safe)
            (refresh_parsed-IsUsed_refused engine parsed now' others'
              (execute_all between (refresh_parsed engine now others parsed db).database) c d used)
      | inr unsafe ↦ absurd (ground (arith, rw unsafe at same, h))
    ]
