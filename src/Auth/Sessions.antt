-- ===== src/Auth/Sessions.antt =====
-- The statements on sessions of src/modules/auth: auth.service.ts, `rotateRefreshToken`,
-- `revokeReplayedSession` and what else it sends to the database, auth-session-maintenance.service.ts
-- and the reads of access-token-verifier.service.ts. A statement is atomic. Identifiers are in lower
-- case, as the database makes them, so that a cast to a UUID compares texts; a sequence number
-- stays below the limit of its column.
pub mod Growth
use uml_class_designer_be.Common.{
  ℕ, suc, ◌+◌, ◌*◌, String, Bool, true, false, not, ◌&&◌, ◌||◌, Option, none, some, List, [], ◌∷◌,
  ◌++◌, map, any, filter, find, leb, ltb, nat_eq, ◌==◌, if◌then◌else◌,
}
use uml_class_designer_be.Auth.Tokens.{ParsedRefreshToken, session_id}
use uml_class_designer_be.Collaboration.Database.{
  Database, User, AuthSession, ConsumedRefreshToken, is_not_set, count,
}

-- `expectedSequence` and `nextSequence`
abbrev pub expected_sequence : ParsedRefreshToken → ℕ
expected_sequence (ParsedRefreshToken.versioned id token sequence) = sequence
expected_sequence (ParsedRefreshToken.legacy id token) = 0

abbrev pub next_sequence : ParsedRefreshToken → ℕ
next_sequence (ParsedRefreshToken.versioned id token sequence) = sequence + 1
next_sequence (ParsedRefreshToken.legacy id token) = 1

-- the condition of the rotation
unfoldable pub is_rotated : ℕ → ParsedRefreshToken → String → AuthSession → Bool
is_rotated now parsed presented_hash s =
    s.id == session_id parsed
    && s.token_hash == presented_hash
    && nat_eq s.refresh_sequence (expected_sequence parsed)
    && is_not_set s.revoked_at
    && ltb now s.expires_at

abbrev pub rotated_session : String → ℕ → AuthSession → AuthSession
rotated_session next_hash next s = record s { token_hash = next_hash; refresh_sequence = next }

-- `where` chosen rows are changed
abbrev pub update_where :
    (AuthSession → Bool) → (AuthSession → AuthSession) → List AuthSession → List AuthSession
update_where p f rows = map (λ s. if p s then f s else s) rows

-- the insertion `consumed` of the same statement
abbrev pub consumed : ParsedRefreshToken → String → List AuthSession → List ConsumedRefreshToken
consumed (ParsedRefreshToken.versioned id token sequence) presented_hash rotated = []
consumed (ParsedRefreshToken.legacy id token) presented_hash rotated =
    map (λ s. record { token_hash = presented_hash; session_id = s.id }) rotated

unfoldable pub rotate_refresh_token : ℕ → ParsedRefreshToken → String → String → Database → Database
rotate_refresh_token now parsed presented_hash next_hash db = record db {
  sessions =
      update_where (is_rotated now parsed presented_hash)
        (rotated_session next_hash (next_sequence parsed)) db.sessions;
  consumed_tokens =
      db.consumed_tokens
      ++ consumed parsed presented_hash (filter (is_rotated now parsed presented_hash) db.sessions);
}

-- the rows that the statement returns
abbrev pub rotated_rows : ℕ → ParsedRefreshToken → String → Database → ℕ
rotated_rows now parsed presented_hash db = count (is_rotated now parsed presented_hash) db.sessions

abbrev pub is_consumed : Database → String → AuthSession → Bool
is_consumed db hash s = any (λ t. t.session_id == s.id && t.token_hash == hash) db.consumed_tokens

-- the condition of a revocation after a replay
unfoldable pub is_replayed : Database → ParsedRefreshToken → String → AuthSession → Bool
is_replayed db (ParsedRefreshToken.versioned id token sequence) hash s =
    s.id == id && is_not_set s.revoked_at && ltb sequence s.refresh_sequence
is_replayed db (ParsedRefreshToken.legacy id token) hash s =
    s.id == id && is_not_set s.revoked_at && is_consumed db hash s

-- the condition of a revocation at a logout
unfoldable pub is_logged_out : Database → ParsedRefreshToken → String → AuthSession → Bool
is_logged_out db (ParsedRefreshToken.versioned id token sequence) hash s =
    s.id == id && is_not_set s.revoked_at && leb sequence s.refresh_sequence
is_logged_out db (ParsedRefreshToken.legacy id token) hash s =
    s.id == id && is_not_set s.revoked_at && (s.token_hash == hash || is_consumed db hash s)

abbrev pub revoke_where : ℕ → (AuthSession → Bool) → Database → Database
revoke_where now p db = record db {
  sessions = update_where p (λ s. record s { revoked_at = some now }) db.sessions;
}

-- `consumedRefreshToken.deleteMany`
abbrev pub forget_consumed : String → Database → Database
forget_consumed id db = record db {
  consumed_tokens = filter (λ t. not (t.session_id == id)) db.consumed_tokens;
}

-- `authSession.create`: none where the key or the hash is in use
abbrev pub create_session : AuthSession → Database → Option Database
create_session s db =
    if any (λ r. r.id == s.id || r.token_hash == s.token_hash) db.sessions
    then none
    else some (record db { sessions = db.sessions ++ s ∷ [] })

-- One batch of `removeExpiredSessions`: which of the expired sessions it takes is up to the
-- database. The consumed tokens of a session go with it.
abbrev pub remove_expired : ℕ → (AuthSession → Bool) → Database → Database
remove_expired now chosen db = record db {
  sessions = filter (λ s. not (leb s.expires_at now && chosen s)) db.sessions;
  consumed_tokens =
      filter
        (λ t. not (any (λ s. s.id == t.session_id && leb s.expires_at now && chosen s) db.sessions))
        db.consumed_tokens;
}

-- A statement that some service sends; a creation that fails changes nothing.
pub data Statement : Type 0 where
  rotates : ℕ → ParsedRefreshToken → (presented_hash next_hash : String) → Statement
  revokes_replayed : ℕ → ParsedRefreshToken → (hash : String) → Statement
  revokes_logged_out : ℕ → ParsedRefreshToken → (hash : String) → Statement
  forgets_consumed : (id : String) → Statement
  creates : AuthSession → Statement
  removes_expired : ℕ → (AuthSession → Bool) → Statement

abbrev pub or_unchanged : Database → Option Database → Database
or_unchanged db none = db
or_unchanged db (some changed) = changed

unfoldable pub execute_statement : Statement → Database → Database
execute_statement (rotates now parsed presented next) db =
    rotate_refresh_token now parsed presented next db
execute_statement (revokes_replayed now parsed hash) db =
    revoke_where now (is_replayed db parsed hash) db
execute_statement (revokes_logged_out now parsed hash) db =
    revoke_where now (is_logged_out db parsed hash) db
execute_statement (forgets_consumed id) db = forget_consumed id db
execute_statement (creates s) db = or_unchanged db (create_session s db)
execute_statement (removes_expired now chosen) db = remove_expired now chosen db

unfoldable pub execute_all : List Statement → Database → Database
execute_all [] db = db
execute_all (s ∷ others) db = execute_all others (execute_statement s db)
