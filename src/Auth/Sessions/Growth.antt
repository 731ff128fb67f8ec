-- ===== src/Auth/Sessions/Growth.antt =====
-- auth.service.ts: what no statement undoes: a sequence number never falls, and a revoked session
-- stays revoked.
use uml_class_designer_be.Common.{
  ℕ, ◌<◌, String, Bool, true, false, ◌||◌, ◌≡◌, ◌≢◌, refl, inl, inr, some, List, [], ◌∷◌, any, ◌==◌,
  arith, Bool-cases, All, All-append, All-filter,
}
use uml_class_designer_be.Auth.Tokens.{ParsedRefreshToken}
use uml_class_designer_be.Collaboration.Database.{Database, AuthSession, is_not_set}
use uml_class_designer_be.Auth.Sessions.{
  Statement, rotates, revokes_replayed, revokes_logged_out, forgets_consumed, creates,
  removes_expired, execute_statement, execute_all, rotate_refresh_token, is_rotated,
  rotated_session, update_where, next_sequence, or_unchanged, create_session,
}

-- Statements that do not create a session under this identifier; new ones are random.
abbrev pub SparesId : String → Statement → Type 0
SparesId id (creates s) = s.id ≢ id
SparesId id _ = Unit

-- A row of the session that is past a sequence number.
abbrev pub IsPast : String → ℕ → AuthSession → Type 0
IsPast id n s = s.id ≡ id → n < s.refresh_sequence

abbrev pub IsRevoked : String → AuthSession → Type 0
IsRevoked id s = s.id ≡ id → is_not_set s.revoked_at ≡ false

pub All-update_where :
    (P : AuthSession → Type 0) (p : AuthSession → Bool) (f : AuthSession → AuthSession)
    (rows : List AuthSession)
    → ((s : AuthSession) → p s ≡ true → P s → P (f s))
    → All P rows
    → All P (update_where p f rows)
All-update_where P p f [] keep h = tt
All-update_where P p f (s ∷ rows) keep h = elim (Bool-cases (p s)) [
  | inl hit ↦ rw hit (keep s hit h.0, All-update_where P p f rows keep h.1)
  | inr miss ↦ rw miss (h.0, All-update_where P p f rows keep h.1)
]

-- What each statement has to keep of a row for all statements to keep it.
pub record IsStable (id : String) (P : AuthSession → Type 0) : Type 0 where
  pub on_rotation :
      (now : ℕ) (parsed : ParsedRefreshToken) (presented next : String) (s : AuthSession)
      → is_rotated now parsed presented s ≡ true
      → P s
      → P (rotated_session next (next_sequence parsed) s)
  pub on_revocation : (now : ℕ) (s : AuthSession) → P s → P (record s { revoked_at = some now })
  pub on_others : (s : AuthSession) → s.id ≢ id → P s

module _ (id : String) (P : AuthSession → Type 0) (stable : IsStable id P) where
  All-create_session :
      (s : AuthSession) (db : Database)
      → s.id ≢ id
      → All P db.sessions
      → All P (or_unchanged db (create_session s db)).sessions
  All-create_session s db fresh h =
      elim (Bool-cases (any (λ r. r.id == s.id || r.token_hash == s.token_hash) db.sessions)) [
        | inl used ↦ rw used h
        | inr free ↦ rw free (All-append P db.sessions (s ∷ []) h (stable.on_others s fresh, tt))
      ]

  All-execute_statement :
      (st : Statement) (db : Database)
      → SparesId id st
      → All P db.sessions
      → All P (execute_statement st db).sessions
  unfolding execute_statement rotate_refresh_token
  All-execute_statement (rotates now parsed presented next) db spares h =
      All-update_where P _ _ db.sessions (stable.on_rotation now parsed presented next) h
  All-execute_statement (revokes_replayed now parsed hash) db spares h =
      All-update_where P _ _ db.sessions (λ s e. stable.on_revocation now s) h
  All-execute_statement (revokes_logged_out now parsed hash) db spares h =
      All-update_where P _ _ db.sessions (λ s e. stable.on_revocation now s) h
  All-execute_statement (forgets_consumed i) db spares h = h
  All-execute_statement (creates s) db spares h = All-create_session s db spares h
  All-execute_statement (removes_expired now chosen) db spares h = All-filter P _ db.sessions h

  pub All-execute_all :
      (sts : List Statement) (db : Database)
      → All (SparesId id) sts
      → All P db.sessions
      → All P (execute_all sts db).sessions
  unfolding execute_all
  All-execute_all [] db spares h = h
  All-execute_all (st ∷ sts) db spares h =
      All-execute_all sts (execute_statement st db) spares.1
        (All-execute_statement st db spares.0 h)

lt_trans : (a b c : ℕ) → a < b → b < c → a < c
lt_trans a b c h k = omega arith

pub next_sequence_lem :
    (now : ℕ) (parsed : ParsedRefreshToken) (presented : String) (s : AuthSession)
    → is_rotated now parsed presented s ≡ true
    → s.refresh_sequence < next_sequence parsed
unfolding is_rotated
next_sequence_lem now (ParsedRefreshToken.versioned id token sequence) presented s e = ground arith
next_sequence_lem now (ParsedRefreshToken.legacy id token) presented s e = ground arith

pub IsPast-IsStable : (id : String) (n : ℕ) → IsStable id (IsPast id n)
IsPast-IsStable id n = record {
  on_rotation = λ now parsed presented next s e h own.
      lt_trans n s.refresh_sequence (next_sequence parsed) (h own)
        (next_sequence_lem now parsed presented s e);
  on_revocation = λ now s h. h;
  on_others = λ s other own. absurd (other own);
}

pub IsRevoked-IsStable : (id : String) → IsStable id (IsRevoked id)
IsRevoked-IsStable id = record {
  on_rotation = λ now parsed presented next s e h. h;
  on_revocation = λ now s h own. refl;
  on_others = λ s other own. absurd (other own);
}
