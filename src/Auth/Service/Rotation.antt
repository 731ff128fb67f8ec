-- ===== src/Auth/Service/Rotation.antt =====
-- auth.service.ts: a refresh token is good for one refresh.
use uml_class_designer_be.Common.{
  ℕ, ◌<◌, String, true, false, ◌≡◌, ◌≢◌, refl, sym, ap, ◌∙◌, inl, inr, List, [], ◌∷◌, map, ◌==◌,
  if◌then◌else◌, arith, Bool-cases, ==-cases, eq_iff, All, IsDistinct, contains, true≢false,
}
use uml_class_designer_be.Auth.Tokens.{ParsedRefreshToken, session_id}
use uml_class_designer_be.Collaboration.Database.{Database, AuthSession, count}
use uml_class_designer_be.Auth.Sessions.{
  is_rotated, rotated_session, update_where, expected_sequence, next_sequence,
}
use uml_class_designer_be.Auth.Sessions.Growth.{IsPast, next_sequence_lem}

-- The sessions' primary key.
abbrev pub session_ids : Database → List String
session_ids db = map (λ (s : AuthSession). s.id) db.sessions

distinct-other :
    (a b : String) (ids : List String)
    → contains a ids ≡ false
    → contains b ids ≡ true
    → (a == b) ≡ false
distinct-other a b ids h k = elim (==-cases a b) [
  | inl same ↦ absurd (true≢false (sym k ∙ ap (λ (t : String). contains t ids) (sym same.1) ∙ h))
  | inr other ↦ other.0
]

module _ (now : ℕ) (parsed : ParsedRefreshToken) (presented : String) where
  rotated-id :
      (s : AuthSession) → is_rotated now parsed presented s ≡ true → s.id ≡ session_id parsed
  unfolding is_rotated
  rotated-id s e = (eq_iff s.id (session_id parsed)).0 (ground arith)

  contains_of_count :
      (rows : List AuthSession)
      → count (is_rotated now parsed presented) rows ≢ 0
      → contains (session_id parsed) (map (λ (s : AuthSession). s.id) rows) ≡ true
  contains_of_count [] h = absurd (h refl)
  contains_of_count (s ∷ rows) h = elim (Bool-cases (is_rotated now parsed presented s)) [
    | inl hit ↦ ground (arith, eq_iff s.id (session_id parsed), rotated-id s hit)
    | inr miss ↦ ground (arith, contains_of_count rows)
  ]

  expected-sequence_lem :
      (s : AuthSession)
      → is_rotated now parsed presented s ≡ true
      → s.refresh_sequence ≡ expected_sequence parsed
  unfolding is_rotated
  expected-sequence_lem s e = ground arith

  next_sequence-grows :
      (s : AuthSession)
      → is_rotated now parsed presented s ≡ true
      → expected_sequence parsed < next_sequence parsed
  next_sequence-grows s e =
      omega (arith, next_sequence_lem now parsed presented s e, expected-sequence_lem s e)

  not_past :
      (s : AuthSession)
      → is_rotated now parsed presented s ≡ true
      → ¬ (expected_sequence parsed < s.refresh_sequence)
  not_past s e h = omega (arith, expected-sequence_lem s e)

  module _ (next : String) where
    other-IsPast :
        (n : ℕ) (s : AuthSession)
        → (s.id == session_id parsed) ≡ false
        → IsPast (session_id parsed) n (
            if is_rotated now parsed presented s
            then rotated_session next (next_sequence parsed) s
            else s)
    other-IsPast n s other = elim (Bool-cases (is_rotated now parsed presented s)) [
      | inl hit ↦ absurd (ground (arith, other, eq_iff s.id (session_id parsed), rotated-id s hit))
      | inr miss ↦
          rw miss (λ own. absurd (ground (arith, other, eq_iff s.id (session_id parsed), own)))
    ]

    absent-IsPast :
        (n : ℕ) (rows : List AuthSession)
        → contains (session_id parsed) (map (λ (s : AuthSession). s.id) rows) ≡ false
        → All (IsPast (session_id parsed) n) (
            update_where
              (is_rotated now parsed presented)
              (rotated_session next (next_sequence parsed))
              rows)
    absent-IsPast n [] h = tt
    absent-IsPast n (s ∷ rows) h =
        (other-IsPast n s (ground arith), absent-IsPast n rows (ground arith))

    -- After a rotation every row of the session is past the number of the token.
    pub rotation-IsPast :
        (rows : List AuthSession)
        → IsDistinct (map (λ (s : AuthSession). s.id) rows)
        → count (is_rotated now parsed presented) rows ≢ 0
        → All (IsPast (session_id parsed) (expected_sequence parsed)) (
            update_where
              (is_rotated now parsed presented)
              (rotated_session next (next_sequence parsed))
              rows)
    rotation-IsPast [] d h = absurd (h refl)
    rotation-IsPast (s ∷ rows) d h = elim (Bool-cases (is_rotated now parsed presented s)) [
      | inl hit ↦ (
        rw hit (λ own. next_sequence-grows s hit),
        absent-IsPast (expected_sequence parsed) rows (rw (rotated-id s hit) at d.0),
      )
      | inr miss ↦
          let more : count (is_rotated now parsed presented) rows ≢ 0 = λ z. h (ground arith) in
          (
            other-IsPast (expected_sequence parsed) s (
                distinct-other s.id (session_id parsed) (map (λ (r : AuthSession). r.id) rows) d.0
                  (contains_of_count rows more)),
            rotation-IsPast rows d.1 more,
          )
    ]

  -- A token is refused once the session is past it.
  pub past-not_rotated :
      (rows : List AuthSession)
      → All (IsPast (session_id parsed) (expected_sequence parsed)) rows
      → count (is_rotated now parsed presented) rows ≡ 0
  past-not_rotated [] h = refl
  past-not_rotated (s ∷ rows) h = elim (Bool-cases (is_rotated now parsed presented s)) [
    | inl hit ↦ absurd (not_past s hit (h.0 (rotated-id s hit)))
    | inr miss ↦ rw miss (past-not_rotated rows h.1)
  ]
