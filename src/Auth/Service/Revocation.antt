-- ===== src/Auth/Service/Revocation.antt =====
-- auth.service.ts: a revocation whose condition holds of every live row of a session revokes it.
use uml_class_designer_be.Common.{
  ℕ, String, Bool, true, ◌≡◌, refl, inl, inr, List, [], ◌∷◌, Bool-cases, All, ltb, some, sym, ◌∙◌,
  true≢false,
}
use uml_class_designer_be.Collaboration.Database.{Database, AuthSession, is_not_set, count}
use uml_class_designer_be.Auth.Sessions.{Statement, update_where, revoke_where}
use uml_class_designer_be.Auth.Sessions.Growth.{
  SparesId, IsRevoked, All-execute_all, IsRevoked-IsStable,
}
use uml_class_designer_be.Auth.Service.{revoke_and_notify}

-- The condition holds of a row of the session that is not revoked.
abbrev pub IsCovered : String → (AuthSession → Bool) → AuthSession → Type 0
IsCovered id p s = s.id ≡ id → is_not_set s.revoked_at ≡ true → p s ≡ true

module _ (now : ℕ) (id : String) (p : AuthSession → Bool) where
  update_where-IsRevoked :
      (rows : List AuthSession)
      → All (IsCovered id p) rows
      → All (IsRevoked id) (update_where p (λ s. record s { revoked_at = some now }) rows)
  update_where-IsRevoked [] h = tt
  update_where-IsRevoked (s ∷ rows) h = elim (Bool-cases (p s)) [
    | inl hit ↦ rw hit (λ own. refl, update_where-IsRevoked rows h.1)
    | inr miss ↦ rw miss (
      λ own. elim (Bool-cases (is_not_set s.revoked_at)) [
        | inl live ↦ absurd (true≢false (sym (h.0 own live) ∙ miss))
        | inr over ↦ over
      ],
      update_where-IsRevoked rows h.1,
    )
  ]

  pub revoke_and_notify-IsRevoked :
      (others : List Statement) (db : Database)
      → All (IsCovered id p) db.sessions
      → All (SparesId id) others
      → All (IsRevoked id) (revoke_and_notify now others id p db).0.sessions
  unfolding revoke_and_notify
  revoke_and_notify-IsRevoked others db h spares =
      let revoked = update_where-IsRevoked db.sessions h in
      elim (Bool-cases (ltb 0 (count p db.sessions))) [
        | inl changed ↦ rw changed (
            All-execute_all id (IsRevoked id) (IsRevoked-IsStable id) others (revoke_where now p db)
              spares revoked)
        | inr same ↦ rw same revoked
      ]
