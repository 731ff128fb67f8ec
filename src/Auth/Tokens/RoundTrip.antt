-- ===== src/Auth/Tokens/RoundTrip.antt =====
-- auth.service.ts: a refresh token that was made is read back, and what is read was signed.
use Prim.Native.String.{◌++◌ as str_append}
use text.Mathlib.TextLemmas.{nil-append, cons-append}
use uml_class_designer_be.Common.{
  ℕ, suc, ◌+◌, ◌≤◌, ◌<◌, String, Bool, true, false, not, ◌≡◌, refl, ◌∙◌, ap, none, some, List, [],
  ◌∷◌, all, leb, ltb, nat_eq, arith, eq_refl,
}
use uml_class_designer_be.Uml.Multiplicity.{codes, is_digit}
use uml_class_designer_be.Auth.Engine.{AuthEngine}
use uml_class_designer_be.Auth.Tokens.{
  ParsedRefreshToken, decimal_text, utf16_length, is_sequence, is_empty, is_signature, is_base64url,
  split_at_dots, parse_refresh_token, parse_split, parse_parts, new_session_token, signature_of,
  is_safe_integer,
}
use uml_class_designer_be.Auth.Tokens.Digits.{
  is_sequence-decimal_text, decimal-decimal_text, length-decimal_text, power_of_ten,
  digits-decimal_text,
}

abbrev pub is_dot : ℕ → Bool
is_dot c = nat_eq c b'.'

abbrev pub has_no_dot : String → Bool
has_no_dot s = all (λ c. not (is_dot c)) (codes s)

-- What the platform's functions are relied on for: a UUID is 36 characters without a dot, and a
-- signature is 43 of the alphabet base64url.
pub record IsStandard (engine : AuthEngine) : Type 0 where
  pub uuid_length : (s : String) → engine.is_uuid s ≡ true → utf16_length s ≡ 36
  pub uuid_text : (s : String) → engine.is_uuid s ≡ true → has_no_dot s ≡ true
  pub signature_text : (s : String) → is_signature (engine.sign s) ≡ true

utf16_length-append :
    (s t : String) → utf16_length (str_append s t) ≡ utf16_length s + utf16_length t
unfolding utf16_length
utf16_length-append String.[] t = rw nil-append (omega arith)
utf16_length-append (String.◌∷◌ c s) t = rw cons-append (omega (arith, utf16_length-append s t))

split_at_dots-none : (s : String) → has_no_dot s ≡ true → split_at_dots s ≡ s ∷ []
unfolding split_at_dots
split_at_dots-none String.[] h = refl
split_at_dots-none (String.◌∷◌ c s) h = ground (arith, split_at_dots-none s)

split_at_dots-append :
    (s t : String)
    → has_no_dot s ≡ true
    → split_at_dots (str_append s (str_append "." t)) ≡ s ∷ split_at_dots t
unfolding split_at_dots
split_at_dots-append String.[] t h = rw (nil-append, cons-append, nil-append) refl
split_at_dots-append (String.◌∷◌ c s) t h =
    rw cons-append (ground (arith, split_at_dots-append s t))

digits-no_dot : (cs : List ℕ) → all is_digit cs ≡ true → all (λ c. not (is_dot c)) cs ≡ true
digits-no_dot [] h = refl
digits-no_dot (c ∷ cs) h = ground (arith, digits-no_dot cs)

base64url-no_dot : (cs : List ℕ) → all is_base64url cs ≡ true → all (λ c. not (is_dot c)) cs ≡ true
base64url-no_dot [] h = refl
base64url-no_dot (c ∷ cs) h = ground (arith, base64url-no_dot cs)

signature-shape :
    (s : String) → is_signature s ≡ true → (has_no_dot s ≡ true) × (utf16_length s ≡ 43)
unfolding is_signature
signature-shape s h = (base64url-no_dot (codes s) (ground arith), ground arith)

not_empty : (s : String) (n : ℕ) → utf16_length s ≡ suc n → is_empty s ≡ false
unfolding utf16_length
not_empty String.[] n h = absurd (omega (arith, h))
not_empty (String.◌∷◌ c s) n h = refl

sequence-not_empty : (s : String) → is_sequence (codes s) ≡ true → is_empty s ≡ false
sequence-not_empty String.[] h = cc
sequence-not_empty (String.◌∷◌ c s) h = refl

utf16_length-dot : utf16_length "." ≡ 1
unfolding utf16_length
utf16_length-dot = refl

some_text-not_empty : (s : String) → 0 < utf16_length s → is_empty s ≡ false
unfolding utf16_length
some_text-not_empty String.[] h = absurd (omega arith)
some_text-not_empty (String.◌∷◌ c s) h = refl

at_most : (n : ℕ) → n ≤ 256 → ltb 256 n ≡ false
at_most n h = ground arith

leb_bound : (n : ℕ) → leb n 9007199254740991 ≡ true → n ≤ 9007199254740991
leb_bound n h = ground arith

safe-small : (n : ℕ) → is_safe_integer n ≡ true → n < power_of_ten 16
safe-small n h = omega (arith, leb_bound n h)

parse_parts-versioned :
    (engine : AuthEngine) (value id : String) (n : ℕ)
    → is_signature (signature_of engine id n) ≡ true
    → is_safe_integer n ≡ true
    → parse_parts engine value id (decimal_text n) (some (signature_of engine id n)) none
      ≡ some (ParsedRefreshToken.versioned id value n)
unfolding parse_parts
parse_parts-versioned engine value id n sig safe =
    rw (is_sequence-decimal_text n, sig, decimal-decimal_text n, safe, eq_refl) refl

module _ (engine : AuthEngine) (standard : IsStandard engine) (id : String) (n : ℕ)
    (uuid : engine.is_uuid id ≡ true) (safe : is_safe_integer n ≡ true) where
  split-new_session_token :
      split_at_dots (new_session_token engine id n)
      ≡ id ∷ decimal_text n ∷ signature_of engine id n ∷ []
  unfolding new_session_token signature_of
  split-new_session_token =
      split_at_dots-append id _ (standard.uuid_text id uuid)
      ∙ ap (λ parts. id ∷ parts)
          (split_at_dots-append (decimal_text n) _
              (digits-no_dot (codes (decimal_text n)) (digits-decimal_text n))
            ∙ ap (λ parts. decimal_text n ∷ parts)
                (split_at_dots-none _ (signature-shape _ (standard.signature_text _)).0))

  length-new_session_token :
      (0 < utf16_length (new_session_token engine id n))
      × (utf16_length (new_session_token engine id n) ≤ 256)
  unfolding new_session_token signature_of
  length-new_session_token =
      let tail =
        signature-shape (engine.sign (str_append id (str_append "." (decimal_text n))))
          (standard.signature_text _) in
      omega (
        arith,
        utf16_length-append,
        utf16_length-dot,
        standard.uuid_length id uuid,
        length-decimal_text n (safe-small n safe),
        tail.1,
      )

  is_signature-signature_of : is_signature (signature_of engine id n) ≡ true
  unfolding signature_of
  is_signature-signature_of = standard.signature_text _

  -- The token of a session and a sequence number is read as these.
  pub parse-new_session_token :
      parse_refresh_token engine (some (new_session_token engine id n))
      ≡ some (ParsedRefreshToken.versioned id (new_session_token engine id n) n)
  unfolding parse_refresh_token parse_split
  parse-new_session_token =
      let (some_text, short) = length-new_session_token in
      let sig = is_signature-signature_of in
      rw (some_text-not_empty _ some_text, at_most _ short, split-new_session_token)
        (rw
          (
            not_empty id 35 (standard.uuid_length id uuid),
            sequence-not_empty (decimal_text n) (is_sequence-decimal_text n),
            uuid,
          )
          (parse_parts-versioned engine (new_session_token engine id n) id n sig safe))
