-- ===== src/Auth/Tokens.antt =====
-- src/modules/auth/auth.service.ts: refresh tokens, `newSessionToken` and `parseRefreshToken`. A
-- number is printed in decimal; `Number(text)` of decimal digits is a safe integer exactly where the
-- number that they spell is one.
pub mod Digits
pub mod RoundTrip
use Prim.Native.Char.{Char, code}
use Prim.Native.String.{◌++◌ as str_append, count}
use uml_class_designer_be.Common.{
  ℕ, zero, suc, ◌+◌, ◌/◌, ◌%◌, String, Bool, true, false, not, ◌&&◌, ◌||◌, Option, none, some, List,
  [], ◌∷◌, get_elem?, all, leb, ltb, nat_eq, ◌==◌, if◌then◌else◌, is_some,
}
use uml_class_designer_be.Uml.Multiplicity.{codes, decimal, is_digit}
use uml_class_designer_be.Auth.Engine.{AuthEngine}

pub data ParsedRefreshToken : Type 0 where
  legacy : (session_id token : String) → ParsedRefreshToken
  versioned : (session_id token : String) (sequence : ℕ) → ParsedRefreshToken

abbrev pub session_id : ParsedRefreshToken → String
session_id (ParsedRefreshToken.legacy id token) = id
session_id (ParsedRefreshToken.versioned id token sequence) = id

abbrev pub token_text : ParsedRefreshToken → String
token_text (ParsedRefreshToken.legacy id token) = token
token_text (ParsedRefreshToken.versioned id token sequence) = token

-- `Number.isSafeInteger` of a natural number
abbrev pub is_safe_integer : ℕ → Bool
is_safe_integer n = leb n 9007199254740991

unfoldable pub digit : ℕ → Char
digit zero = "0"
digit (suc zero) = "1"
digit (suc (suc zero)) = "2"
digit (suc (suc (suc zero))) = "3"
digit (suc (suc (suc (suc zero)))) = "4"
digit (suc (suc (suc (suc (suc zero))))) = "5"
digit (suc (suc (suc (suc (suc (suc zero)))))) = "6"
digit (suc (suc (suc (suc (suc (suc (suc zero))))))) = "7"
digit (suc (suc (suc (suc (suc (suc (suc (suc zero)))))))) = "8"
digit _ = "9"

-- The digits of `n`, before a text; one round for each digit, and one round more than `n` is enough.
unfoldable pub digits_before : ℕ → ℕ → String → String
digits_before zero n text = text
digits_before (suc fuel) n text =
    let longer = digits_before fuel (n / 10) (String.◌∷◌ (digit (n % 10)) text) in
    if ltb n 10 then String.◌∷◌ (digit n) text else longer

-- a number in a template
unfoldable pub decimal_text : ℕ → String
decimal_text n = digits_before (suc n) n String.[]

-- what `refreshTokenSignature` signs, and the signature
unfoldable pub signature_of : AuthEngine → String → ℕ → String
signature_of engine id sequence =
    engine.sign (str_append id (str_append "." (decimal_text sequence)))

unfoldable pub new_session_token : AuthEngine → String → ℕ → String
new_session_token engine id sequence = str_append id (
    str_append "."
      (str_append (decimal_text sequence) (str_append "." (signature_of engine id sequence))))

-- `split('.')`
abbrev pub onto_first : Char → List String → List String
onto_first c [] = []
onto_first c (first ∷ others) = String.◌∷◌ c first ∷ others

unfoldable pub split_at_dots : String → List String
split_at_dots String.[] = String.[] ∷ []
split_at_dots (String.◌∷◌ c text) =
    let others = split_at_dots text in
    if nat_eq (code c) b'.' then String.[] ∷ others else onto_first c others

-- `length`, in UTF-16 units
unfoldable pub utf16_length : String → ℕ
utf16_length String.[] = 0
utf16_length (String.◌∷◌ c text) = (if ltb (code c) 0x10000 then 1 else 2) + utf16_length text

abbrev pub is_empty : String → Bool
is_empty String.[] = true
is_empty (String.◌∷◌ c text) = false

-- `[A-Za-z0-9_-]`
abbrev pub is_base64url : ℕ → Bool
is_base64url c =
    is_digit c
    || (leb b'A' c && leb c b'Z')
    || (leb b'a' c && leb c b'z')
    || nat_eq c b'_'
    || nat_eq c b'-'

-- `/^[A-Za-z0-9_-]{43}$/`
unfoldable pub is_signature : String → Bool
is_signature text = all is_base64url (codes text) && nat_eq (utf16_length text) 43

-- `/^(?:0|[1-9][0-9]*)$/`
abbrev pub is_sequence : List ℕ → Bool
is_sequence [] = false
is_sequence (c ∷ []) = is_digit c
is_sequence (c ∷ d ∷ cs) = leb b'1' c && leb c b'9' && is_digit d && all is_digit cs

-- `if (extra || ...)`
abbrev pub is_extra : Option String → Bool
is_extra none = false
is_extra (some text) = not (is_empty text)

-- the parts that the pattern binds
unfoldable pub parse_parts :
    AuthEngine
    → String
    → String
    → String
    → Option String
    → Option String
    → Option ParsedRefreshToken
parse_parts engine value id middle none extra =
    if is_signature middle then some (ParsedRefreshToken.legacy id value) else none
parse_parts engine value id middle (some signature) extra =
    let sequence = decimal 0 (codes middle) in
    if is_extra extra || not (is_sequence (codes middle)) || not (is_signature signature)
    then none
    else if not (is_safe_integer sequence) || not (signature_of engine id sequence == signature)
    then none
    else some (ParsedRefreshToken.versioned id value sequence)

unfoldable pub parse_split : AuthEngine → String → List String → Option ParsedRefreshToken
parse_split engine value (id ∷ middle ∷ others) =
    if is_empty id || is_empty middle || not (engine.is_uuid id)
    then none
    else parse_parts engine value id middle (get_elem? others 0) (get_elem? others 1)
parse_split engine value _ = none

unfoldable pub parse_refresh_token : AuthEngine → Option String → Option ParsedRefreshToken
parse_refresh_token engine none = none
parse_refresh_token engine (some value) =
    if is_empty value || ltb 256 (utf16_length value)
    then none
    else parse_split engine value (split_at_dots value)
