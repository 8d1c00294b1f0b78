-- ===== src/Auth/Bearer.antt =====
-- What a request bears that the JWT authenticator lets in (auth.go).
use package.text.Mathlib.TextEquality.{Char-path}
use package.text.Mathlib.TextLemmas.{nil-append, cons-append}
use atlasic.Prelude.{
  ℕ, String, Bool, true, false, ◌≡◌, refl, sym, ap, ◌∙◌, ◌⊎◌, inl, inr, Option, none, some, List,
  [], ◌∷◌, ◌==◌, string_eq, Bool-cases, eq_iff, nat_eq, arith,
}
use mathlib.Core.Path.{Path, ap₂}
use Prim.Native.Char.{code}
use atlasic.Prelude.Table.{lookup}
use atlasic.Prelude.Texts.{concat}
use atlasic.Prelude.Exec.{Result, ok, err, auth}
use atlasic.Transport.{HttpRequest, header}
use atlasic.Auth.{missing_credentials}
use atlasic.Auth.Jwt
use atlasic.Auth.Jwt.{
  Claim, text, list, other, MapClaims, Token, JwtLibrary, JwtAuthenticator, after_prefix, key_for,
  is_among, names_audience, audience_valid, is_before, validated, with_claims, check_claims,
  check_parsed, check_token, check_bearer,
}

nat_eq-eq : (m n : ℕ) → nat_eq m n ≡ true → m ≡ n
nat_eq-eq m n h = ground arith

after_prefix-concat :
    (prefix s rest : String) → after_prefix prefix s ≡ some rest → s ≡ concat prefix rest
unfolding after_prefix
after_prefix-concat String.[] s rest h = let same : s ≡ rest = cc in same ∙ sym (nil-append rest)
after_prefix-concat (String.◌∷◌ c prefix) String.[] rest h = cc
after_prefix-concat (String.◌∷◌ c prefix) (String.◌∷◌ d s) rest h =
    elim (Bool-cases (nat_eq (code c) (code d))) [
      | inl same ↦
          let c' : c ≡ d = Char-path c d (nat_eq-eq _ _ same) in
          ap₂ String.◌∷◌ (sym c') (after_prefix-concat prefix s rest (rw same at h))
          ∙ sym (cons-append c prefix rest)
      | inr differ ↦ absurd (let refused : none ≡ some rest = rw differ at h in cc)
    ]

-- One of the items is the text.
abbrev pub Among : String → List (Option String) → Type 0
Among audience [] = ⊥
Among audience (item ∷ items) = (item ≡ some audience) ⊎ Among audience items

-- No audience is asked for, or the claim "aud" is it or has it among its items.
abbrev pub IsFor : String → MapClaims → Type 0
IsFor audience claims =
    (audience ≡ "")
    ⊎ (lookup "aud" claims ≡ some (text audience))
    ⊎ ((items : List (Option String)) × (lookup "aud" claims ≡ some (list items))
        × Among audience items)

is_among-Among :
    (audience : String) (items : List (Option String))
    → is_among audience items ≡ true
    → Among audience items
is_among-Among audience [] h = cc
is_among-Among audience (none ∷ items) h = inr (is_among-Among audience items h)
is_among-Among audience (some item ∷ items) h = elim (Bool-cases (item == audience)) [
  | inl same ↦ inl (ap some ((eq_iff item audience).0 same))
  | inr differ ↦ inr (is_among-Among audience items (rw differ at h))
]

names-IsFor :
    (audience : String) (claims : MapClaims) (claim : Option Claim)
    → lookup "aud" claims ≡ claim
    → names_audience audience claim ≡ true
    → IsFor audience claims
names-IsFor audience claims none same h = cc
names-IsFor audience claims (some (text t)) same h =
    inr (inl (same ∙ ap (λ s. some (text s)) ((eq_iff t audience).0 h)))
names-IsFor audience claims (some (list items)) same h =
    inr (inr (items, same, is_among-Among audience items h))
names-IsFor audience claims (some other) same h = cc

audience_valid-IsFor :
    (audience : String) (claims : MapClaims)
    → audience_valid audience claims ≡ true
    → IsFor audience claims
unfolding audience_valid
audience_valid-IsFor audience claims h = elim (Bool-cases (audience == "")) [
  | inl empty ↦ inl ((eq_iff audience "").0 empty)
  | inr asked ↦ names-IsFor audience claims (lookup "aud" claims) refl (rw asked at h)
]

-- What is checked of a token's claims.
pub record ClaimsPass (library : JwtLibrary) (j : JwtAuthenticator) (now : ℕ) (claims : MapClaims)
    : Type 0 where
  pub not_expired : is_before (library.get_expiration_time claims) now ≡ false
  pub for_audience : IsFor j.audience claims
  pub is_validated : validated j.validate_func claims ≡ true

-- The request bears a token that the JWT package takes, with claims that pass.
pub record Bears (library : JwtLibrary) (j : JwtAuthenticator) (now : ℕ) (r r' : HttpRequest)
    : Type 0 where
  pub token : String
  pub parsed : Token
  pub claims : MapClaims
  pub is_bearer : header "Authorization" r.headers ≡ concat "Bearer " token
  pub is_parsed : library.parse_with_claims (key_for j) token ≡ some parsed
  pub has_claims : parsed.claims ≡ some claims
  pub pass : ClaimsPass library j now claims
  pub result : r' ≡ with_claims library j now token claims r

module _ (library : JwtLibrary) (j : JwtAuthenticator) (now : ℕ) where
  check_claims-Pass :
      (r r' : HttpRequest) (token : String) (claims : MapClaims)
      → check_claims library j now r token claims ≡ ok r'
      → ClaimsPass library j now claims × (r' ≡ with_claims library j now token claims r)
  check_claims-Pass r r' token claims h = elim (Bool-cases (audience_valid j.audience claims)) [
    | inl valid ↦ (
      record {
        not_expired = ground arith;
        for_audience = audience_valid-IsFor j.audience claims valid;
        is_validated = ground arith;
      },
      ground arith,
    )
    | inr invalid ↦ absurd (ground arith)
  ]

  check_parsed-Bears :
      (r r' : HttpRequest) (token : String) (parsed : Token) (valid : Bool)
      (claims : Option MapClaims)
      → header "Authorization" r.headers ≡ concat "Bearer " token
      → library.parse_with_claims (key_for j) token ≡ some parsed
      → parsed.claims ≡ claims
      → check_parsed library j now r token valid claims ≡ ok r'
      → Bears library j now r r'
  check_parsed-Bears r r' token parsed false claims bearer is_parsed has h = cc
  check_parsed-Bears r r' token parsed true none bearer is_parsed has h = cc
  check_parsed-Bears r r' token parsed true (some claims) bearer is_parsed has h =
      let (pass, result) = check_claims-Pass r r' token claims h in
      record {
        token = token;
        parsed = parsed;
        claims = claims;
        is_bearer = bearer;
        is_parsed = is_parsed;
        has_claims = has;
        pass = pass;
        result = result;
      }

  check_token-Bears :
      (r r' : HttpRequest) (token : String) (parsed : Option Token)
      → header "Authorization" r.headers ≡ concat "Bearer " token
      → library.parse_with_claims (key_for j) token ≡ parsed
      → check_token library j now r token parsed ≡ ok r'
      → Bears library j now r r'
  check_token-Bears r r' token none bearer is_parsed h = cc
  check_token-Bears r r' token (some parsed) bearer is_parsed h =
      check_parsed-Bears r r' token parsed parsed.valid parsed.claims bearer is_parsed refl h

  check_bearer-Bears :
      (r r' : HttpRequest) (token : Option String)
      → after_prefix "Bearer " (header "Authorization" r.headers) ≡ token
      → check_bearer library j now r token ≡ ok r'
      → Bears library j now r r'
  check_bearer-Bears r r' none same h = cc
  check_bearer-Bears r r' (some token) same h =
      check_token-Bears r r' token (library.parse_with_claims (key_for j) token)
        (after_prefix-concat "Bearer " _ token same) refl h

  pub authenticate-Bears :
      (r r' : HttpRequest) → Jwt.authenticate library j now r ≡ ok r' → Bears library j now r r'
  unfolding Jwt.authenticate
  authenticate-Bears r r' h = elim (Bool-cases (header "Authorization" r.headers == "")) [
    | inl missing ↦ absurd (
        let refused : Path (Result HttpRequest) (err (auth missing_credentials "bearer")) (ok r') =
          rw missing at h in
        cc)
    | inr given ↦ check_bearer-Bears r r' _ refl (rw given at h)
  ]
