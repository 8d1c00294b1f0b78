-- ===== src/Auth/Jwt.antt =====
-- Bearer tokens (`JWTAuthenticator` of auth.go).
--
-- The JWT package is a parameter (`JwtLibrary`). A time is a number of seconds. A map of claims tells
-- texts and lists from other values.
use Prim.Native.Char.{code}
use atlasic.Prelude.{
  ℕ, String, Bool, true, false, not, ◌||◌, Option, none, some, List, [], ◌∷◌, ◌==◌, string_eq, ltb,
  nat_eq, if◌then◌else◌,
}
use atlasic.Prelude.Table.{Table, lookup, insert}
use atlasic.Prelude.Exec.{Result, ok, err, auth}
use atlasic.Transport.{HttpRequest, Context, header}
use atlasic.Auth.{SecurityScheme, missing_credentials, invalid_credentials, expired_credentials}

-- A claim that is a text, a list of which some members are texts, or any other value.
pub data Claim : Type 0 where
  text : String → Claim
  list : List (Option String) → Claim
  other : Claim

abbrev pub MapClaims : Type 0
MapClaims = Table String Claim

-- `jwt.Token`; the claims are `none` where they are no `jwt.MapClaims`.
pub record Token : Type 0 where
  pub method : String
  pub claims : Option MapClaims
  pub valid : Bool

-- `parse_with_claims` asks the first function for the key of a token. `claims_value` is how claims
-- stand in a context.
pub record JwtLibrary : Type 0 where
  pub parse_with_claims : (Token → Option String) → String → Option Token
  pub get_expiration_time : MapClaims → Option ℕ
  pub claims_value : MapClaims → String

-- `JWTAuthenticator`, with `none` for no function.
pub record JwtAuthenticator : Type 0 where
  pub secret_key : String
  pub signing_method : String
  pub audience : String
  pub validate_func : Option (MapClaims → Bool)

unfoldable pub new_jwt_authenticator : String → JwtAuthenticator
new_jwt_authenticator secret_key = record {
  secret_key = secret_key;
  signing_method = "HS256";
  audience = "";
  validate_func = none;
}

unfoldable pub with_validate_func : (MapClaims → Bool) → JwtAuthenticator → JwtAuthenticator
with_validate_func f j = record j { validate_func = some f }

unfoldable pub with_signing_method : String → JwtAuthenticator → JwtAuthenticator
with_signing_method method j = record j { signing_method = method }

unfoldable pub with_audience : String → JwtAuthenticator → JwtAuthenticator
with_audience audience j = record j { audience = audience }

-- `strings.HasPrefix` and `strings.TrimPrefix`: what follows the prefix, if the text has it.
unfoldable pub after_prefix : String → String → Option String
after_prefix String.[] s = some s
after_prefix (String.◌∷◌ c prefix) String.[] = none
after_prefix (String.◌∷◌ c prefix) (String.◌∷◌ d s) =
    let rest = after_prefix prefix s in if nat_eq (code c) (code d) then rest else none

-- The key for a token, if it names the expected method.
abbrev pub key_for : JwtAuthenticator → Token → Option String
key_for j token = if token.method == j.signing_method then some j.secret_key else none

abbrev pub is_among : String → List (Option String) → Bool
is_among audience [] = false
is_among audience (none ∷ items) = is_among audience items
is_among audience (some item ∷ items) = (item == audience) || is_among audience items

abbrev pub names_audience : String → Option Claim → Bool
names_audience audience (some (text t)) = t == audience
names_audience audience (some (list items)) = is_among audience items
names_audience audience _ = false

-- An empty audience asks for nothing.
unfoldable pub audience_valid : String → MapClaims → Bool
audience_valid audience claims = (audience == "") || names_audience audience (lookup "aud" claims)

abbrev pub is_before : Option ℕ → ℕ → Bool
is_before none now = false
is_before (some time) now = ltb time now

abbrev pub validated : Option (MapClaims → Bool) → MapClaims → Bool
validated none claims = true
validated (some f) claims = f claims

abbrev pub rejected : Result HttpRequest
rejected = err (auth invalid_credentials "bearer")

module _ (library : JwtLibrary) (j : JwtAuthenticator) (now : ℕ) where
  abbrev pub with_claims : String → MapClaims → HttpRequest → HttpRequest
  with_claims token claims r = record r {
    context = record (r.context) {
      values =
          insert "jwt-token" token
            (insert "jwt-claims" (library.claims_value claims) r.context.values);
    };
  }

  abbrev pub check_claims : HttpRequest → String → MapClaims → Result HttpRequest
  check_claims r token claims =
      if is_before (library.get_expiration_time claims) now
      then err (auth expired_credentials "bearer")
      else if not (audience_valid j.audience claims)
      then rejected
      else if validated j.validate_func claims
      then ok (with_claims token claims r)
      else rejected

  abbrev pub check_parsed : HttpRequest → String → Bool → Option MapClaims → Result HttpRequest
  check_parsed r token true (some claims) = check_claims r token claims
  check_parsed r token _ _ = rejected

  abbrev pub check_token : HttpRequest → String → Option Token → Result HttpRequest
  check_token r token none = rejected
  check_token r token (some parsed) = check_parsed r token parsed.valid parsed.claims

  abbrev pub check_bearer : HttpRequest → Option String → Result HttpRequest
  check_bearer r none = rejected
  check_bearer r (some token) = check_token r token (library.parse_with_claims (key_for j) token)

  unfoldable pub authenticate : HttpRequest → Result HttpRequest
  unfolding after_prefix audience_valid
  authenticate r =
      let value = header "Authorization" r.headers in
      if value == ""
      then err (auth missing_credentials "bearer")
      else check_bearer r (after_prefix "Bearer " value)

unfoldable pub get_jwt_token : Context → Option String
get_jwt_token ctx = lookup "jwt-token" ctx.values

unfoldable pub get_security_schemes : Table String SecurityScheme
get_security_schemes =
    (
      "bearer",
      record {
        type = "http";
        description = "JWT Bearer token authentication";
        name = "";
        place = "";
        scheme = "bearer";
        bearer_format = "JWT";
      },
    )
    ∷ []

unfoldable pub get_security_requirements : List (Table String (List String))
get_security_requirements = (("bearer", []) ∷ []) ∷ []
