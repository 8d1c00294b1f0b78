-- ===== src/Auth/Guarded.antt =====
-- Whom the authenticators let in (auth.go), and what that means for the handler that asks them
-- (transport/handler.go).
use atlasic.Prelude.{
  ℕ, String, Bool, true, ◌≡◌, ◌≢◌, ◌↔◌, subst, ◌⊎◌, inl, inr, Option, none, some, ◌==◌, string_eq,
  Bool-cases, eq_iff, arith,
}
use mathlib.Core.Path.{Path}
use atlasic.Prelude.Exec.{Result, ok}
use atlasic.Transport.{HttpRequest, Writer, header}
use atlasic.Transport.Handler.Serving.{Handler, serve_http, authenticated}
use atlasic.Transport.Handler.Guards.{IsRefused, serve_http-guarded}
use atlasic.Auth.ApiKey
use atlasic.Auth.ApiKey.{checked_header}
use atlasic.Auth.Jwt
use atlasic.Auth.Jwt.{
  Claim, text, list, other, MapClaims, Token, JwtLibrary, JwtAuthenticator, after_prefix, key_for,
  is_among, names_audience, audience_valid, is_before, validated, with_claims, check_claims,
  check_parsed, check_token, check_bearer,
}
use atlasic.Auth.Bearer.{Bears, authenticate-Bears}

-- The static authenticator lets a request through exactly if the header that it checks has its
-- key and the key is not empty, and then gives the request back unchanged.
pub api_key_iff :
    (a : ApiKey.Authenticator) (r r' : HttpRequest)
    → (ApiKey.authenticate a r ≡ ok r')
      ↔ ((r' ≡ r) × (header (checked_header a) r.headers ≡ a.api_key) × (a.api_key ≢ ""))
unfolding ApiKey.authenticate
api_key_iff a r r' =
    let key = header (checked_header a) r.headers in
    (
      λ h. ground (arith, eq_iff key "", eq_iff key a.api_key),
      λ (same, matches, filled). ground (arith, eq_iff key "", eq_iff key a.api_key),
    )

-- What the JWT package documents: a token that it returns has a key from the function that it is
-- given, and its signature verifies under this key by the method that the token names.
abbrev pub IsDocumented : JwtLibrary → (String → String → String → Bool) → Type 0
IsDocumented library verifies =
    (key : Token → Option String) (s : String) (token : Token)
    → library.parse_with_claims key s ≡ some token
    → (k : String) × (key token ≡ some k) × (verifies s k token.method ≡ true)

key_for-secret :
    (j : JwtAuthenticator) (token : Token) (k : String)
    → key_for j token ≡ some k
    → (k ≡ j.secret_key) × (token.method ≡ j.signing_method)
key_for-secret j token k h = elim (Bool-cases (token.method == j.signing_method)) [
  | inl same ↦
      let found : some j.secret_key ≡ some k = rw same at h in
      (cc, (eq_iff token.method j.signing_method).0 same)
  | inr differ ↦ absurd (let none_found : Path (Option String) none (some k) = rw differ at h in cc)
]

signed :
    (library : JwtLibrary) (verifies : String → String → String → Bool)
    → IsDocumented library verifies
    → (j : JwtAuthenticator) (s : String) (token : Token)
    → library.parse_with_claims (key_for j) s ≡ some token
    → verifies s j.secret_key j.signing_method ≡ true
signed library verifies documented j s token parsed =
    let (k, found, verified) = documented (key_for j) s token parsed in
    let (secret, method) = key_for-secret j token k found in rw (← secret, ← method) verified

module _ {S : Type 0} (h : Handler S) where
  asked :
      {r request : HttpRequest} {authenticate : HttpRequest → Result HttpRequest}
      → h.config.authenticator ≡ some authenticate
      → authenticated h h.config.authenticator r ≡ ok request
      → authenticate r ≡ ok request
  asked {r} {request} installed e = subst (λ a. authenticated h a r ≡ ok request) installed e

  -- A request without the key of the static authenticator never reaches the service.
  pub serve_http-api_key :
      (a : ApiKey.Authenticator) (r : HttpRequest) (s : S) (w : Writer)
      → h.config.authenticator ≡ some (ApiKey.authenticate a)
      → r.method ≡ "POST"
      → r.path ≡ h.config.rpc_path
      → header (checked_header a) r.headers ≢ a.api_key
      → IsRefused h s w (serve_http h r (s, w))
  serve_http-api_key a r s w installed post on_path wrong =
      elim (serve_http-guarded h r s w post on_path) [
        | inl admitted ↦ absurd (
            wrong
              ((api_key_iff a r admitted.request).0 (asked installed admitted.is_authenticated)).1)
        | inr refused ↦ refused
      ]

  -- If the JWT package does what it documents: a POST on the path of the methods, to a
  -- handler with a JWT authenticator, bears a token that verifies under the authenticator's
  -- key and method, has not expired, is for its audience and passes its function; or the
  -- service is as before, and one error response is written.
  pub serve_http-jwt :
      (library : JwtLibrary) (verifies : String → String → String → Bool)
      → IsDocumented library verifies
      → (j : JwtAuthenticator) (now : ℕ) (r : HttpRequest) (s : S) (w : Writer)
      → h.config.authenticator ≡ some (Jwt.authenticate library j now)
      → r.method ≡ "POST"
      → r.path ≡ h.config.rpc_path
      → ((r' : HttpRequest) × (b : Bears library j now r r') × (verifies b.token j.secret_key
              j.signing_method
            ≡ true))
        ⊎ IsRefused h s w (serve_http h r (s, w))
  serve_http-jwt library verifies documented j now r s w installed post on_path =
      elim (serve_http-guarded h r s w post on_path) [
        | inl admitted ↦
            let b =
              authenticate-Bears library j now r admitted.request
                (asked installed admitted.is_authenticated) in
            inl (
              admitted.request,
              b,
              signed library verifies documented j b.token b.parsed b.is_parsed,
            )
        | inr refused ↦ inr refused
      ]
