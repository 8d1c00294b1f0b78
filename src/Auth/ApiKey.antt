-- ===== src/Auth/ApiKey.antt =====
-- A fixed key in a header of the request (`StaticAPIKeyAuthenticator` of auth.go).
use atlasic.Prelude.{String, List, [], ◌∷◌, ◌==◌, string_eq, if◌then◌else◌}
use atlasic.Prelude.Table.{Table}
use atlasic.Prelude.Exec.{Result, ok, err, auth}
use atlasic.Transport.{HttpRequest, header}
use atlasic.Auth.{SecurityScheme, missing_credentials, invalid_credentials}

-- `StaticAPIKeyAuthenticator`
pub record Authenticator : Type 0 where
  pub api_key : String
  pub header_name : String

unfoldable pub checked_header : Authenticator → String
checked_header a = if a.header_name == "" then "X-API-Key" else a.header_name

unfoldable pub authenticate : Authenticator → HttpRequest → Result HttpRequest
unfolding checked_header
authenticate a r =
    let key = header (checked_header a) r.headers in
    if key == ""
    then err (auth missing_credentials "apiKey")
    else if key == a.api_key
    then ok r
    else err (auth invalid_credentials "apiKey")

unfoldable pub get_security_schemes : Authenticator → Table String SecurityScheme
unfolding checked_header
get_security_schemes a =
    (
      "apiKey",
      record {
        type = "apiKey";
        description = "API key authentication";
        name = checked_header a;
        place = "header";
        scheme = "";
        bearer_format = "";
      },
    )
    ∷ []

unfoldable pub get_security_requirements : Authenticator → List (Table String (List String))
get_security_requirements a = (("apiKey", []) ∷ []) ∷ []
