-- ===== src/Auth.antt =====
-- The authenticators (auth.go), for the interface of transport/authenticator.go: ApiKey and Jwt.
-- Bearer: what the bearer tokens that are let in have. Guarded: the handler that asks them.
--
-- An `AuthError` is its code and scheme.
pub mod ApiKey
pub mod Jwt
pub mod Bearer
pub mod Guarded
use atlasic.Prelude.{String}

abbrev pub missing_credentials : String
missing_credentials = "missing_credentials"

abbrev pub invalid_credentials : String
invalid_credentials = "invalid_credentials"

abbrev pub expired_credentials : String
expired_credentials = "expired_credentials"

-- `a2a.SecurityScheme`, less its URL and flows, which are empty here.
pub record SecurityScheme : Type 0 where
  pub type : String
  pub description : String
  pub name : String
  pub place : String
  pub scheme : String
  pub bearer_format : String
