-- ===== src/Tests/Access.antt =====
-- The theorems on authenticators at concrete inputs.
use atlasic.Prelude.{
  ℕ, refl, ◌≡◌, ◌≢◌, ◌↔◌, ◌⊎◌, true, none, some, [], ◌∷◌, Bool, Option, String, string_eq, ◌==◌,
  subst, if◌then◌else◌, Bool-cases, inl, inr,
}
use atlasic.Prelude.Exec.{ok}
use atlasic.Transport.{HttpRequest, Writer, Codec, header}
use atlasic.Transport.Handler.{HandlerConfig}
use atlasic.Transport.Handler.Serving.{Handler, serve_http}
use atlasic.Transport.Handler.Guards.{IsRefused}
use atlasic.Auth.ApiKey
use atlasic.Auth.ApiKey.{checked_header}
use atlasic.Auth.Jwt
use atlasic.Auth.Jwt.{JwtLibrary, JwtAuthenticator, Token, new_jwt_authenticator, key_for}
use atlasic.Auth.Guarded.{api_key_iff, serve_http-jwt, IsDocumented}
use atlasic.Auth.Bearer.{Bears}

abbrev post : HttpRequest
post = record {
  method = "POST";
  path = "/";
  headers = ("Authorization", "Bearer token") ∷ ("X-API-Key", "key") ∷ [];
  body = ok "request";
  context = record { headers = []; active_extensions = []; values = [] };
}

abbrev api_key : ApiKey.Authenticator
api_key = record { api_key = "key"; header_name = "" }

api_key_iff_example : (ApiKey.authenticate api_key post ≡ ok post) ↔ (
    (post ≡ post) × (header (checked_header api_key) post.headers ≡ "key") × (api_key.api_key ≢ ""))
api_key_iff_example = api_key_iff api_key post post

abbrev parsed : Token
parsed = record { method = "HS256"; claims = some []; valid = true }

abbrev given_key : Option String → Option Token
given_key none = none
given_key (some k) = if k == "secret" then some parsed else none

-- A package that knows one token, signed with one key.
abbrev library : JwtLibrary
library = record {
  parse_with_claims = λ key s. given_key (key parsed);
  get_expiration_time = λ claims. some 100;
  claims_value = λ claims. "{}";
}

abbrev verifies : String → String → String → Bool
verifies s k method = k == "secret"

given_key-verified :
    (token : Token) (key : Option String)
    → given_key key ≡ some token
    → (k : String) × (key ≡ some k) × ((k == "secret") ≡ true) × (parsed ≡ token)
given_key-verified token none h = cc
given_key-verified token (some k) h = elim (Bool-cases (k == "secret")) [
  | inl same ↦ let found : some parsed ≡ some token = rw same at h in (k, refl, same, cc)
  | inr differ ↦
      absurd (let nothing : ◌≡◌ {A = Option Token} none (some token) = rw differ at h in cc)
]

documented : IsDocumented library verifies
documented key s token h =
    let (k, found, verified, same) = given_key-verified token (key parsed) h in
    (k, subst (λ t. key t ≡ some k) same found, verified)

abbrev j : JwtAuthenticator
j = new_jwt_authenticator "secret"

abbrev codec : Codec
codec = record {
  decode_request = λ text. none;
  encode_params = λ text. some text;
  decode_send = λ text. none;
  decode_query = λ text. none;
  decode_id = λ text. none;
  decode_config = λ text. none;
  decode_get_config = λ text. none;
  decode_delete_config = λ text. none;
}

abbrev config : HandlerConfig
config = record {
  rpc_path = "/";
  agent_card_path = "/.well-known/agent.json";
  authenticator = some (Jwt.authenticate library j 50);
  internal_error_builder = none;
}

abbrev handler : Handler ℕ
handler = record {
  config = config;
  codec = codec;
  extensions = [];
  registry = [];
  agent_card = λ r served. served;
}

abbrev writer : Writer
writer = record { status = 200; headers = []; can_flush = true; written = [] }

serve_http-jwt_example :
    ((r' : HttpRequest) × (b : Bears library j 50 post r') × (verifies b.token "secret" "HS256"
        ≡ true))
    ⊎ IsRefused handler 0 writer (serve_http handler post (0, writer))
unfolding new_jwt_authenticator
serve_http-jwt_example =
    serve_http-jwt handler library verifies documented j 50 post 0 writer refl refl refl
