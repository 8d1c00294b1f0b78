-- ===== src/Transport/Cards.antt =====
-- The agent card's page (`handleWellKnownAgentCard` of transport/handler.go), for a service that is
-- not `ExtensionAware`.
--
-- `url.JoinPath` is a parameter, and so is what the authenticator says of its schemes.
use atlasic.Prelude.{
  ◌≡◌, refl, false, ℕ, String, Bool, Option, none, some, ◌==◌, string_eq, if◌then◌else◌, ltb,
}
use atlasic.Prelude.Texts.{concat}
use atlasic.Prelude.Exec.{Result, ok, err}
use atlasic.Service.Metadata.{AgentCard, protocol_version_supported}
use atlasic.Transport.{HttpRequest, header}

abbrev pub placeholder_url : String
placeholder_url = "http://0.0.0.0"

abbrev pub or_else : String → String → String
or_else value other = if value == "" then other else value

-- The base URL of a request: of the headers that a proxy sets, or else of the connection.
unfoldable pub extract_base_url : HttpRequest → Bool → String → String
extract_base_url r tls host =
    let scheme = or_else (header "X-Forwarded-Proto" r.headers) (if tls then "https" else "http") in
    concat scheme (concat "://" (concat (or_else (header "X-Forwarded-Host" r.headers) host) "/"))

-- Behind a proxy that sets both headers, the URL does not depend on the connection.
extract_base_url-forwarded :
    (r : HttpRequest) (tls tls' : Bool) (host host' : String)
    → (header "X-Forwarded-Proto" r.headers == "") ≡ false
    → (header "X-Forwarded-Host" r.headers == "") ≡ false
    → extract_base_url r tls host ≡ extract_base_url r tls' host'
unfolding extract_base_url
extract_base_url-forwarded r tls tls' host host' proto forwarded = rw (proto, forwarded) refl

pub record Security : Type 0 where
  pub schemes : HttpRequest → String
  pub requirements : HttpRequest → String

abbrev pub with_security : Option Security → HttpRequest → AgentCard → AgentCard
with_security none r card = card
with_security (some security) r card = record card {
  security_schemes = some (security.schemes r);
  security = some (security.requirements r);
}

abbrev pub joined_or_kept : Option String → String → String
joined_or_kept none url = url
joined_or_kept (some joined) url = joined

module _ (join_path : String → String → Option String) (rpc_path : String)
    (security : Option Security) (tls : Bool) (host : String) where
  unfoldable pub apply_agent_card_post_processing : HttpRequest → AgentCard → AgentCard
  unfolding extract_base_url
  apply_agent_card_post_processing r card =
      let url = if card.url == placeholder_url then extract_base_url r tls host else card.url in
      with_security security r (record card {
        protocol_version = protocol_version_supported;
        url = joined_or_kept (join_path url rpc_path) url;
      })

  -- The page: the card with its cache header, or the status 500.
  pub data Page : Type 0 where
    card_page : AgentCard → Option ℕ → Page
    error_page : ℕ → Page

  abbrev pub cache_control : ℕ → Option ℕ
  cache_control max_age = if ltb 0 max_age then some max_age else none

  unfoldable pub handle_well_known_agent_card : ℕ → HttpRequest → Result AgentCard → Page
  unfolding apply_agent_card_post_processing
  handle_well_known_agent_card max_age r (err e) = error_page 500
  handle_well_known_agent_card max_age r (ok card) =
      card_page (apply_agent_card_post_processing r card) (cache_control max_age)
