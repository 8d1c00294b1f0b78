-- ===== src/Transport/Handler/Serving.antt =====
-- `ServeHTTP` and `routeMethodByRegistry` (transport/handler.go).
--
-- The agent card's page is a parameter, what `handleWellKnownAgentCard` does to the service and the
-- writer.
use atlasic.Prelude.{
  ℕ, String, Bool, true, false, not, ◌&&◌, ◌||◌, Option, none, some, List, [], ◌∷◌, ◌==◌, string_eq,
  if◌then◌else◌,
}
use atlasic.Prelude.Table.{Table, lookup}
use atlasic.Prelude.Texts.{contains}
use atlasic.Prelude.Exec.{Result, ok, err, Error}
use atlasic.A2a.{error_code_invalid_params}
use atlasic.A2a.Rpc.{
  JsonRpcRequest, error_code_parse_error, error_code_invalid_request, error_code_method_not_found,
  error_code_internal_error, error_code_unauthorized, new_error_response,
}
use atlasic.Transport.{
  Context, HttpRequest, Writer, json, plain, header, set_header, write, write_status, AgentService,
  Codec,
}
use atlasic.Transport.Extensions.{
  Extension, parse_extension_header, validate_required_extensions, resolve_active_extensions,
  uris_of, format_extension_header, apply_profile_extension_preprocessing,
}
use atlasic.Transport.Handler.{
  HandlerConfig, extension_map, init_method_registry, Served, MethodDescriptor, Registry, code_of,
  write_error_response, write_sse_error, setup_sse_headers,
}

unfoldable pub client_accepts_sse : String → Bool → Bool
client_accepts_sse accept for_valid_sse_method =
    contains accept "text/event-stream"
    || (for_valid_sse_method && (contains accept "text/*" || contains accept "*/*"))

-- An error in the form of the method.
abbrev pub write_error : Bool → Option String → ℕ → Writer → Writer
write_error is_sse id code w =
    if is_sse then write_sse_error id code w else write_error_response id code w

unfoldable pub write_auth_error : Error → Writer → Writer
write_auth_error e w =
    write (json (new_error_response error_code_unauthorized none))
      (write_status 401 (set_header "Content-Type" "application/json" w))

-- The record of what a `Handler` holds beside its service.
pub record Handler (S : Type 0) : Type 0 where
  pub config : HandlerConfig
  pub codec : Codec
  pub extensions : Table String (Extension S)
  pub registry : Registry S
  pub agent_card : HttpRequest → Served S → Served S

abbrev pub with_active_header : List String → Writer → Writer
with_active_header [] w = w
with_active_header (uri ∷ uris) w =
    set_header "X-A2A-Extensions" (format_extension_header (uri ∷ uris)) w

module _ {S : Type 0} (h : Handler S) where
  -- The handler has answered, or what it returned is written as an error.
  abbrev pub finished : Context → Bool → Option String → Result (Unit {0}) → Writer → Writer
  finished ctx is_sse id (ok done) w = w
  finished ctx is_sse id (err e) w = write_error is_sse id (code_of h.config ctx id e) w

  abbrev pub run_handler :
      MethodDescriptor S → Option String → String → Result Context → Served S → Served S
  run_handler d id params (err e) (s, w) =
      (s, write_error d.is_stream id error_code_internal_error w)
  run_handler d id params (ok ctx) (s, w) =
      let (r, (s', w')) = d.handler ctx params id (s, w) in (s', finished ctx d.is_stream id r w')

  abbrev pub run_method :
      Context → JsonRpcRequest → MethodDescriptor S → Option String → Served S → Served S
  run_method ctx req d none (s, w) = (s, write_error d.is_stream req.id error_code_invalid_params w)
  run_method ctx req d (some params) (s, w) =
      run_handler d req.id params
        (apply_profile_extension_preprocessing h.codec ctx req.method params
          (resolve_active_extensions h.extensions ctx.active_extensions))
        (s, w)

  abbrev pub route_found :
      Context → JsonRpcRequest → String → Option (MethodDescriptor S) → Served S → Served S
  route_found ctx req accept none (s, w) =
      if client_accepts_sse accept false
      then (s, write_sse_error req.id error_code_method_not_found (setup_sse_headers w))
      else (s, write_error_response req.id error_code_method_not_found w)
  route_found ctx req accept (some d) (s, w) =
      let served =
        run_method ctx req d (h.codec.encode_params req.params)
          (s, if d.is_stream then setup_sse_headers w else w) in
      if d.is_stream && not (client_accepts_sse accept d.is_stream)
      then (s, write_error_response req.id error_code_method_not_found w)
      else served

  unfoldable pub route_method_by_registry : Context → JsonRpcRequest → String → Served S → Served S
  route_method_by_registry ctx req accept =
      route_found ctx req accept (lookup req.method h.registry)

  abbrev pub activate :
      HttpRequest → JsonRpcRequest → List String → Result (Unit {0}) → Served S → Served S
  activate r req requested (err e) (s, w) =
      (s, write_error_response req.id error_code_invalid_request w)
  activate r req requested (ok checked) (s, w) =
      let active = uris_of (resolve_active_extensions h.extensions requested) in
      let ctx = record (r.context) { headers = r.headers; active_extensions = active } in
      route_method_by_registry ctx req (header "Accept" r.headers) (s, with_active_header active w)

  abbrev pub serve_request : HttpRequest → JsonRpcRequest → Served S → Served S
  serve_request r req (s, w) =
      let requested = parse_extension_header (header "X-A2A-Extensions" r.headers) in
      let activated =
        activate r req requested (validate_required_extensions h.extensions requested) (s, w) in
      if req.jsonrpc == "2.0"
      then activated
      else (s, write_error_response req.id error_code_invalid_request w)

  abbrev pub serve_decoded : HttpRequest → Option JsonRpcRequest → Served S → Served S
  serve_decoded r none (s, w) = (s, write_error_response none error_code_parse_error w)
  serve_decoded r (some req) (s, w) = serve_request r req (s, w)

  abbrev pub serve_body : HttpRequest → Result String → Served S → Served S
  serve_body r (err e) (s, w) = (s, write_error_response none error_code_parse_error w)
  serve_body r (ok body) (s, w) = serve_decoded r (h.codec.decode_request body) (s, w)

  abbrev pub serve_authenticated : Result HttpRequest → Served S → Served S
  serve_authenticated (err e) (s, w) = (s, write_auth_error e w)
  serve_authenticated (ok r) (s, w) = serve_body r r.body (s, w)

  abbrev pub authenticated :
      Option (HttpRequest → Result HttpRequest) → HttpRequest → Result HttpRequest
  authenticated none r = ok r
  authenticated (some authenticate) r = authenticate r

  -- By whether the request is for the agent card, on the path of the methods, and a POST.
  abbrev pub dispatch : Bool → Bool → Bool → HttpRequest → Served S → Served S
  dispatch true on_rpc_path is_post r (s, w) = h.agent_card r (s, w)
  dispatch false false is_post r (s, w) = (s, write plain (write_status 404 w))
  dispatch false true false r (s, w) = (s, write plain (write_status 405 w))
  dispatch false true true r (s, w) =
      serve_authenticated (authenticated h.config.authenticator r) (s, w)

  unfoldable pub serve_http : HttpRequest → Served S → Served S
  serve_http r =
      dispatch (r.method == "GET" && (r.path == h.config.agent_card_path))
        (r.path == h.config.rpc_path) (r.method == "POST") r

  unfoldable pub can_handle : HttpRequest → Bool
  can_handle r =
      r.method == "GET" && (r.path == h.config.agent_card_path)
      || (r.method == "POST" && (r.path == h.config.rpc_path))

-- `NewHandler`
unfoldable pub new_handler :
    {S : Type 0}
    → AgentService S
    → Codec
    → HandlerConfig
    → List (Option (Extension S))
    → (HttpRequest → Served S → Served S)
    → Handler S
new_handler service codec config given agent_card =
    let extensions = extension_map given [] in
    record {
      config = config;
      codec = codec;
      extensions = extensions;
      registry = init_method_registry config service codec extensions;
      agent_card = agent_card;
    }
