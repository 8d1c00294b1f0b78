-- ===== src/Tests/Http.antt =====
-- The theorems on the HTTP handler at concrete inputs: the library's own service on the file system
-- backend, behind a handler with one required extension.
use atlasic.Prelude.{
  ◌↔◌, ◌≡◌, ◌≢◌, ◌⊎◌, refl, true, String, none, some, List, [], ◌∷◌, ◌==◌, string_eq, if◌then◌else◌,
  pos,
}
use atlasic.Prelude.Table.{lookup, insert}
use atlasic.Prelude.Exec.{ok, err, rpc, pure}
use atlasic.A2a.Rpc.{
  JsonRpcRequest, TaskQueryParams, extension_value, method_get_task,
  error_code_content_type_not_supported, error_code_method_not_found,
}
use atlasic.Storage.FileSystem.{file_system}
use atlasic.Transport.{Context, HttpRequest, Writer, AgentService, Codec, header}
use atlasic.Transport.Negotiation.{
  find_compatible_output_modes, find_compatible_output_modes_lem, is_in, IsShared,
}
use atlasic.Transport.Extensions.{
  Extension, JsonRpcMethodHandler, serve_rpc, uris_of, resolve_active_extensions,
}
use atlasic.Transport.Extensions.{parse_extension_header, format_extension_header}
use atlasic.Transport.Extensions.Header.{parse_extension_header-format_extension_header}
use atlasic.Transport.Extensions.Activation.{serve_rpc-requested}
use atlasic.Transport.Handler.{HandlerConfig, Served, extension_map, init_method_registry}
use atlasic.Transport.Handler.Serving.{Handler, new_handler, serve_http}
use atlasic.Transport.Handler.Answers.{Answered, serve_http-Answered}
use atlasic.Transport.Handler.Guards.{Admitted, IsRefused, serve_http-guarded}
use atlasic.Transport.Handler.Methods.{init_method_registry_lem, is_registered}
use atlasic.Transport.Service.{agent_service}
use atlasic.Tests.Fixtures.{settings, queue, Server, started}

abbrev service : AgentService Server
service = agent_service settings file_system queue [] (λ s. s) none (ok ("text/plain" ∷ []))

abbrev get_request : JsonRpcRequest
get_request = record { jsonrpc = "2.0"; id = some "7"; method = method_get_task; params = "params" }

abbrev query : TaskQueryParams
query = record { id = "task"; history_length = some (pos 1); metadata = [] }

-- A codec for one request and its parameters.
abbrev codec : Codec
codec = record {
  decode_request = λ text. if text == "request" then some get_request else none;
  encode_params = λ text. some text;
  decode_send = λ text. none;
  decode_query = λ text. if text == "params" then some query else none;
  decode_id = λ text. none;
  decode_config = λ text. none;
  decode_get_config = λ text. none;
  decode_delete_config = λ text. none;
}

abbrev config : HandlerConfig
config = record {
  rpc_path = "/";
  agent_card_path = "/.well-known/agent.json";
  authenticator = none;
  internal_error_builder = none;
}

abbrev echo : JsonRpcMethodHandler Server
echo ctx params = pure (extension_value params)

abbrev echo_extension : Extension Server
echo_extension = record {
  uri = "urn:echo";
  required = true;
  rpc_method = some (record { method_name = "echo"; method_handler = echo });
  profile = none;
}

abbrev no_context : Context
no_context = record { headers = []; active_extensions = []; values = [] }

abbrev post : HttpRequest
post = record {
  method = "POST";
  path = "/";
  headers = ("Accept", "application/json") ∷ [];
  body = ok "request";
  context = no_context;
}

abbrev writer : Writer
writer = record { status = 200; headers = []; can_flush = true; written = [] }

abbrev no_card : HttpRequest → Served Server → Served Server
no_card r served = served

abbrev with_echo : Handler Server
with_echo = new_handler service codec config (some echo_extension ∷ []) no_card

serve_http-Answered_example :
    Answered
      (some "7")
      method_get_task
      (header "Accept" post.headers)
      writer
      (serve_http with_echo post (started, writer)).1
unfolding new_handler
serve_http-Answered_example =
    serve_http-Answered service codec config (some echo_extension ∷ []) no_card post post "request"
      get_request started writer refl refl refl refl refl

serve_http-guarded_example :
    Admitted with_echo post
    ⊎ IsRefused with_echo started writer (serve_http with_echo post (started, writer))
unfolding new_handler
serve_http-guarded_example = serve_http-guarded with_echo post started writer refl refl

init_method_registry_lem_example :
    is_registered (
      lookup "echo" (init_method_registry config service codec (("urn:echo", echo_extension) ∷ [])))
    ≡ true
init_method_registry_lem_example =
    init_method_registry_lem config service codec (("urn:echo", echo_extension) ∷ []) "echo"

abbrev accepted : List String
accepted = "text/*" ∷ []

abbrev supported : List String
supported = "image/png" ∷ "text/plain" ∷ []

find_compatible_output_modes_lem_example :
    ((modes : List String) × (find_compatible_output_modes accepted supported ≡ ok modes)
      × (modes ≢ [])
      × ((mode : String) → (is_in mode modes ≡ true) ↔ IsShared accepted supported mode))
    ⊎ ((find_compatible_output_modes accepted supported
          ≡ err (rpc error_code_content_type_not_supported))
        × ((mode : String) → ¬ IsShared accepted supported mode))
find_compatible_output_modes_lem_example = find_compatible_output_modes_lem accepted supported

serve_rpc-requested_example :
    serve_rpc "urn:echo" echo
      (record no_context {
        active_extensions =
            uris_of (resolve_active_extensions (extension_map (some echo_extension ∷ []) []) []);
      })
      "hello"
      started
    ≡ (err (rpc error_code_method_not_found), started)
unfolding extension_map insert lookup
serve_rpc-requested_example =
    serve_rpc-requested (some echo_extension ∷ []) [] "urn:echo" echo_extension echo no_context
      "hello" started refl

parse_extension_header-format_extension_header_example :
    parse_extension_header (format_extension_header ("a" ∷ "b" ∷ [])) ≡ "a" ∷ "b" ∷ []
parse_extension_header-format_extension_header_example =
    parse_extension_header-format_extension_header ("a" ∷ "b" ∷ [])
      (refl, (refl, refl, tt), (refl, (refl, refl, tt), tt))
