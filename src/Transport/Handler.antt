-- ===== src/Transport/Handler.antt =====
-- The handler's methods and their registry (transport/handler.go).
--
-- The service is taken to have no agent card of its own for extensions (`ExtensionAware`). Maps are
-- tables, and a walk over a map goes in the order of the table.
pub mod Serving
pub mod Registered
pub mod Methods
pub mod Answers
pub mod Guards
use atlasic.Prelude.{
  ℕ, String, Bool, true, false, Option, none, some, List, [], ◌∷◌, ◌++◌, ◌==◌, string_eq,
  if◌then◌else◌,
}
use atlasic.Prelude.Table.{Table, lookup, insert}
use atlasic.Prelude.Exec.{
  Exec, Result, ok, err, Error, rpc, invalid, streaming_unsupported, pure, raise, ◌>>=◌, ◌>>◌,
}
use atlasic.A2a.{Task, StreamResponse, TaskPushNotificationConfig, error_code_invalid_params}
use atlasic.A2a.Rpc.{
  MessageSendParams, MessageSendConfiguration, SendMessageResult, Value, send_message_value,
  task_value, push_config_value, stream_value, JsonRpcResponse, new_response, new_error_response,
  method_send_message, method_send_streaming_message, method_get_task, method_cancel_task,
  method_task_resubscription, method_set_push_config, method_get_push_config,
  error_code_internal_error,
}
use atlasic.Transport.{
  Context, HttpRequest, Writer, Output, json, sse, set_header, write, write_status, AgentService,
  Codec,
}
use atlasic.Transport.Negotiation.{find_compatible_output_modes}
use atlasic.Transport.Extensions.{Extension, RpcMethod, JsonRpcMethodHandler, serve_rpc}

-- The configuration; the authenticator gives the request with its context back.
pub record HandlerConfig : Type 0 where
  pub rpc_path : String
  pub agent_card_path : String
  pub authenticator : Option (HttpRequest → Result HttpRequest)
  pub internal_error_builder : Option (Context → Option String → Error → ℕ)

abbrev pub built :
    Option (Context → Option String → Error → ℕ) → Context → Option String → Error → ℕ
built none ctx id e = error_code_internal_error
built (some build) ctx id e = build ctx id e

abbrev pub build_internal_error : HandlerConfig → Context → Option String → Error → ℕ
build_internal_error config = built config.internal_error_builder

-- A `*a2a.JSONRPCError` keeps its code, any other error becomes an internal one.
abbrev pub code_of : HandlerConfig → Context → Option String → Error → ℕ
code_of config ctx id (rpc code) = code
code_of config ctx id e = build_internal_error config ctx id e

unfoldable pub write_success_response : Option String → Value → Writer → Writer
write_success_response id value w =
    write (json (new_response value id)) (set_header "Content-Type" "application/json" w)

unfoldable pub write_error_response : Option String → ℕ → Writer → Writer
write_error_response id code w =
    write (json (new_error_response code id))
      (write_status 200 (set_header "Content-Type" "application/json" w))

unfoldable pub setup_sse_headers : Writer → Writer
setup_sse_headers w = set_header "Access-Control-Allow-Origin" "*" (
    set_header "Connection" "keep-alive"
      (set_header "Cache-Control" "no-cache" (set_header "Content-Type" "text/event-stream" w)))

unfoldable pub write_sse_error : Option String → ℕ → Writer → Writer
write_sse_error id code w =
    write (sse (new_error_response code id)) (set_header "Content-Type" "text/event-stream" w)

-- The loop over the channel, up to its end.
abbrev pub write_events : Option String → List StreamResponse → Writer → Writer
write_events id [] w = w
write_events id (event ∷ events) w =
    write_events id events (write (sse (new_response (stream_value event) id)) w)

abbrev pub write_if :
    {S : Type 0} → Bool → Option String → List StreamResponse → Exec (S × Writer) (Unit {0})
write_if true id events (s, w) = (ok tt, (s, write_events id events w))
write_if false id events (s, w) = (err streaming_unsupported, (s, w))

unfoldable pub write_sse_stream :
    {S : Type 0} → Option String → List StreamResponse → Exec (S × Writer) (Unit {0})
write_sse_stream id events (s, w) = write_if w.can_flush id events (s, w)

-- `json.Unmarshal(params, &req)`
abbrev pub parsed : {S Params : Type 0} → Option Params → Exec S Params
parsed none = raise (rpc error_code_invalid_params)
parsed (some params) = pure params

abbrev pub of_result : {S A : Type 0} → Result A → Exec S A
of_result r s = (r, s)

-- A service's call beside the writer.
abbrev pub beside : {S A : Type 0} → Exec S A → Exec (S × Writer) A
beside m (s, w) = let (r, s') = m s in (r, (s', w))

module _ (S : Type 0) where
  abbrev pub Served : Type 0
  Served = S × Writer

  -- `methodDescriptor`, with whether the media type is that of a stream.
  pub record MethodDescriptor : Type 0 where
    pub is_stream : Bool
    pub handler : Context → String → Option String → Exec Served (Unit {0})

module _ {S : Type 0} (service : AgentService S) (codec : Codec) where
  abbrev pub negotiated : Context → List String → Exec S (Unit {0})
  negotiated ctx [] = pure tt
  negotiated ctx (mode ∷ modes) = do
    supported ← service.supported_output_modes ctx
    of_result (find_compatible_output_modes (mode ∷ modes) supported)
    pure tt

  abbrev pub negotiate : Context → Option MessageSendConfiguration → Exec S (Unit {0})
  negotiate ctx none = pure tt
  negotiate ctx (some config) = negotiated ctx config.accepted_output_modes

  unfoldable pub handle_send_message : JsonRpcMethodHandler S
  handle_send_message ctx params = do
    req ← parsed (codec.decode_send params)
    negotiate ctx req.configuration
    result ← service.send_message ctx req
    pure (send_message_value result)

  unfoldable pub handle_get_task : JsonRpcMethodHandler S
  handle_get_task ctx params = do
    req ← parsed (codec.decode_query params)
    task ← service.get_task ctx req
    pure (task_value task)

  unfoldable pub handle_cancel_task : JsonRpcMethodHandler S
  handle_cancel_task ctx params = do
    req ← parsed (codec.decode_id params)
    task ← service.cancel_task ctx req
    pure (task_value task)

  unfoldable pub handle_set_push_config : JsonRpcMethodHandler S
  handle_set_push_config ctx params = do
    req ← parsed (codec.decode_config params)
    config ← service.set_push_config ctx req
    pure (push_config_value config)

  unfoldable pub handle_get_push_config : JsonRpcMethodHandler S
  handle_get_push_config ctx params = do
    req ← parsed (codec.decode_get_config params)
    config ← service.get_push_config ctx req
    pure (push_config_value config)

  unfoldable pub handle_send_streaming_message :
      Context → String → Option String → Exec (Served S) (Unit {0})
  handle_send_streaming_message ctx params id = do
    req ← parsed (codec.decode_send params)
    beside (negotiate ctx req.configuration)
    events ← beside (service.send_streaming_message ctx req)
    write_sse_stream id events

  unfoldable pub handle_task_resubscribe :
      Context → String → Option String → Exec (Served S) (Unit {0})
  handle_task_resubscribe ctx params id = do
    req ← parsed (codec.decode_id params)
    events ← beside (service.task_resubscription ctx req)
    write_sse_stream id events

abbrev pub write_result : HandlerConfig → Context → Option String → Result Value → Writer → Writer
write_result config ctx id (ok value) = write_success_response id value
write_result config ctx id (err e) = write_error_response id (code_of config ctx id e)

abbrev pub Registry : Type 0 → Type 0
Registry S = Table String (MethodDescriptor S)

module _ {S : Type 0} (config : HandlerConfig) where
  -- The wrapped handler writes what comes out, and never returns an error.
  abbrev pub json_method : JsonRpcMethodHandler S → MethodDescriptor S
  json_method handler = record {
    is_stream = false;
    handler = λ ctx params id. answered ctx params id;
  }
    where
      answered : Context → String → Option String → Exec (Served S) (Unit {0})
      answered ctx params id (s, w) =
          let (r, s') = handler ctx params s in (ok tt, (s', write_result config ctx id r w))

  unfoldable pub register_json_method : String → JsonRpcMethodHandler S → Registry S → Registry S
  register_json_method method handler = insert method (json_method handler)

  unfoldable pub register_stream_method :
      String
      → (Context → String → Option String → Exec (Served S) (Unit {0}))
      → Registry S
      → Registry S
  register_stream_method method handler =
      insert method (record { is_stream = true; handler = handler })

  abbrev pub register_rpc_method : String → Option (RpcMethod S) → Registry S → Registry S
  register_rpc_method uri none registry = registry
  register_rpc_method uri (some m) registry =
      register_json_method m.method_name (serve_rpc uri m.method_handler) registry

  unfoldable pub register_extensions : List (String × Extension S) → Registry S → Registry S
  register_extensions [] registry = registry
  register_extensions ((uri, e) ∷ extensions) registry =
      register_extensions extensions (register_rpc_method e.uri e.rpc_method registry)

  module _ (service : AgentService S) (codec : Codec) where
    unfoldable pub core_methods : Registry S
    core_methods =
        register_stream_method method_task_resubscription (handle_task_resubscribe service codec) (
          register_stream_method method_send_streaming_message
            (handle_send_streaming_message service codec)
            (register_json_method method_get_push_config (handle_get_push_config service codec) (
              register_json_method method_set_push_config (handle_set_push_config service codec) (
                register_json_method method_cancel_task (handle_cancel_task service codec) (
                  register_json_method method_get_task (handle_get_task service codec) (
                    register_json_method method_send_message (handle_send_message service codec)
                      []))))))

    unfoldable pub init_method_registry : Table String (Extension S) → Registry S
    init_method_registry extensions = register_extensions extensions core_methods

-- The map that `NewHandler` makes of the extensions that it is given; of two with one URI the later
-- one stays.
unfoldable pub extension_map :
    {S : Type 0}
    → List (Option (Extension S))
    → Table String (Extension S)
    → Table String (Extension S)
extension_map [] found = found
extension_map (none ∷ extensions) found = extension_map extensions found
extension_map (some e ∷ extensions) found = extension_map extensions (insert e.uri e found)
