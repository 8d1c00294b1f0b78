-- ===== src/Transport.antt =====
-- The HTTP side (package transport): content negotiation, extensions, and the handler that turns
-- requests into calls of an agent service.
--
-- A context is what the package puts into it: the headers, the URIs of the active extensions, and
-- the values of others as texts.
pub mod Negotiation
pub mod Extensions
pub mod Handler
pub mod Service
pub mod Wrapping
pub mod Cards
use atlasic.Prelude.{
  ℕ, String, Bool, true, false, Option, none, some, List, [], ◌∷◌, ◌++◌, ◌==◌, string_eq,
}
use atlasic.Prelude.Table.{Table, lookup, insert}
use atlasic.Prelude.Exec.{Exec, Result, Error}
use atlasic.A2a.{Task, StreamResponse, TaskPushNotificationConfig}
use atlasic.A2a.Rpc.{
  MessageSendParams, TaskQueryParams, TaskIdParams, GetTaskPushNotificationConfigParams,
  DeleteTaskPushNotificationConfigParams, SendMessageResult, JsonRpcRequest, JsonRpcResponse, Value,
}

pub record Context : Type 0 where
  pub headers : Table String String
  pub active_extensions : List String
  pub values : Table String String

-- `http.Request`, with its body or the error that reading it gives.
pub record HttpRequest : Type 0 where
  pub method : String
  pub path : String
  pub headers : Table String String
  pub body : Result String
  pub context : Context

-- What is written to an `http.ResponseWriter`. The other bodies are those of package http.
pub data Output : Type 0 where
  json : JsonRpcResponse → Output
  sse : JsonRpcResponse → Output
  plain : Output

pub record Writer : Type 0 where
  pub status : ℕ
  pub headers : Table String String
  pub can_flush : Bool
  pub written : List Output

abbrev pub header : String → Table String String → String
header name headers = value_or_empty (lookup name headers)
  where
    value_or_empty : Option String → String
    value_or_empty none = ""
    value_or_empty (some value) = value

unfoldable pub set_header : String → String → Writer → Writer
set_header name value w = record w { headers = insert name value w.headers }

unfoldable pub write : Output → Writer → Writer
write out w = record w { written = w.written ++ (out ∷ []) }

abbrev pub write_status : ℕ → Writer → Writer
write_status code w = record w { status = code }

-- The `AgentService` interface of transport/agent_service.go, less the agent card; `S` is what its
-- methods read and write.
pub record AgentService (S : Type 0) : Type 0 where
  pub send_message : Context → MessageSendParams → Exec S SendMessageResult
  pub send_streaming_message : Context → MessageSendParams → Exec S (List StreamResponse)
  pub get_task : Context → TaskQueryParams → Exec S Task
  pub cancel_task : Context → TaskIdParams → Exec S Task
  pub task_resubscription : Context → TaskIdParams → Exec S (List StreamResponse)
  pub set_push_config : Context → TaskPushNotificationConfig → Exec S TaskPushNotificationConfig
  pub get_push_config :
      Context → GetTaskPushNotificationConfigParams → Exec S TaskPushNotificationConfig
  pub list_push_configs : Context → TaskIdParams → Exec S (List TaskPushNotificationConfig)
  pub delete_push_config : Context → DeleteTaskPushNotificationConfigParams → Exec S (Unit {0})
  pub supported_output_modes : Context → Exec S (List String)

-- What encoding/json makes of a text, none where it does not decode.
pub record Codec : Type 0 where
  pub decode_request : String → Option JsonRpcRequest
  pub encode_params : String → Option String
  pub decode_send : String → Option MessageSendParams
  pub decode_query : String → Option TaskQueryParams
  pub decode_id : String → Option TaskIdParams
  pub decode_config : String → Option TaskPushNotificationConfig
  pub decode_get_config : String → Option GetTaskPushNotificationConfigParams
  pub decode_delete_config : String → Option DeleteTaskPushNotificationConfigParams
