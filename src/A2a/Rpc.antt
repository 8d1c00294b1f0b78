-- ===== src/A2a/Rpc.antt =====
-- The JSON-RPC side of the protocol's data (a2a/a2a.go): the methods, their parameters, requests and
-- responses.
--
-- A raw JSON value is its text; a request id is one, or none where it is absent.
use atlasic.Prelude.{
  ℕ, String, Bool, ◌||◌, Option, none, some, List, ◌==◌, string_eq, if◌then◌else◌, ℤ,
}
use atlasic.Prelude.Exec.{Result, ok, err, invalid}
use atlasic.A2a.{JsonMap, Message, Task, StreamResponse, TaskPushNotificationConfig}

abbrev pub method_send_message : String
method_send_message = "message/send"

abbrev pub method_send_streaming_message : String
method_send_streaming_message = "message/stream"

abbrev pub method_get_task : String
method_get_task = "tasks/get"

abbrev pub method_cancel_task : String
method_cancel_task = "tasks/cancel"

abbrev pub method_task_resubscription : String
method_task_resubscription = "tasks/resubscribe"

abbrev pub method_set_push_config : String
method_set_push_config = "tasks/pushNotificationConfig/set"

abbrev pub method_get_push_config : String
method_get_push_config = "tasks/pushNotificationConfig/get"

abbrev pub method_list_push_config : String
method_list_push_config = "tasks/pushNotificationConfig/list"

abbrev pub method_delete_push_config : String
method_delete_push_config = "tasks/pushNotificationConfig/delete"

abbrev pub error_code_parse_error : ℕ
error_code_parse_error = 32700

abbrev pub error_code_invalid_request : ℕ
error_code_invalid_request = 32600

abbrev pub error_code_method_not_found : ℕ
error_code_method_not_found = 32601

abbrev pub error_code_internal_error : ℕ
error_code_internal_error = 32603

abbrev pub error_code_content_type_not_supported : ℕ
error_code_content_type_not_supported = 32005

abbrev pub error_code_unauthorized : ℕ
error_code_unauthorized = 32007

pub record MessageSendConfiguration : Type 0 where
  pub accepted_output_modes : List String
  pub blocking : Bool
  pub history_length : Option ℤ

pub record MessageSendParams : Type 0 where
  pub message : Message
  pub configuration : Option MessageSendConfiguration

pub record TaskQueryParams : Type 0 where
  pub id : String
  pub history_length : Option ℤ
  pub metadata : JsonMap

pub record TaskIdParams : Type 0 where
  pub id : String
  pub metadata : JsonMap

pub record GetTaskPushNotificationConfigParams : Type 0 where
  pub id : String
  pub push_notification_config_id : String

pub record DeleteTaskPushNotificationConfigParams : Type 0 where
  pub id : String
  pub push_notification_config_id : String

-- One of the two is set.
pub data SendMessageResult : Type 0 where
  task_result : Task → SendMessageResult
  message_result : Message → SendMessageResult

pub record JsonRpcRequest : Type 0 where
  pub jsonrpc : String
  pub id : Option String
  pub method : String
  pub params : String

-- What a response carries as its `any` result.
pub data Value : Type 0 where
  send_message_value : SendMessageResult → Value
  task_value : Task → Value
  push_config_value : TaskPushNotificationConfig → Value
  stream_value : StreamResponse → Value
  extension_value : String → Value

-- A response has a result, or an error of which the code is kept.
pub data Outcome : Type 0 where
  success : Value → Outcome
  failure : ℕ → Outcome

pub record JsonRpcResponse : Type 0 where
  pub id : Option String
  pub outcome : Outcome

abbrev pub new_response : Value → Option String → JsonRpcResponse
new_response result id = record { id = id; outcome = success result }

abbrev pub new_error_response : ℕ → Option String → JsonRpcResponse
new_error_response code id = record { id = id; outcome = failure code }

unfoldable pub is_valid_method : String → Bool
is_valid_method method =
    method == method_send_message
    || method == method_send_streaming_message
    || method == method_get_task
    || method == method_cancel_task
    || method == method_task_resubscription
    || method == method_set_push_config
    || method == method_get_push_config
    || method == method_list_push_config
    || method == method_delete_push_config

abbrev pub id_given : Option String → Result (Unit {0})
id_given none = err invalid
id_given (some id) = ok tt

-- `JSONRPCRequest.Validate`
unfoldable pub validate_request : JsonRpcRequest → Result (Unit {0})
unfolding is_valid_method
validate_request r =
    if r.jsonrpc == "2.0"
    then (if r.method == ""
        then err invalid
        else (if is_valid_method r.method then id_given r.id else err invalid))
    else err invalid
