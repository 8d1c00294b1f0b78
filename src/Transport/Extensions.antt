-- ===== src/Transport/Extensions.antt =====
-- Extensions, their activation by a request, and their preprocessing of parameters
-- (transport/extension.go, and the part of transport/handler.go that calls them).
--
-- `S` is what the methods of the extensions read and write.
pub mod Activation
pub mod Header
use atlasic.Prelude.{
  String, Bool, true, false, not, ◌&&◌, ◌||◌, Option, none, some, List, [], ◌∷◌, ◌==◌, string_eq,
  map, if◌then◌else◌,
}
use atlasic.Prelude.Table.{Table, lookup, insert}
use atlasic.Prelude.Texts.{concat, split, trim_unicode_space}
use atlasic.Prelude.Exec.{Exec, Result, ok, err, Error, rpc, wrap, invalid, extension_missing}
use atlasic.A2a.{TaskPushNotificationConfig}
use atlasic.A2a.Rpc.{
  Value, MessageSendParams, TaskQueryParams, TaskIdParams, GetTaskPushNotificationConfigParams,
  DeleteTaskPushNotificationConfigParams, method_send_message, method_send_streaming_message,
  method_get_task, method_cancel_task, method_task_resubscription, method_set_push_config,
  method_get_push_config, method_list_push_config, method_delete_push_config,
  error_code_method_not_found,
}
use atlasic.Transport.{Context, Codec}
use atlasic.Transport.Negotiation.{is_in}

abbrev pub Prepare : Type 0 → Type 0
Prepare Params = Option (Context → Params → Result Context)

-- A `ProfileExtension`, with those of the interfaces for one method each that it has.
pub record Profile : Type 0 where
  pub prepare_context : Context → String → String → Result Context
  pub prepare_send_message : Prepare MessageSendParams
  pub prepare_send_streaming_message : Prepare MessageSendParams
  pub prepare_get_task : Prepare TaskQueryParams
  pub prepare_cancel_task : Prepare TaskIdParams
  pub prepare_task_resubscription : Prepare TaskIdParams
  pub prepare_set_push_config : Prepare TaskPushNotificationConfig
  pub prepare_get_push_config : Prepare GetTaskPushNotificationConfigParams
  pub prepare_list_push_config : Prepare TaskIdParams
  pub prepare_delete_push_config : Prepare DeleteTaskPushNotificationConfigParams

abbrev pub JsonRpcMethodHandler : Type 0 → Type 0
JsonRpcMethodHandler S = Context → String → Exec S Value

pub record RpcMethod (S : Type 0) : Type 0 where
  pub method_name : String
  pub method_handler : JsonRpcMethodHandler S

pub record Extension (S : Type 0) : Type 0 where
  pub uri : String
  pub required : Bool
  pub rpc_method : Option (RpcMethod S)
  pub profile : Option Profile

abbrev pub trimmed_parts : List String → List String
trimmed_parts [] = []
trimmed_parts (part ∷ parts) =
    let uri = trim_unicode_space part in
    let rest = trimmed_parts parts in if uri == "" then rest else uri ∷ rest

-- 44 is the comma.
unfoldable pub parse_extension_header : String → List String
parse_extension_header value = if value == "" then [] else trimmed_parts (split 44 value)

abbrev pub format_extension_header : List String → String
format_extension_header [] = ""
format_extension_header (uri ∷ []) = uri
format_extension_header (uri ∷ uris) = concat uri (concat ", " (format_extension_header uris))

unfoldable pub is_reserved_field : String → Bool
is_reserved_field key = is_in key (
    "name" ∷ "description" ∷ "version" ∷ "url" ∷ "capabilities" ∷ "defaultInputModes"
    ∷ "defaultOutputModes" ∷ "skills" ∷ "metadata" ∷ [])

module _ {S : Type 0} where
  abbrev pub add_some : Option (Extension S) → List (Extension S) → List (Extension S)
  add_some none active = active
  add_some (some e) active = e ∷ active

  unfoldable pub resolve_active_extensions :
      Table String (Extension S) → List String → List (Extension S)
  resolve_active_extensions available [] = []
  resolve_active_extensions available (uri ∷ uris) =
      add_some (lookup uri available) (resolve_active_extensions available uris)

  unfoldable pub validate_required_extensions :
      Table String (Extension S) → List String → Result (Unit {0})
  validate_required_extensions [] requested = ok tt
  validate_required_extensions ((uri, e) ∷ available) requested =
      let rest = validate_required_extensions available requested in
      if e.required && not (is_in uri requested) then err extension_missing else rest

  abbrev pub uris_of : List (Extension S) → List String
  uris_of active = map (λ e. e.uri) active

  -- The handler of an extension's method: it runs where the request has activated the extension.
  unfoldable pub serve_rpc : String → JsonRpcMethodHandler S → JsonRpcMethodHandler S
  serve_rpc uri handler ctx params s =
      let served = handler ctx params s in
      if is_in uri ctx.active_extensions then served else (err (rpc error_code_method_not_found), s)

abbrev pub done : Result Context → Result Bool
done (ok ctx) = ok true
done (err e) = err e

abbrev pub prepared :
    {Params : Type 0} → (Context → Params → Result Context) → Context → Option Params → Result Bool
prepared prepare ctx none = err invalid
prepared prepare ctx (some params) = done (prepare ctx params)

-- Where the extension prepares the method it does so, and the context that it returns is dropped.
abbrev pub try_one : {Params : Type 0} → Prepare Params → Context → Option Params → Result Bool
try_one none ctx params = ok false
try_one (some prepare) ctx params = prepared prepare ctx params

module _ (codec : Codec) where
  unfoldable pub try_method_specific_preprocessing :
      Context → String → String → Profile → Result Bool
  try_method_specific_preprocessing ctx method params p =
      if method == method_send_message
      then try_one p.prepare_send_message ctx (codec.decode_send params)
      else (if method == method_send_streaming_message
          then try_one p.prepare_send_streaming_message ctx (codec.decode_send params)
          else (if method == method_get_task
              then try_one p.prepare_get_task ctx (codec.decode_query params)
              else (if method == method_cancel_task
                  then try_one p.prepare_cancel_task ctx (codec.decode_id params)
                  else (if method == method_task_resubscription
                      then try_one p.prepare_task_resubscription ctx (codec.decode_id params)
                      else (if method == method_set_push_config
                          then try_one p.prepare_set_push_config ctx (codec.decode_config params)
                          else (if method == method_get_push_config
                              then try_one p.prepare_get_push_config ctx
                                  (codec.decode_get_config params)
                              else (if method == method_list_push_config
                                  then try_one p.prepare_list_push_config ctx
                                      (codec.decode_id params)
                                  else (if method == method_delete_push_config
                                      then try_one p.prepare_delete_push_config ctx
                                          (codec.decode_delete_config params)
                                      else ok false))))))))

  -- An error of either kind is wrapped, and a method that was prepared keeps the context.
  abbrev pub prepare_with : Context → String → String → Profile → Result Bool → Result Context
  prepare_with ctx method params p (err e) = err (wrap e)
  prepare_with ctx method params p (ok true) = ok ctx
  prepare_with ctx method params p (ok false) = wrapped (p.prepare_context ctx method params)
    where
      wrapped : Result Context → Result Context
      wrapped (ok ctx') = ok ctx'
      wrapped (err e) = err (wrap e)

  abbrev pub apply_profile : Context → String → String → Option Profile → Result Context
  apply_profile ctx method params none = ok ctx
  apply_profile ctx method params (some p) =
      prepare_with ctx method params p (try_method_specific_preprocessing ctx method params p)

  abbrev pub then_with : Result Context → (Context → Result Context) → Result Context
  then_with (ok ctx) next = next ctx
  then_with (err e) next = err e

  unfoldable pub apply_profile_extension_preprocessing :
      {S : Type 0} → Context → String → String → List (Extension S) → Result Context
  apply_profile_extension_preprocessing ctx method params [] = ok ctx
  apply_profile_extension_preprocessing ctx method params (e ∷ active) =
      then_with (apply_profile ctx method params e.profile)
        (λ ctx'. apply_profile_extension_preprocessing ctx' method params active)
