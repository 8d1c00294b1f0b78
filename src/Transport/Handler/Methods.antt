-- ===== src/Transport/Handler/Methods.antt =====
-- Which methods the handler has (`initMethodRegistry` of transport/handler.go).
use atlasic.Prelude.{
  String, Bool, true, false, ◌||◌, ◌≡◌, refl, ◌∙◌, Option, none, some, List, [], ◌∷◌, ◌==◌,
  string_eq, Bool-cases, inl, inr, arith,
}
use atlasic.Prelude.Table.{Table, lookup, insert, lookup-insert}
use atlasic.A2a.Rpc.{
  method_send_message, method_send_streaming_message, method_get_task, method_cancel_task,
  method_task_resubscription, method_set_push_config, method_get_push_config,
}
use atlasic.Transport.{AgentService, Codec}
use atlasic.Transport.Negotiation.{is_in}
use atlasic.Transport.Extensions.{Extension, RpcMethod}
use atlasic.Transport.Handler.{
  HandlerConfig, MethodDescriptor, Registry, register_json_method, register_stream_method,
  register_rpc_method, register_extensions, core_methods, init_method_registry,
}

abbrev pub served_methods : List String
served_methods =
    method_task_resubscription ∷ method_send_streaming_message ∷ method_get_push_config
    ∷ method_set_push_config ∷ method_cancel_task ∷ method_get_task ∷ method_send_message ∷ []

module _ {S : Type 0} where
  abbrev pub is_registered : Option (MethodDescriptor S) → Bool
  is_registered none = false
  is_registered (some d) = true

  abbrev pub names_method : String → Option (RpcMethod S) → Bool
  names_method method none = false
  names_method method (some m) = m.method_name == method

  abbrev pub has_method : String → List (String × Extension S) → Bool
  has_method method [] = false
  has_method method ((uri, e) ∷ extensions) =
      names_method method e.rpc_method || has_method method extensions

  insert-registered :
      (name method : String) (d : MethodDescriptor S) (registry : Registry S)
      → is_registered (lookup method (insert name d registry))
        ≡ ((name == method) || is_registered (lookup method registry))
  insert-registered name method d registry = elim (Bool-cases (name == method)) [
    | inl same ↦ rw (lookup-insert name method d registry, same) refl
    | inr other ↦ rw (lookup-insert name method d registry, other) refl
  ]

  module _ (config : HandlerConfig) where
    register_rpc_method-registered :
        (uri method : String) (m : Option (RpcMethod S)) (registry : Registry S)
        → is_registered (lookup method (register_rpc_method config uri m registry))
          ≡ (names_method method m || is_registered (lookup method registry))
    unfolding register_json_method
    register_rpc_method-registered uri method none registry = refl
    register_rpc_method-registered uri method (some m) registry =
        insert-registered m.method_name method _ registry

    register_extensions-registered :
        (method : String) (extensions : List (String × Extension S)) (registry : Registry S)
        → is_registered (lookup method (register_extensions config extensions registry))
          ≡ (has_method method extensions || is_registered (lookup method registry))
    unfolding register_extensions
    register_extensions-registered method [] registry = refl
    register_extensions-registered method ((uri, e) ∷ extensions) registry =
        let registry' = register_rpc_method config e.uri e.rpc_method registry in
        ground (
          arith,
          register_extensions-registered method extensions registry',
          register_rpc_method-registered e.uri method e.rpc_method registry,
        )

    module _ (service : AgentService S) (codec : Codec) where
      core_methods-registered :
          (method : String)
          → is_registered (lookup method (core_methods config service codec))
            ≡ is_in method served_methods
      unfolding core_methods register_stream_method register_json_method lookup
      core_methods-registered method =
          rw
            (
              insert-registered method_task_resubscription method _ _,
              insert-registered method_send_streaming_message method _ _,
              insert-registered method_get_push_config method _ _,
              insert-registered method_set_push_config method _ _,
              insert-registered method_cancel_task method _ _,
              insert-registered method_get_task method _ _,
              insert-registered method_send_message method _ _,
            )
            refl

      -- The handler has exactly seven methods of the protocol and the methods of its extensions; those
      -- that list and delete push notification configs are not among the seven.
      pub init_method_registry_lem :
          (extensions : Table String (Extension S)) (method : String)
          → is_registered (lookup method (init_method_registry config service codec extensions))
            ≡ (has_method method extensions || is_in method served_methods)
      unfolding init_method_registry
      init_method_registry_lem extensions method =
          register_extensions-registered method extensions (core_methods config service codec)
          ∙ rw (core_methods-registered method) refl
