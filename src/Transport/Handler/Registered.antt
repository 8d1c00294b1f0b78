-- ===== src/Transport/Handler/Registered.antt =====
-- What the registry of the handler holds (transport/handler.go), and that each of its methods
-- answers in the form that it is registered with.
use atlasic.Prelude.{
  String, Bool, true, false, ◌≡◌, refl, sym, ◌∙◌, ◌⊎◌, inl, inr, Option, none, some, List, [], ◌∷◌,
  ◌++◌, ◌==◌, string_eq, append_assoc, append-nil, Bool-cases, subst, eq_iff,
}
use atlasic.Prelude.Table.{Table, lookup, insert, lookup-insert}
use atlasic.Prelude.Exec.{Exec, Result, ok, err, continue, ◌>>=◌}
use atlasic.A2a.{StreamResponse}
use atlasic.A2a.Rpc.{JsonRpcResponse, Value, stream_value, new_response}
use atlasic.Transport.{
  Context, Writer, Output, json, sse, plain, AgentService, Codec, write, set_header,
}
use atlasic.Transport.Extensions.{Extension, RpcMethod, JsonRpcMethodHandler, serve_rpc}
use atlasic.Transport.Handler.{
  HandlerConfig, Served, MethodDescriptor, Registry, json_method, write_result,
  write_success_response, write_error_response, write_events, write_if, write_sse_stream, parsed,
  negotiate, handle_send_streaming_message, handle_task_resubscribe, register_json_method,
  register_stream_method, register_rpc_method, register_extensions, core_methods,
  init_method_registry,
}

-- Events of a stream, each with the id of the request.
abbrev pub AllSse : Option String → List Output → Type 0
AllSse id [] = Unit
AllSse id (sse r ∷ outs) = (r.id ≡ id) × AllSse id outs
AllSse id (_ ∷ outs) = ⊥

pub AllSse-append :
    (id : Option String) (outs more : List Output)
    → AllSse id outs
    → AllSse id more
    → AllSse id (outs ++ more)
AllSse-append id [] more all others = others
AllSse-append id (json _ ∷ outs) more all others = elim all [ ]
AllSse-append id (plain ∷ outs) more all others = elim all [ ]
AllSse-append id (sse r ∷ outs) more (same, all) others =
    (same, AllSse-append id outs more all others)

-- The methods that answer with a stream.
abbrev pub IsStreamMethod : String → Type 0
IsStreamMethod method = (method ≡ "message/stream") ⊎ (method ≡ "tasks/resubscribe")

-- One JSON response is added, or some events of a stream.
abbrev pub AddsJson : Option String → Writer → Writer → Type 0
AddsJson id w w' = (o : JsonRpcResponse) × (w'.written ≡ w.written ++ (json o ∷ [])) × (o.id ≡ id)

abbrev pub AddsEvents : Option String → Writer → Writer → Type 0
AddsEvents id w w' = (outs : List Output) × (w'.written ≡ w.written ++ outs) × AllSse id outs

write_events-AddsEvents :
    (id : Option String) (es : List StreamResponse) (w : Writer)
    → AddsEvents id w (write_events id es w)
unfolding write
write_events-AddsEvents id [] w = ([], sym (append-nil w.written), tt)
write_events-AddsEvents id (e ∷ es) w =
    let one = sse (new_response (stream_value e) id) in
    let (outs, added, all) = write_events-AddsEvents id es (write one w) in
    (one ∷ outs, added ∙ append_assoc w.written (one ∷ []) outs, (refl, all))

write_result-AddsJson :
    (config : HandlerConfig) (ctx : Context) (id : Option String) (r : Result Value) (w : Writer)
    → AddsJson id w (write_result config ctx id r w)
unfolding write_success_response write_error_response write set_header
write_result-AddsJson config ctx id (ok value) w = (_, refl, refl)
write_result-AddsJson config ctx id (err e) w = (_, refl, refl)

module _ {S : Type 0} where
  abbrev Streams : Option String → Exec (Served S) (Unit {0}) → Served S → Type 0
  Streams id m (s, w) = AddsEvents id w (m (s, w)).1.1

  Streams-beside :
      {A : Type 0} (id : Option String) (next : A → Exec (Served S) (Unit {0})) (w : Writer)
      (end : Result A × S)
      → ((a : A) (s : S) → Streams id (next a) (s, w))
      → AddsEvents id w (continue end.0 next (end.1, w)).1.1
  Streams-beside id next w (err e, s) streams = ([], sym (append-nil w.written), tt)
  Streams-beside id next w (ok a, s) streams = streams a s

  Streams-parsed :
      {A : Type 0} (id : Option String) (next : A → Exec (Served S) (Unit {0})) (s : S) (w : Writer)
      (params : Option A)
      → ((a : A) → Streams id (next a) (s, w))
      → Streams id (parsed params >>= next) (s, w)
  Streams-parsed id next s w none streams = ([], sym (append-nil w.written), tt)
  Streams-parsed id next s w (some a) streams = streams a

  write_sse_stream-Streams :
      (id : Option String) (es : List StreamResponse) (s : S) (w : Writer)
      → Streams id (write_sse_stream id es) (s, w)
  unfolding write_sse_stream
  write_sse_stream-Streams id es s w = flushed w.can_flush
    where
      flushed : (can : Bool) → Streams id (write_if can id es) (s, w)
      flushed true = write_events-AddsEvents id es w
      flushed false = ([], sym (append-nil w.written), tt)

  -- A JSON method writes one response and returns no error; a streaming method writes events.
  abbrev pub Answers : MethodDescriptor S → Type 0
  Answers d =
      ((d.is_stream ≡ false)
        × ((ctx : Context) (params : String) (id : Option String) (s : S) (w : Writer)
            → ((d.handler ctx params id (s, w)).0 ≡ ok tt)
              × AddsJson id w (d.handler ctx params id (s, w)).1.1))
      ⊎ ((d.is_stream ≡ true)
          × ((ctx : Context) (params : String) (id : Option String) (s : S) (w : Writer)
              → AddsEvents id w (d.handler ctx params id (s, w)).1.1))

  -- A method in the form that its name has.
  abbrev pub AnswersAs : String → MethodDescriptor S → Type 0
  AnswersAs method d = Answers d × (d.is_stream ≡ true → IsStreamMethod method)

  abbrev pub AllAnswer : Registry S → Type 0
  AllAnswer registry =
      (method : String) (d : MethodDescriptor S)
      → lookup method registry ≡ some d
      → AnswersAs method d

  AllAnswer-insert :
      (name : String) (d : MethodDescriptor S) (registry : Registry S)
      → AnswersAs name d
      → AllAnswer registry
      → AllAnswer (insert name d registry)
  AllAnswer-insert name d registry answers all method d' e = elim (Bool-cases (name == method)) [
    | inl same ↦
        let found : some d ≡ some d' = rw (lookup-insert name method d registry, same) at e in
        let e' : d ≡ d' = cc in
        subst (λ m. AnswersAs m d') ((eq_iff name method).0 same) (rw (← e') answers)
    | inr other ↦ all method d' (rw (lookup-insert name method d registry, other) at e)
  ]

  module _ (config : HandlerConfig) where
    json_method-Answers : (handler : JsonRpcMethodHandler S) → Answers (json_method config handler)
    json_method-Answers handler = inl (
      refl,
      (λ ctx params id s w. (refl, write_result-AddsJson config ctx id (handler ctx params s).0 w)),
    )

    register_extensions-AllAnswer :
        (extensions : List (String × Extension S)) (registry : Registry S)
        → AllAnswer registry
        → AllAnswer (register_extensions config extensions registry)
    unfolding register_extensions register_json_method
    register_extensions-AllAnswer [] registry all = all
    register_extensions-AllAnswer ((uri, e) ∷ extensions) registry all =
        register_extensions-AllAnswer extensions
          (register_rpc_method config e.uri e.rpc_method registry) (one e.rpc_method)
      where
        one : (m : Option (RpcMethod S)) → AllAnswer (register_rpc_method config e.uri m registry)
        one none = all
        one (some m) =
            AllAnswer-insert m.method_name (json_method config (serve_rpc e.uri m.method_handler))
              registry (json_method-Answers (serve_rpc e.uri m.method_handler), λ e. cc) all

    module _ (service : AgentService S) (codec : Codec) where
      send_streaming-AddsEvents :
          (ctx : Context) (params : String) (id : Option String) (s : S) (w : Writer)
          → Streams id (handle_send_streaming_message service codec ctx params id) (s, w)
      unfolding handle_send_streaming_message
      send_streaming-AddsEvents ctx params id s w =
          Streams-parsed id _ s w (codec.decode_send params) (λ req.
            Streams-beside id _ w (negotiate service codec ctx req.configuration s) (λ done s.
              Streams-beside id _ w (service.send_streaming_message ctx req s)
                (λ events s. write_sse_stream-Streams id events s w)))

      resubscribe-AddsEvents :
          (ctx : Context) (params : String) (id : Option String) (s : S) (w : Writer)
          → Streams id (handle_task_resubscribe service codec ctx params id) (s, w)
      unfolding handle_task_resubscribe
      resubscribe-AddsEvents ctx params id s w =
          Streams-parsed id _ s w (codec.decode_id params) (λ req.
            Streams-beside id _ w (service.task_resubscription ctx req s)
              (λ events s. write_sse_stream-Streams id events s w))

      none-AllAnswer : AllAnswer []
      unfolding lookup
      none-AllAnswer method d e = cc

      with_json :
          (method : String) (handler : JsonRpcMethodHandler S) (registry : Registry S)
          → AllAnswer registry
          → AllAnswer (register_json_method config method handler registry)
      unfolding register_json_method
      with_json method handler registry =
          AllAnswer-insert method (json_method config handler) registry
            (json_method-Answers handler, λ e. cc)

      core_methods-AllAnswer : AllAnswer (core_methods config service codec)
      unfolding core_methods register_stream_method
      core_methods-AllAnswer =
          AllAnswer-insert _ _ _ (inr (refl, resubscribe-AddsEvents), λ e. inr refl)
            (AllAnswer-insert _ _ _ (inr (refl, send_streaming-AddsEvents), λ e. inl refl)
              (with_json _ _ _ (
                with_json _ _ _
                  (with_json _ _ _ (with_json _ _ _ (with_json _ _ _ none-AllAnswer))))))

      pub init_method_registry-AllAnswer :
          (extensions : Table String (Extension S))
          → AllAnswer (init_method_registry config service codec extensions)
      unfolding init_method_registry
      init_method_registry-AllAnswer extensions =
          register_extensions-AllAnswer extensions (core_methods config service codec)
            core_methods-AllAnswer
