-- ===== src/Transport/Wrapping.antt =====
-- An agent service with extensions switched on for all its methods, and the handler as a middleware
-- (transport/handler.go).
use atlasic.Prelude.{
  String, true, ◌≡◌, refl, List, [], ◌∷◌, ◌==◌, string_eq, if◌then◌else◌, Bool-cases, inl, inr,
  ◌&&◌, arith,
}
use atlasic.Prelude.Table.{Table, insert}
use atlasic.Prelude.Exec.{Result, ok, err, wrap}
use atlasic.Transport.{Context, AgentService, HttpRequest}
use atlasic.Transport.Extensions.{
  Extension, validate_required_extensions, resolve_active_extensions, uris_of,
}
use atlasic.Transport.Handler.{Served}
use atlasic.Transport.Handler.Serving.{
  Handler, serve_http, serve_authenticated, authenticated, can_handle,
}

abbrev pub apply_extension_context : {S : Type 0} → List (Extension S) → Context → Context
apply_extension_context active ctx = record ctx { active_extensions = uris_of active }

-- `extensionWrappedAgentService`
unfoldable pub wrapped_service : {S : Type 0} → AgentService S → List (Extension S) → AgentService S
wrapped_service base active = record {
  send_message = λ ctx params. base.send_message (apply_extension_context active ctx) params;
  send_streaming_message =
      λ ctx params. base.send_streaming_message (apply_extension_context active ctx) params;
  get_task = λ ctx params. base.get_task (apply_extension_context active ctx) params;
  cancel_task = λ ctx params. base.cancel_task (apply_extension_context active ctx) params;
  task_resubscription =
      λ ctx params. base.task_resubscription (apply_extension_context active ctx) params;
  set_push_config = λ ctx config. base.set_push_config (apply_extension_context active ctx) config;
  get_push_config = λ ctx params. base.get_push_config (apply_extension_context active ctx) params;
  list_push_configs =
      λ ctx params. base.list_push_configs (apply_extension_context active ctx) params;
  delete_push_config =
      λ ctx params. base.delete_push_config (apply_extension_context active ctx) params;
  supported_output_modes = λ ctx. base.supported_output_modes (apply_extension_context active ctx);
}

abbrev pub by_uri :
    {S : Type 0} → List (Extension S) → Table String (Extension S) → Table String (Extension S)
by_uri [] found = found
by_uri (e ∷ extensions) found = by_uri extensions (insert e.uri e found)

abbrev pub wrap_checked :
    {S : Type 0}
    → AgentService S
    → Table String (Extension S)
    → List String
    → Result (Unit {0})
    → Result (AgentService S)
wrap_checked base available uris (err e) = err (wrap e)
wrap_checked base available uris (ok checked) =
    ok (wrapped_service base (resolve_active_extensions available uris))

unfoldable pub wrap_agent_service_with_extensions :
    {S : Type 0} → AgentService S → List (Extension S) → List String → Result (AgentService S)
wrap_agent_service_with_extensions base given uris =
    let available = by_uri given [] in
    wrap_checked base available uris (validate_required_extensions available uris)

-- Requests that are not for the handler go to the next one.
unfoldable pub a2a_middleware :
    {S : Type 0}
    → Handler S
    → (HttpRequest → Served S → Served S)
    → HttpRequest
    → Served S
    → Served S
a2a_middleware h next r served = if can_handle h r then serve_http h r served else next r served

module _ {S : Type 0} (h : Handler S) where
  -- What the handler takes from the middleware it never answers with a status of package http: it is
  -- the agent card, or a call of a method.
  a2a_middleware-taken :
      (next : HttpRequest → Served S → Served S) (r : HttpRequest) (served : Served S)
      → can_handle h r ≡ true
      → a2a_middleware h next r served ≡ (
          if r.method == "GET" && (r.path == h.config.agent_card_path)
          then h.agent_card r served
          else serve_authenticated h (authenticated h h.config.authenticator r) served)
  unfolding a2a_middleware serve_http can_handle
  a2a_middleware-taken next r (s, w) taken =
      elim (Bool-cases (r.method == "GET" && (r.path == h.config.agent_card_path))) [
        | inl card ↦ rw card refl
        | inr other ↦
            let is_post : (r.method == "POST") ≡ true = ground (arith, taken, other) in
            let on_path : (r.path == h.config.rpc_path) ≡ true = ground (arith, taken, other) in
            rw (other, is_post, on_path) refl
      ]
