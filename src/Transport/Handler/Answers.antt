-- ===== src/Transport/Handler/Answers.antt =====
-- What the handler writes for a request (`ServeHTTP` of transport/handler.go): one JSON response, or
-- events of a stream.
use atlasic.Prelude.{
  ℕ, String, Bool, true, false, not, ◌&&◌, ◌≡◌, refl, ◌∙◌, ◌⊎◌, inl, inr, Option, none, some, List,
  [], ◌∷◌, ◌++◌, ◌==◌, string_eq, append_assoc, if◌then◌else◌, Bool-cases, beq_self, arith,
}
use atlasic.Prelude.Table.{lookup}
use atlasic.Prelude.Exec.{Result, ok, err}
use atlasic.A2a.Rpc.{
  JsonRpcRequest, JsonRpcResponse, new_error_response, error_code_method_not_found,
}
use atlasic.Transport.{
  Context, HttpRequest, Writer, Output, sse, write, set_header, header, AgentService, Codec,
}
use atlasic.Transport.Extensions.{Extension, uris_of, resolve_active_extensions}
use atlasic.Transport.Handler.{
  HandlerConfig, extension_map, Served, MethodDescriptor, write_error_response, write_sse_error,
  setup_sse_headers, code_of,
}
use atlasic.Transport.Handler.Serving.{
  Handler, client_accepts_sse, write_error, finished, run_handler, run_method, route_found,
  route_method_by_registry, with_active_header, activate, serve_request, authenticated, serve_http,
  new_handler,
}
use atlasic.Transport.Handler.Registered.{
  AddsJson, AddsEvents, AllSse, AllSse-append, AnswersAs, IsStreamMethod, AllAnswer,
  init_method_registry-AllAnswer,
}

-- The events of a stream, all with this id, where the method streams, and else exactly one.
abbrev pub AddsStream : Option String → String → Writer → Writer → Type 0
AddsStream id method w w' =
    (outs : List Output) × (w'.written ≡ w.written ++ outs)
    × AllSse id outs
    × (IsStreamMethod method ⊎ ((r : JsonRpcResponse) × (outs ≡ sse r ∷ [])))

-- One JSON response, or events of a stream that the client accepts, all with this id.
abbrev pub Answered : Option String → String → String → Writer → Writer → Type 0
Answered id method accept w w' =
    AddsJson id w w' ⊎ (AddsStream id method w w' × (client_accepts_sse accept true ≡ true))

Answered-written :
    (id : Option String) (method accept : String) (w w1 w' : Writer)
    → w1.written ≡ w.written
    → Answered id method accept w1 w'
    → Answered id method accept w w'
Answered-written id method accept w w1 w' same (inl (o, added, e)) =
    inl (o, added ∙ rw same refl, e)
Answered-written id method accept w w1 w' same (inr ((outs, added, all, few), accepts)) =
    inr ((outs, added ∙ rw same refl, all, few), accepts)

error_response-AddsJson :
    (id : Option String) (code : ℕ) (w : Writer) → AddsJson id w (write_error_response id code w)
unfolding write_error_response write set_header
error_response-AddsJson id code w = (_, refl, refl)

sse_error-AddsEvents :
    (id : Option String) (code : ℕ) (w : Writer) → AddsEvents id w (write_sse_error id code w)
unfolding write_sse_error write set_header
sse_error-AddsEvents id code w = (sse (new_error_response code id) ∷ [], refl, (refl, tt))

sse_error-AddsStream :
    (id : Option String) (method : String) (code : ℕ) (w : Writer)
    → AddsStream id method w (write_sse_error id code w)
unfolding write_sse_error write set_header
sse_error-AddsStream id method code w =
    (sse (new_error_response code id) ∷ [], refl, (refl, tt), inr (_, refl))

AddsEvents-AddsStream :
    (id : Option String) (method : String) (w w' : Writer)
    → IsStreamMethod method
    → AddsEvents id w w'
    → AddsStream id method w w'
AddsEvents-AddsStream id method w w' streams (outs, added, all) = (outs, added, all, inl streams)

AddsEvents-trans :
    (id : Option String) (w w1 w' : Writer)
    → AddsEvents id w w1
    → AddsEvents id w1 w'
    → AddsEvents id w w'
AddsEvents-trans id w w1 w' (outs, added, all) (more, added', all') = (
  outs ++ more,
  added' ∙ rw added refl ∙ append_assoc w.written outs more,
  AllSse-append id outs more all all',
)

write_error-Answered :
    (is_sse : Bool) (id : Option String) (method : String) (code : ℕ) (w : Writer) (accept : String)
    → (is_sse ≡ true → client_accepts_sse accept true ≡ true)
    → Answered id method accept w (write_error is_sse id code w)
write_error-Answered true id method code w accept can =
    inr (sse_error-AddsStream id method code w, can refl)
write_error-Answered false id method code w accept can = inl (error_response-AddsJson id code w)

setup-written :
    (is_sse : Bool) (w : Writer) → (if is_sse then setup_sse_headers w else w).written ≡ w.written
unfolding setup_sse_headers set_header
setup-written true w = refl
setup-written false w = refl

active-written : (uris : List String) (w : Writer) → (with_active_header uris w).written ≡ w.written
unfolding set_header
active-written [] w = refl
active-written (uri ∷ uris) w = refl

module _ {S : Type 0} (h : Handler S) where
  finished-AddsEvents :
      (ctx : Context) (is_sse : Bool) (id : Option String) (r : Result (Unit {0})) (w w1 : Writer)
      → is_sse ≡ true
      → AddsEvents id w w1
      → AddsEvents id w (finished h ctx is_sse id r w1)
  finished-AddsEvents ctx is_sse id (ok done) w w1 stream adds = adds
  finished-AddsEvents ctx true id (err e) w w1 stream adds =
      AddsEvents-trans id w w1 (write_sse_error id (code_of h.config ctx id e) w1) adds
        (sse_error-AddsEvents id (code_of h.config ctx id e) w1)
  finished-AddsEvents ctx false id (err e) w w1 stream adds = absurd (ground arith)

  module _ (d : MethodDescriptor S) (method : String) (answers : AnswersAs method d)
      (accept : String) (can : d.is_stream ≡ true → client_accepts_sse accept true ≡ true) where
    run_handler-Answered :
        (id : Option String) (params : String) (r : Result Context) (s : S) (w : Writer)
        → Answered id method accept w (run_handler h d id params r (s, w)).1
    run_handler-Answered id params (err e) s w =
        write_error-Answered d.is_stream id method _ w accept can
    run_handler-Answered id params (ok ctx) s w = elim answers.0 [
      | inl (plain, f) ↦ let (returned, adds) = f ctx params id s w in rw returned (inl adds)
      | inr (stream, f) ↦ inr (
        AddsEvents-AddsStream id method w
            (finished h ctx d.is_stream id (d.handler ctx params id (s, w)).0
              (d.handler ctx params id (s, w)).1.1)
            (answers.1 stream)
            (finished-AddsEvents ctx d.is_stream id (d.handler ctx params id (s, w)).0 w
              (d.handler ctx params id (s, w)).1.1 stream (f ctx params id s w)),
        can stream,
      )
    ]

    run_method-Answered :
        (ctx : Context) (req : JsonRpcRequest) (params : Option String) (s : S) (w : Writer)
        → Answered req.id method accept w (run_method h ctx req d params (s, w)).1
    run_method-Answered ctx req none s w =
        write_error-Answered d.is_stream req.id method _ w accept can
    run_method-Answered ctx req (some params) s w = run_handler-Answered req.id params _ s w

  accepts-any :
      (accept : String)
      → client_accepts_sse accept false ≡ true
      → client_accepts_sse accept true ≡ true
  unfolding client_accepts_sse
  accepts-any accept explicit = ground arith

  route_found-Answered :
      (ctx : Context) (req : JsonRpcRequest) (accept : String) (found : Option (MethodDescriptor S))
      (s : S) (w : Writer)
      → ((d : MethodDescriptor S) → found ≡ some d → AnswersAs req.method d)
      → Answered req.id req.method accept w (route_found h ctx req accept found (s, w)).1
  route_found-Answered ctx req accept none s w all =
      elim (Bool-cases (client_accepts_sse accept false)) [
        | inl explicit ↦ rw explicit (
            Answered-written req.id req.method accept w (setup_sse_headers w)
              (write_sse_error req.id error_code_method_not_found (setup_sse_headers w))
              (setup-written true w)
              (inr (
                sse_error-AddsStream req.id req.method _ (setup_sse_headers w),
                accepts-any accept explicit,
              )))
        | inr plain ↦ rw plain (inl (error_response-AddsJson req.id _ w))
      ]
  route_found-Answered ctx req accept (some d) s w all =
      let w1 = if d.is_stream then setup_sse_headers w else w in
      elim (Bool-cases (d.is_stream && not (client_accepts_sse accept d.is_stream))) [
        | inl refused ↦ rw refused (inl (error_response-AddsJson req.id _ w))
        | inr taken ↦ rw taken (
            Answered-written req.id req.method accept w w1
              (run_method h ctx req d (h.codec.encode_params req.params) (s, w1)).1
              (setup-written d.is_stream w)
              (run_method-Answered d req.method (all d refl) accept (can taken) ctx req
                (h.codec.encode_params req.params) s w1))
      ]
    where
      can :
          (d.is_stream && not (client_accepts_sse accept d.is_stream)) ≡ false
          → d.is_stream ≡ true
          → client_accepts_sse accept true ≡ true
      can taken stream = ground (arith, taken, stream)

  pub serve_http-received :
      (r r' : HttpRequest) (body : String) (req : JsonRpcRequest) (s : S) (w : Writer)
      → r.method ≡ "POST"
      → r.path ≡ h.config.rpc_path
      → authenticated h h.config.authenticator r ≡ ok r'
      → r'.body ≡ ok body
      → h.codec.decode_request body ≡ some req
      → serve_http h r (s, w) ≡ serve_request h r' req (s, w)
  unfolding serve_http
  serve_http-received r r' body req s w post on_path auth read decoded =
      let no_card : (r.method == "GET" && (r.path == h.config.agent_card_path)) ≡ false =
        rw post refl in
      let is_post : (r.method == "POST") ≡ true = rw post refl in
      let is_rpc : (r.path == h.config.rpc_path) ≡ true = rw on_path (beq_self h.config.rpc_path) in
      rw (no_card, is_rpc, is_post, auth, read, decoded) refl

  module _ (all : AllAnswer h.registry) where
    activate-Answered :
        (r : HttpRequest) (req : JsonRpcRequest) (requested : List String)
        (checked : Result (Unit {0})) (s : S) (w : Writer)
        → Answered req.id req.method
            (header "Accept" r.headers)
            w
            (activate h r req requested checked (s, w)).1
    unfolding route_method_by_registry
    activate-Answered r req requested (err e) s w = inl (error_response-AddsJson req.id _ w)
    activate-Answered r req requested (ok checked) s w =
        let active = uris_of (resolve_active_extensions h.extensions requested) in
        let ctx = record (r.context) { headers = r.headers; active_extensions = active } in
        let w1 = with_active_header active w in
        let accept = header "Accept" r.headers in
        let found = lookup req.method h.registry in
        Answered-written req.id req.method accept w w1
          (route_found h ctx req accept found (s, w1)).1 (active-written active w)
          (route_found-Answered ctx req accept found s w1 (all req.method))

    serve_request-Answered :
        (r : HttpRequest) (req : JsonRpcRequest) (s : S) (w : Writer)
        → Answered req.id req.method (header "Accept" r.headers) w (serve_request h r req (s, w)).1
    serve_request-Answered r req s w = elim (Bool-cases (req.jsonrpc == "2.0")) [
      | inl version ↦ rw version (activate-Answered r req _ _ s w)
      | inr other ↦ rw other (inl (error_response-AddsJson req.id _ w))
    ]

-- For a handler as `NewHandler` makes it: a POST on the path of the methods that is authenticated,
-- and of which the body is a JSON-RPC request, is answered with exactly one JSON response or, if the
-- client accepts streams, with events of one; all that is written has the id of the request, and
-- unless the method is "message/stream" or "tasks/resubscribe", it is exactly one.
pub serve_http-Answered :
    {S : Type 0} (service : AgentService S) (codec : Codec) (config : HandlerConfig)
    (given : List (Option (Extension S))) (card : HttpRequest → Served S → Served S)
    (r r' : HttpRequest) (body : String) (req : JsonRpcRequest) (s : S) (w : Writer)
    → r.method ≡ "POST"
    → r.path ≡ config.rpc_path
    → authenticated (new_handler service codec config given card) config.authenticator r ≡ ok r'
    → r'.body ≡ ok body
    → codec.decode_request body ≡ some req
    → Answered req.id req.method
        (header "Accept" r'.headers)
        w
        (serve_http (new_handler service codec config given card) r (s, w)).1
unfolding new_handler
serve_http-Answered service codec config given card r r' body req s w post on_path auth read
      decoded =
    let h = new_handler service codec config given card in
    rw (serve_http-received h r r' body req s w post on_path auth read decoded) (
      serve_request-Answered h
        (init_method_registry-AllAnswer config service codec (extension_map given [])) r' req s w)
