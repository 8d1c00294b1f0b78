-- ===== src/Transport/Handler/Guards.antt =====
-- What a request passes before the service is called (`ServeHTTP` of transport/handler.go).
use atlasic.Prelude.{
  ℕ, String, true, false, not, ◌&&◌, ◌≡◌, refl, ◌⊎◌, inl, inr, Option, none, some, List, [], ◌∷◌,
  ◌++◌, ◌==◌, string_eq, Bool-cases, beq_self, eq_iff, arith,
}
use atlasic.Prelude.Table.{Table, lookup}
use atlasic.Prelude.Exec.{Result, ok, err, Error, extension_missing}
use atlasic.A2a.Rpc.{JsonRpcRequest, new_error_response}
use atlasic.Transport.{HttpRequest, Writer, json, header, write, set_header}
use atlasic.Transport.Negotiation.{is_in}
use atlasic.Transport.Extensions.{Extension, parse_extension_header, validate_required_extensions}
use atlasic.Transport.Handler.{Served, write_error_response}
use atlasic.Transport.Handler.Serving.{
  Handler, write_auth_error, activate, serve_request, serve_decoded, serve_body,
  serve_authenticated, authenticated, serve_http,
}

module _ {S : Type 0} where
  -- Each extension that requires it is among those requested.
  abbrev pub AllRequested : Table String (Extension S) → List String → Type 0
  AllRequested available requested =
      (uri : String) (e : Extension S)
      → lookup uri available ≡ some e
      → e.required ≡ true
      → is_in uri requested ≡ true

  pub validate_required_extensions-AllRequested :
      (available : Table String (Extension S)) (requested : List String)
      → validate_required_extensions available requested ≡ ok tt
      → AllRequested available requested
  unfolding validate_required_extensions lookup
  validate_required_extensions-AllRequested [] requested passed uri e found required = cc
  validate_required_extensions-AllRequested ((name, first) ∷ available) requested passed uri e found
        required =
      elim (Bool-cases (first.required && not (is_in name requested))) [
        | inl missing ↦ let refused : err extension_missing ≡ ok tt = rw missing at passed in cc
        | inr met ↦
            let passed' : validate_required_extensions available requested ≡ ok tt =
              rw met at passed in
            elim (Bool-cases (name == uri)) [
              | inl same ↦
                  let e' : some first ≡ some e = rw same at found in
                  let e'' : first ≡ e = cc in
                  let name' : name ≡ uri = (eq_iff name uri).0 same in
                  let met' : (true && not (is_in uri requested)) ≡ false =
                    rw (name', e'', required) at met in
                  ground (arith, met')
              | inr other ↦
                  validate_required_extensions-AllRequested available requested passed' uri e
                    (rw other at found) required
            ]
      ]

module _ {S : Type 0} (h : Handler S) where
  -- The request that is served is authenticated, of version 2.0, and asks for all extensions that
  -- are required.
  pub record Admitted (r : HttpRequest) : Type 0 where
    pub request : HttpRequest
    pub body : String
    pub call : JsonRpcRequest
    pub is_authenticated : authenticated h h.config.authenticator r ≡ ok request
    pub is_read : request.body ≡ ok body
    pub is_decoded : h.codec.decode_request body ≡ some call
    pub version : call.jsonrpc ≡ "2.0"
    pub activates :
        AllRequested h.extensions
          (parse_extension_header (header "X-A2A-Extensions" request.headers))

  -- The service is as before, and one error response is written.
  abbrev pub IsRefused : S → Writer → Served S → Type 0
  IsRefused s w (s', w') =
      (s' ≡ s)
      × (id : Option String) × (code : ℕ) × (w'.written
          ≡ w.written ++ (json (new_error_response code id) ∷ []))

  error_response-IsRefused :
      (id : Option String) (code : ℕ) (s : S) (w : Writer)
      → IsRefused s w (s, write_error_response id code w)
  unfolding write_error_response write set_header
  error_response-IsRefused id code s w = (refl, id, code, refl)

  auth_error-IsRefused : (e : Error) (s : S) (w : Writer) → IsRefused s w (s, write_auth_error e w)
  unfolding write_auth_error write set_header
  auth_error-IsRefused e s w = (refl, none, _, refl)

  guarded_extensions :
      (r : HttpRequest) (req : JsonRpcRequest) (requested : List String)
      (checked : Result (Unit {0})) (s : S) (w : Writer)
      → validate_required_extensions h.extensions requested ≡ checked
      → AllRequested h.extensions requested
        ⊎ IsRefused s w (activate h r req requested checked (s, w))
  guarded_extensions r req requested (err e) s w same = inr (error_response-IsRefused req.id _ s w)
  guarded_extensions r req requested (ok passed) s w same =
      inl (validate_required_extensions-AllRequested h.extensions requested same)

  guarded_request :
      (r : HttpRequest) (req : JsonRpcRequest) (s : S) (w : Writer)
      → ((req.jsonrpc ≡ "2.0")
          × AllRequested h.extensions
              (parse_extension_header (header "X-A2A-Extensions" r.headers)))
        ⊎ IsRefused s w (serve_request h r req (s, w))
  guarded_request r req s w = elim (Bool-cases (req.jsonrpc == "2.0")) [
    | inl current ↦
        let requested = parse_extension_header (header "X-A2A-Extensions" r.headers) in
        elim (guarded_extensions r req requested
          (validate_required_extensions h.extensions requested) s w refl) [
            | inl all ↦ inl ((eq_iff req.jsonrpc "2.0").0 current, all)
            | inr refused ↦ inr (rw current refused)
          ]
    | inr other ↦ inr (rw other (error_response-IsRefused req.id _ s w))
  ]

  guarded_decoded :
      (r r' : HttpRequest) (body : String) (decoded : Option JsonRpcRequest) (s : S) (w : Writer)
      → authenticated h h.config.authenticator r ≡ ok r'
      → r'.body ≡ ok body
      → h.codec.decode_request body ≡ decoded
      → Admitted r ⊎ IsRefused s w (serve_decoded h r' decoded (s, w))
  guarded_decoded r r' body none s w auth read e = inr (error_response-IsRefused none _ s w)
  guarded_decoded r r' body (some req) s w auth read e = elim (guarded_request r' req s w) [
    | inl (current, all) ↦ inl (record {
      request = r';
      body = body;
      call = req;
      is_authenticated = auth;
      is_read = read;
      is_decoded = e;
      version = current;
      activates = all;
    })
    | inr refused ↦ inr refused
  ]

  guarded_body :
      (r r' : HttpRequest) (body : Result String) (s : S) (w : Writer)
      → authenticated h h.config.authenticator r ≡ ok r'
      → r'.body ≡ body
      → Admitted r ⊎ IsRefused s w (serve_body h r' body (s, w))
  guarded_body r r' (err e) s w auth read = inr (error_response-IsRefused none _ s w)
  guarded_body r r' (ok body) s w auth read =
      guarded_decoded r r' body (h.codec.decode_request body) s w auth read refl

  guarded_auth :
      (r : HttpRequest) (a : Result HttpRequest) (s : S) (w : Writer)
      → authenticated h h.config.authenticator r ≡ a
      → Admitted r ⊎ IsRefused s w (serve_authenticated h a (s, w))
  guarded_auth r (err e) s w auth = inr (auth_error-IsRefused e s w)
  guarded_auth r (ok r') s w auth = guarded_body r r' r'.body s w auth refl

  -- A POST on the path of the methods that is not authenticated, or of which the body cannot be read
  -- or decoded, or which is not of version 2.0, or does not request an extension that is required,
  -- never reaches the service: the service is as before, and one error response is written.
  pub serve_http-guarded :
      (r : HttpRequest) (s : S) (w : Writer)
      → r.method ≡ "POST"
      → r.path ≡ h.config.rpc_path
      → Admitted r ⊎ IsRefused s w (serve_http h r (s, w))
  unfolding serve_http
  serve_http-guarded r s w post on_path =
      let no_card : (r.method == "GET" && (r.path == h.config.agent_card_path)) ≡ false =
        rw post refl in
      let is_post : (r.method == "POST") ≡ true = rw post refl in
      let is_rpc : (r.path == h.config.rpc_path) ≡ true = rw on_path (beq_self h.config.rpc_path) in
      rw (no_card, is_rpc, is_post)
        (guarded_auth r (authenticated h h.config.authenticator r) s w refl)
