-- ===== src/Transport/Extensions/Activation.antt =====
-- Which extensions a request activates (transport/extension.go).
use atlasic.Prelude.{
  String, Bool, true, false, ◌≡◌, refl, sym, ◌∙◌, Option, none, some, List, [], ◌∷◌, ◌==◌,
  string_eq, if◌then◌else◌, Bool-cases, inl, inr, eq_iff, Option-cases,
}
use atlasic.Prelude.Table.{Table, lookup, insert, lookup-insert}
use atlasic.Prelude.Exec.{err, rpc}
use atlasic.A2a.Rpc.{error_code_method_not_found}
use atlasic.Transport.{Context}
use atlasic.Transport.Negotiation.{is_in}
use atlasic.Transport.Extensions.{
  Extension, JsonRpcMethodHandler, resolve_active_extensions, uris_of, serve_rpc,
}
use atlasic.Transport.Handler.{extension_map}

module _ {S : Type 0} where
  -- Every extension is under its own URI.
  abbrev pub KeyedByUri : Table String (Extension S) → Type 0
  KeyedByUri available =
      (uri : String) (e : Extension S) → lookup uri available ≡ some e → e.uri ≡ uri

  abbrev pub is_available : Option (Extension S) → Bool
  is_available none = false
  is_available (some e) = true

  insert-KeyedByUri :
      (e : Extension S) (found : Table String (Extension S))
      → KeyedByUri found
      → KeyedByUri (insert e.uri e found)
  insert-KeyedByUri e found keyed uri e' at_uri = elim (Bool-cases (e.uri == uri)) [
    | inl same ↦
        let it : some e ≡ some e' = rw (lookup-insert e.uri uri e found, same) at at_uri in
        let one : e ≡ e' = cc in
        let name : e.uri ≡ uri = (eq_iff e.uri uri).0 same in rw (← one) name
    | inr other ↦ keyed uri e' (rw (lookup-insert e.uri uri e found, other) at at_uri)
  ]

  pub extension_map-KeyedByUri :
      (given : List (Option (Extension S))) (found : Table String (Extension S))
      → KeyedByUri found
      → KeyedByUri (extension_map given found)
  unfolding extension_map
  extension_map-KeyedByUri [] found keyed = keyed
  extension_map-KeyedByUri (none ∷ given) found keyed = extension_map-KeyedByUri given found keyed
  extension_map-KeyedByUri (some e ∷ given) found keyed =
      extension_map-KeyedByUri given (insert e.uri e found) (insert-KeyedByUri e found keyed)

  none-KeyedByUri : KeyedByUri []
  unfolding lookup
  none-KeyedByUri uri e found = cc

  module _ (available : Table String (Extension S)) (keyed : KeyedByUri available) where
    is_in-resolve :
        (requested : List String) (uri : String) (e : Extension S)
        → lookup uri available ≡ some e
        → is_in uri (uris_of (resolve_active_extensions available requested)) ≡ is_in uri requested
    unfolding resolve_active_extensions
    is_in-resolve [] uri e found = refl
    is_in-resolve (first ∷ requested) uri e found = elim (Option-cases (lookup first available)) [
      | inl missing ↦ elim (Bool-cases (first == uri)) [
        | inl same ↦
            let e' : first ≡ uri = (eq_iff first uri).0 same in
            let gone : lookup uri available ≡ none = rw e' at missing in
            let none_some : none ≡ some e = sym gone ∙ found in cc
        | inr other ↦ rw (missing, other) (is_in-resolve requested uri e found)
      ]
      | inr (f, at_first) ↦
          rw (at_first, keyed first f at_first, is_in-resolve requested uri e found) refl
    ]

  -- The method of an extension that the handler has runs exactly if the request names the
  -- extension; otherwise the method is reported as not found, and nothing is done.
  pub serve_rpc-requested :
      (given : List (Option (Extension S))) (requested : List String) (uri : String)
      (e : Extension S) (handler : JsonRpcMethodHandler S) (ctx : Context) (params : String) (s : S)
      → lookup uri (extension_map given []) ≡ some e
      → serve_rpc e.uri handler
          (record ctx {
            active_extensions =
                uris_of (resolve_active_extensions (extension_map given []) requested);
          })
          params
          s
        ≡ (if is_in uri requested
            then handler
                (record ctx {
                  active_extensions =
                      uris_of (resolve_active_extensions (extension_map given []) requested);
                })
                params
                s
            else (err (rpc error_code_method_not_found), s))
  unfolding serve_rpc
  serve_rpc-requested given requested uri e handler ctx params s found =
      let keyed = extension_map-KeyedByUri given [] none-KeyedByUri in
      let active = is_in-resolve (extension_map given []) keyed requested uri e found in
      rw (keyed uri e found, active) refl
