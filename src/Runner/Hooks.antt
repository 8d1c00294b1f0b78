-- ===== src/Runner/Hooks.antt =====
-- Models with hooks, and the registry of model providers (model/model.go).
--
-- Hooks read and write the request and the world; a provider is what it makes of a model's name. A
-- model that the registry returns stands for its calls until another hook is added.
use atlasic.Prelude.{
  String, ◌≡◌, refl, Option, none, some, List, [], ◌∷◌, ◌++◌, string_eq, ◌⊎◌, inl, inr,
}
use atlasic.Prelude.Table.{Table, lookup, insert}
use atlasic.Prelude.Exec.{Exec, Result, ok, err, Error, wrap, invalid}
use atlasic.Runner.{Generate, GenerateRequest, GenerateResponse}

abbrev pub PreGenerateHook : Type 0 → Type 0
PreGenerateHook W = String → Exec (GenerateRequest × W) (Unit {0})

-- What a post-generate hook returns is only logged.
abbrev pub PostGenerateHook : Type 0 → Type 0
PostGenerateHook W = String → Result GenerateResponse → Exec (GenerateRequest × W) (Unit {0})

pub record ModelHooks (W : Type 0) : Type 0 where
  pub pre_generate : List (PreGenerateHook W)
  pub post_generate : List (PostGenerateHook W)

module _ {W : Type 0} where
  abbrev pub after_pre :
      Result (Unit {0})
      → Exec (GenerateRequest × W) (Unit {0})
      → Exec (GenerateRequest × W) (Unit {0})
  after_pre (ok done) rest s = rest s
  after_pre (err e) rest s = (err (wrap e), s)

  unfoldable pub run_pre : String → List (PreGenerateHook W) → Exec (GenerateRequest × W) (Unit {0})
  run_pre provider [] s = (ok tt, s)
  run_pre provider (hook ∷ hooks) s =
      let (r, s') = hook provider s in after_pre r (run_pre provider hooks) s'

  unfoldable pub run_post :
      String
      → Result GenerateResponse
      → List (PostGenerateHook W)
      → GenerateRequest × W
      → GenerateRequest × W
  run_post provider response [] s = s
  run_post provider response (hook ∷ hooks) s =
      run_post provider response hooks (hook provider response s).1

  abbrev pub called : ModelHooks W → String → Generate W → Result (Unit {0}) → Generate W
  called hooks provider generate (err e) s = (err e, s)
  called hooks provider generate (ok done) s =
      let (r, s') = generate s in (r, run_post provider r hooks.post_generate s')

  -- `HookedModel.Generate`
  unfoldable pub hooked_generate : ModelHooks W → String → Generate W → Generate W
  hooked_generate hooks provider generate s =
      let (r, s') = run_pre provider hooks.pre_generate s in called hooks provider generate r s'

pub record Registry (W : Type 0) : Type 0 where
  pub providers : Table String (String → Result (Generate W))
  pub hooks : ModelHooks W

module _ {W : Type 0} where
  unfoldable pub register : String → (String → Result (Generate W)) → Registry W → Registry W
  register name provider r = record r { providers = insert name provider r.providers }

  unfoldable pub add_pre_generate_hook : PreGenerateHook W → Registry W → Registry W
  add_pre_generate_hook hook r =
      let hooks = r.hooks in
      record r { hooks = record hooks { pre_generate = hooks.pre_generate ++ (hook ∷ []) } }

  unfoldable pub add_post_generate_hook : PostGenerateHook W → Registry W → Registry W
  add_post_generate_hook hook r =
      let hooks = r.hooks in
      record r { hooks = record hooks { post_generate = hooks.post_generate ++ (hook ∷ []) } }

  abbrev pub with_hooks_of :
      List (PreGenerateHook W)
      → List (PostGenerateHook W)
      → ModelHooks W
      → String
      → Generate W
      → Generate W
  with_hooks_of [] [] hooks name generate = generate
  with_hooks_of pre post hooks name generate = hooked_generate hooks name generate

  abbrev pub with_hooks : ModelHooks W → String → Result (Generate W) → Result (Generate W)
  with_hooks hooks name (err e) = err e
  with_hooks hooks name (ok generate) =
      ok (with_hooks_of hooks.pre_generate hooks.post_generate hooks name generate)

  abbrev pub from_provider :
      Registry W → String → String → Option (String → Result (Generate W)) → Result (Generate W)
  from_provider r name model none = err invalid
  from_provider r name model (some provider) = with_hooks r.hooks name (provider model)

  unfoldable pub get_model : Registry W → String → String → Result (Generate W)
  get_model r name model = from_provider r name model (lookup name r.providers)

  -- Whether or not a registry has hooks, a model that it returns runs as the hooked model does.
  with_hooks_of-hooked :
      (pre : List (PreGenerateHook W)) (post : List (PostGenerateHook W)) (name : String)
      (generate : Generate W) (s : GenerateRequest × W)
      → with_hooks_of pre post (record { pre_generate = pre; post_generate = post }) name generate s
        ≡ hooked_generate (record { pre_generate = pre; post_generate = post }) name generate s
  unfolding hooked_generate run_pre run_post
  with_hooks_of-hooked [] [] name generate s = refl
  with_hooks_of-hooked [] (hook ∷ post) name generate s = refl
  with_hooks_of-hooked (hook ∷ pre) post name generate s = refl

  -- Whatever hooks the registry has, none too: a model of a registered provider runs the hooks before
  -- it and after it, and a provider that has no such model gives its error.
  pub get_model-hooked :
      (r : Registry W) (name model : String) (provider : String → Result (Generate W))
      → lookup name r.providers ≡ some provider
      → ((e : Error) × (provider model ≡ err e) × (get_model r name model ≡ err e))
        ⊎ ((generate : Generate W) × (got : Generate W) × (provider model ≡ ok generate)
            × (get_model r name model ≡ ok got)
            × ((s : GenerateRequest × W) → got s ≡ hooked_generate r.hooks name generate s))
  unfolding get_model
  get_model-hooked r name model provider found = rw found (by_result (provider model))
    where
      by_result :
          (made : Result (Generate W))
          → ((e : Error) × (made ≡ err e) × (with_hooks r.hooks name made ≡ err e))
            ⊎ ((generate : Generate W) × (got : Generate W) × (made ≡ ok generate)
                × (with_hooks r.hooks name made ≡ ok got)
                × ((s : GenerateRequest × W) → got s ≡ hooked_generate r.hooks name generate s))
      by_result (err e) = inl (e, refl, refl)
      by_result (ok generate) = inr (
        generate,
        with_hooks_of r.hooks.pre_generate r.hooks.post_generate r.hooks name generate,
        refl,
        refl,
        with_hooks_of-hooked r.hooks.pre_generate r.hooks.post_generate name generate,
      )
