-- ===== src/Transport/Negotiation.antt =====
-- The output modes that a client accepts and those that the agent has
-- (transport/content_negotiation.go).
use atlasic.Prelude.{
  String, Bool, true, false, ◌||◌, ◌&&◌, ◌≡◌, ◌≢◌, ◌↔◌, ◌⊎◌, inl, inr, refl, List, [], ◌∷◌, ◌==◌,
  string_eq, Bool-cases, if◌then◌else◌, arith, eq_iff,
}
pub use atlasic.Prelude.Texts.{is_in}
use atlasic.Prelude.Texts.{
  concat, has_suffix, trim_suffix, before, has_suffix-concat, trim_suffix-concat,
}
use atlasic.Prelude.Exec.{Result, ok, err, rpc}
use atlasic.A2a.Rpc.{error_code_content_type_not_supported}

-- 47 is the slash.
unfoldable pub matches_output_mode : String → String → Bool
matches_output_mode accepted supported =
    if accepted == "*" || accepted == "*/*"
    then true
    else (if has_suffix accepted "/*"
        then trim_suffix accepted "/*" == before 47 supported
        else accepted == supported)

-- The inner loop: the first accepted mode that matches ends it.
unfoldable pub is_accepted : List String → String → Bool
is_accepted [] supported = false
is_accepted (accepted ∷ others) supported =
    let later = is_accepted others supported in
    if matches_output_mode accepted supported then true else later

unfoldable pub compatible : List String → List String → List String
compatible accepted [] = []
compatible accepted (supported ∷ others) =
    let rest = compatible accepted others in
    if is_accepted accepted supported then supported ∷ rest else rest

abbrev pub accepted_or_any : List String → List String
accepted_or_any [] = "*/*" ∷ []
accepted_or_any (mode ∷ modes) = mode ∷ modes

abbrev pub some_compatible : List String → Result (List String)
some_compatible [] = err (rpc error_code_content_type_not_supported)
some_compatible (mode ∷ modes) = ok (mode ∷ modes)

unfoldable pub find_compatible_output_modes : List String → List String → Result (List String)
find_compatible_output_modes accepted supported =
    some_compatible (compatible (accepted_or_any accepted) supported)

-- A pattern for all modes of a type accepts the modes of that type, and any mode if the type is "*".
pub matches_output_mode-type :
    (type supported : String)
    → matches_output_mode (concat type "/*") supported
      ≡ (concat type "/*" == "*" || concat type "/*" == "*/*" || type == before 47 supported)
unfolding matches_output_mode
matches_output_mode-type type supported =
    rw (trim_suffix-concat type "/*", has_suffix-concat type "/*") (ground arith)

is_in-compatible :
    (accepted supported : List String) (mode : String)
    → is_in mode (compatible accepted supported)
      ≡ (is_in mode supported && is_accepted accepted mode)
unfolding compatible
is_in-compatible accepted [] mode = refl
is_in-compatible accepted (m ∷ ms) mode = elim (Bool-cases (m == mode)) [
  | inl same ↦
      let e : m ≡ mode = (eq_iff m mode).0 same in
      rw e (ground (arith, is_in-compatible accepted ms mode, eq_iff mode mode))
  | inr other ↦ ground (arith, is_in-compatible accepted ms mode)
]

-- What a pattern takes: any mode for "*" and "*/*", the modes of a type for that type with "/*", and
-- otherwise just itself.
abbrev pub Takes : String → String → Type 0
Takes pattern mode =
    (pattern ≡ "*")
    ⊎ ((pattern ≡ "*/*")
        ⊎ (((has_suffix pattern "/*" ≡ true) × (trim_suffix pattern "/*" ≡ before 47 mode))
            ⊎ ((has_suffix pattern "/*" ≡ false) × (pattern ≡ mode))))

matches-Takes :
    (pattern mode : String) → (matches_output_mode pattern mode ≡ true) ↔ Takes pattern mode
unfolding matches_output_mode
matches-Takes pattern mode =
    let type = trim_suffix pattern "/*" in
    (
      λ h. ground (
        arith,
        eq_iff pattern "*",
        eq_iff pattern "*/*",
        eq_iff type (before 47 mode),
        eq_iff pattern mode,
      ),
      λ h. ground (
        arith,
        eq_iff pattern "*",
        eq_iff pattern "*/*",
        eq_iff type (before 47 mode),
        eq_iff pattern mode,
      ),
    )

-- Some pattern of the client takes the mode; a client without patterns takes any.
abbrev pub SomeTakes : List String → String → Type 0
SomeTakes [] mode = ⊥
SomeTakes (pattern ∷ patterns) mode = Takes pattern mode ⊎ SomeTakes patterns mode

abbrev pub TakenBy : List String → String → Type 0
TakenBy [] mode = Unit
TakenBy (pattern ∷ patterns) mode = SomeTakes (pattern ∷ patterns) mode

is_accepted-SomeTakes :
    (accepted : List String) (mode : String)
    → (is_accepted accepted mode ≡ true) ↔ SomeTakes accepted mode
unfolding is_accepted
is_accepted-SomeTakes [] mode = (λ h. cc, λ h. absurd h)
is_accepted-SomeTakes (pattern ∷ patterns) mode =
    elim (Bool-cases (matches_output_mode pattern mode)) [
      | inl yes_ ↦ rw yes_ (λ h. inl ((matches-Takes pattern mode).0 yes_), λ h. refl)
      | inr no_ ↦ rw no_ (
        λ h. inr ((is_accepted-SomeTakes patterns mode).0 h),
        λ h. elim h [
          | inl takes ↦ absurd (cc (no_, (matches-Takes pattern mode).1 takes))
          | inr later ↦ (is_accepted-SomeTakes patterns mode).1 later
        ],
      )
    ]

any_is_taken : (mode : String) → is_accepted ("*/*" ∷ []) mode ≡ true
unfolding is_accepted matches_output_mode
any_is_taken mode = refl

is_accepted-TakenBy :
    (accepted : List String) (mode : String)
    → (is_accepted (accepted_or_any accepted) mode ≡ true) ↔ TakenBy accepted mode
is_accepted-TakenBy [] mode = (λ h. tt, λ h. any_is_taken mode)
is_accepted-TakenBy (pattern ∷ patterns) mode = is_accepted-SomeTakes (pattern ∷ patterns) mode

-- The agent has the mode, and the client takes it.
abbrev pub IsShared : List String → List String → String → Type 0
IsShared accepted supported mode = (is_in mode supported ≡ true) × TakenBy accepted mode

is_in-IsShared :
    (accepted supported : List String) (mode : String)
    → (is_in mode (compatible (accepted_or_any accepted) supported) ≡ true)
      ↔ IsShared accepted supported mode
is_in-IsShared accepted supported mode =
    let same = is_in-compatible (accepted_or_any accepted) supported mode in
    let taken = is_accepted-TakenBy accepted mode in
    (
      λ h. (ground (arith, same, h), taken.0 (ground (arith, same, h))),
      λ h. rw (same, h.0) (taken.1 h.1),
    )

-- The negotiation ends in a non-empty list of modes, which has exactly the agent's modes that some
-- pattern of the client takes; or, where there is no such mode, in the JSON-RPC code for it. A client
-- without patterns takes any mode.
pub find_compatible_output_modes_lem :
    (accepted supported : List String)
    → ((modes : List String) × (find_compatible_output_modes accepted supported ≡ ok modes)
        × (modes ≢ [])
        × ((mode : String) → (is_in mode modes ≡ true) ↔ IsShared accepted supported mode))
      ⊎ ((find_compatible_output_modes accepted supported
            ≡ err (rpc error_code_content_type_not_supported))
          × ((mode : String) → ¬ IsShared accepted supported mode))
unfolding find_compatible_output_modes
find_compatible_output_modes_lem accepted supported =
    negotiated (compatible (accepted_or_any accepted) supported) (is_in-IsShared accepted supported)
  where
    negotiated :
        (found : List String)
        → ((mode : String) → (is_in mode found ≡ true) ↔ IsShared accepted supported mode)
        → ((modes : List String) × (some_compatible found ≡ ok modes)
            × (modes ≢ [])
            × ((mode : String) → (is_in mode modes ≡ true) ↔ IsShared accepted supported mode))
          ⊎ ((some_compatible found ≡ err (rpc error_code_content_type_not_supported))
              × ((mode : String) → ¬ IsShared accepted supported mode))
    negotiated [] same = inr (refl, λ mode h. let has : false ≡ true = (same mode).1 h in cc)
    negotiated (m ∷ ms) same = inl (m ∷ ms, refl, (λ e. cc), same)
