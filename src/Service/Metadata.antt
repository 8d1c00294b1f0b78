-- ===== src/Service/Metadata.antt =====
-- What an agent says of itself (`AgentMetadata`, `SupportedOutputModes` and `GetAgentCard` of
-- atlasic.go).
--
-- Of a card's data, that which no code here reads is kept as text.
use Prim.Native.String.{compare}
use Prim.Native.Nat.{Ordering}
use atlasic.Prelude.{
  String, Bool, true, false, not, ◌||◌, ◌≡◌, refl, sym, ◌∙◌, Option, none, some, List, [], ◌∷◌,
  ◌++◌, ◌==◌, string_eq, if◌then◌else◌, Bool-cases, inl, inr, eq_iff,
}
use atlasic.Prelude.Texts.{is_in}
use atlasic.Prelude.Exec.{Result, ok, err, wrap, rpc}
use atlasic.A2a.{error_code_unsupported_operation}
use atlasic.Service.{Settings, push_notifications_enabled}

pub record AgentSkill : Type 0 where
  pub id : String
  pub description : String
  pub output_modes : Option (List String)

pub record AgentMetadata : Type 0 where
  pub name : String
  pub description : String
  pub skills : List AgentSkill
  pub default_input_modes : List String
  pub default_output_modes : List String
  pub version : String
  pub provider : Option String

abbrev pub modes_of : Option (List String) → List String
modes_of none = []
modes_of (some modes) = modes

abbrev pub skill_modes : List AgentSkill → List String
skill_modes [] = []
skill_modes (skill ∷ skills) = modes_of skill.output_modes ++ skill_modes skills

abbrev pub text_leb : String → String → Bool
text_leb a b = elim (compare a b) [ Ordering.gt ↦ false | _ ↦ true ]

abbrev pub insert_sorted : String → List String → List String
insert_sorted mode [] = mode ∷ []
insert_sorted mode (m ∷ modes) =
    let rest = insert_sorted mode modes in if text_leb mode m then mode ∷ m ∷ modes else m ∷ rest

-- `slices.Sort`
unfoldable pub sort_modes : List String → List String
sort_modes [] = []
sort_modes (m ∷ modes) = insert_sorted m (sort_modes modes)

-- `slices.Compact`: of equal modes beside each other one stays.
abbrev pub compact_onto : String → List String → List String
compact_onto m [] = m ∷ []
compact_onto m (n ∷ modes) = if m == n then n ∷ modes else m ∷ n ∷ modes

unfoldable pub compact_modes : List String → List String
compact_modes [] = []
compact_modes (m ∷ modes) = compact_onto m (compact_modes modes)

abbrev pub modes_from : Result AgentMetadata → Result (List String)
modes_from (err e) = err (wrap e)
modes_from (ok meta) =
    ok (compact_modes (sort_modes (meta.default_output_modes ++ skill_modes meta.skills)))

-- `SupportedOutputModes`, of what the agent's `GetMetadata` returns, or without an agent.
unfoldable pub supported_output_modes : Option (Result AgentMetadata) → Result (List String)
unfolding sort_modes compact_modes
supported_output_modes none = err (rpc error_code_unsupported_operation)
supported_output_modes (some metadata) = modes_from metadata

pub record AgentCard : Type 0 where
  pub name : String
  pub version : String
  pub description : String
  pub url : String
  pub protocol_version : String
  pub skills : List AgentSkill
  pub default_input_modes : List String
  pub default_output_modes : List String
  pub provider : Option String
  pub streaming : Bool
  pub push_notifications : Bool
  pub state_transition_history : Bool
  pub security_schemes : Option String
  pub security : Option String

abbrev pub protocol_version_supported : String
protocol_version_supported = "0.2.5"

abbrev pub card_of : Settings → String → Result AgentMetadata → Result AgentCard
card_of c base_endpoint (err e) = err (wrap e)
card_of c base_endpoint (ok meta) = ok (record {
  name = meta.name;
  version = if meta.version == "" then "v0.0.0" else meta.version;
  description = meta.description;
  url = base_endpoint;
  protocol_version = protocol_version_supported;
  skills = meta.skills;
  default_input_modes = meta.default_input_modes;
  default_output_modes = meta.default_output_modes;
  provider = meta.provider;
  streaming = not c.disable_streaming;
  push_notifications = push_notifications_enabled c;
  state_transition_history = false;
  security_schemes = none;
  security = none;
})

unfoldable pub get_agent_card : Settings → String → Result AgentMetadata → Result AgentCard
unfolding push_notifications_enabled
get_agent_card c base_endpoint metadata = card_of c base_endpoint metadata

is_in-insert :
    (mode m : String) (modes : List String)
    → is_in mode (insert_sorted m modes) ≡ ((m == mode) || is_in mode modes)
is_in-insert mode m [] = refl
is_in-insert mode m (n ∷ modes) = elim (Bool-cases (text_leb m n)) [
  | inl before ↦ rw before refl
  | inr after ↦
      rw (after, is_in-insert mode m modes) (swap (n == mode) (m == mode) (is_in mode modes))
]
  where
    swap : (a b c : Bool) → (a || (b || c)) ≡ (b || (a || c))
    swap true true c = refl
    swap true false c = refl
    swap false true c = refl
    swap false false c = refl

is_in-sort :
    (mode : String) (modes : List String) → is_in mode (sort_modes modes) ≡ is_in mode modes
unfolding sort_modes
is_in-sort mode [] = refl
is_in-sort mode (m ∷ modes) =
    is_in-insert mode m (sort_modes modes) ∙ rw (is_in-sort mode modes) refl

or_twice : (a b : Bool) → (a || (a || b)) ≡ (a || b)
or_twice true b = refl
or_twice false b = refl

is_in-onto :
    (mode m : String) (modes : List String)
    → is_in mode (compact_onto m modes) ≡ ((m == mode) || is_in mode modes)
is_in-onto mode m [] = refl
is_in-onto mode m (n ∷ modes) = elim (Bool-cases (m == n)) [
  | inl same ↦
      let e : m ≡ n = (eq_iff m n).0 same in
      rw (same, e) (sym (or_twice (n == mode) (is_in mode modes)))
  | inr apart ↦ rw apart refl
]

is_in-compact :
    (mode : String) (modes : List String) → is_in mode (compact_modes modes) ≡ is_in mode modes
unfolding compact_modes
is_in-compact mode [] = refl
is_in-compact mode (m ∷ modes) =
    is_in-onto mode m (compact_modes modes) ∙ rw (is_in-compact mode modes) refl

-- The supported output modes of an agent are, as a set, its default ones and those of its skills.
pub supported_output_modes_lem :
    (meta : AgentMetadata)
    → (modes : List String) × (supported_output_modes (some (ok meta)) ≡ ok modes)
      × ((mode : String)
          → is_in mode modes ≡ is_in mode (meta.default_output_modes ++ skill_modes meta.skills))
unfolding supported_output_modes
supported_output_modes_lem meta =
    let all = meta.default_output_modes ++ skill_modes meta.skills in
    (
      compact_modes (sort_modes all),
      refl,
      λ mode. is_in-compact mode (sort_modes all) ∙ is_in-sort mode all,
    )
