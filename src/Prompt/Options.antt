-- ===== src/Prompt/Options.antt =====
-- The options of what is written to a prompt (prompt/options.go).
use atlasic.Prelude.{String, Bool, true, false, List, [], ◌∷◌, ℤ, pos, negsuc}

pub record Config : Type 0 where
  pub format : String
  pub include_file_parts : Bool
  pub include_artifacts : Bool
  pub include_task_info : Bool
  pub include_status : Bool
  pub include_history : Bool
  pub max_history : ℤ

-- `Option` in the source. It changes a config that it is given a pointer to.
abbrev pub ConfigOption : Type 0
ConfigOption = Config → Config

unfoldable pub default_config : Config
default_config = record {
  format = "markdown";
  include_file_parts = false;
  include_artifacts = false;
  include_task_info = true;
  include_status = true;
  include_history = true;
  max_history = negsuc 0;
}

unfoldable pub with_format : String → ConfigOption
with_format format c = record c { format = format }

unfoldable pub with_max_history : ℤ → ConfigOption
with_max_history n c = record c { max_history = n }

unfoldable pub with_file_parts : ConfigOption
with_file_parts c = record c { include_file_parts = true }

unfoldable pub without_file_parts : ConfigOption
without_file_parts c = record c { include_file_parts = false }

unfoldable pub with_artifacts : ConfigOption
with_artifacts c = record c { include_artifacts = true }

unfoldable pub without_artifacts : ConfigOption
without_artifacts c = record c { include_artifacts = false }

unfoldable pub with_task_info : ConfigOption
with_task_info c = record c { include_task_info = true }

unfoldable pub without_task_info : ConfigOption
without_task_info c = record c { include_task_info = false }

unfoldable pub with_status : ConfigOption
with_status c = record c { include_status = true }

unfoldable pub without_status : ConfigOption
without_status c = record c { include_status = false }

unfoldable pub with_history : ConfigOption
with_history c = record c { include_history = true }

unfoldable pub without_history : ConfigOption
without_history c = record c { include_history = false }

unfoldable pub summary : ConfigOption
summary c = record c {
  format = "summary";
  include_file_parts = false;
  include_artifacts = false;
  max_history = pos 5;
}

unfoldable pub detailed : ConfigOption
detailed c = record c {
  format = "detailed";
  include_file_parts = true;
  include_artifacts = true;
  max_history = negsuc 0;
}

unfoldable pub minimal : ConfigOption
minimal c = record c {
  format = "minimal";
  include_file_parts = false;
  include_artifacts = false;
  include_task_info = false;
  include_status = false;
  max_history = pos 3;
}

-- `for _, opt := range opts { opt(cfg) }`
abbrev pub applied : List ConfigOption → Config → Config
applied [] c = c
applied (opt ∷ opts) c = applied opts (opt c)

unfoldable pub configured : List ConfigOption → Config
unfolding default_config
configured opts = applied opts default_config
