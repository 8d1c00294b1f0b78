-- ===== src/Prompt/Notices.antt =====
-- What a model is told of a history of which only the last messages are shown (`MaxHistory` in
-- prompt/formatter.go).
use atlasic.Prelude.{
  ℕ, suc, ◌≡◌, refl, List, [], ◌∷◌, string_eq, zero, ℤ, pos, negsuc, ltb, if◌then◌else◌,
}
use atlasic.Prelude.Texts.{joined}
use atlasic.Prelude.Numerals.{decimal}
use atlasic.A2a.{Message, other_kind, role_user, new_text_part}
use atlasic.Prompt.Options.{Config}
use atlasic.Prompt.Formatter.{history_limit, notice_of_cut}

-- How many messages of a history are shown: the configured number if it is positive, or else all.
abbrev pub limit_of : ℤ → ℕ → ℕ
limit_of (pos zero) count = count
limit_of (pos (suc n)) count = suc n
limit_of (negsuc n) count = count

pub history_limit_lem : (cfg : Config) (n : ℕ) → history_limit cfg n ≡ limit_of cfg.max_history n
unfolding history_limit
history_limit_lem cfg n = by_number cfg.max_history
  where
    by_number :
        (z : ℤ) → (elim z [ pos zero ↦ n | pos (suc k) ↦ suc k | negsuc k ↦ n ]) ≡ limit_of z n
    by_number (pos zero) = refl
    by_number (pos (suc k)) = refl
    by_number (negsuc k) = refl

-- The user's message in front of a history of which only the last messages are shown.
abbrev pub notice : ℕ → ℕ → List Message
notice limit count =
    if ltb limit count
    then record {
      kind = other_kind "";
      message_id = "";
      context_id = "";
      task_id = "";
      role = role_user;
      parts =
          new_text_part (
            joined (
              "Previous conversation history contains "
              ∷ decimal count
              ∷ " messages (showing last "
              ∷ decimal limit
              ∷ "). Use `get_task_data` with data_type=\"full_history\" for complete history."
              ∷ []))
          ∷ [];
      reference_task_ids = [];
      extensions = [];
      metadata = [];
    }
      ∷ []
    else []

pub notice_of_cut_lem :
    (cfg : Config) (n : ℕ) → notice_of_cut cfg n ≡ notice (history_limit cfg n) n
unfolding notice_of_cut
notice_of_cut_lem cfg n = refl
