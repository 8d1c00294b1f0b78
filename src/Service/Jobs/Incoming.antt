-- ===== src/Service/Jobs/Incoming.antt =====
-- The incoming message of a job (`ProcessJob`, `SendMessage` and `streamTaskEvents` in atlasic.go).
use atlasic.Prelude.{String, false, ◌≡◌, refl, Option, List, [], ◌∷◌, ◌==◌, string_eq}
use atlasic.A2a.{Message}
use atlasic.Service.Messages.{MessageSendConfiguration}
use atlasic.Service.Jobs.{find_message, no_message}
use atlasic.Service.Polling.{job_config_for}

-- No message has the empty id.
abbrev pub HaveIds : List Message → Type 0
HaveIds [] = Unit
HaveIds (m ∷ ms) = ((m.message_id == "") ≡ false) × HaveIds ms

find_message-no_id : (ms : List Message) → HaveIds ms → find_message "" ms ≡ no_message
unfolding find_message
find_message-no_id [] h = refl
find_message-no_id (m ∷ ms) (has_id, h) = rw has_id (find_message-no_id ms h)

-- The job that is enqueued for a message finds no incoming message in any history whose messages
-- have ids: the agent is given the zero value.
pub find_message-job_config_for :
    (task_id context_id : String) (config : Option MessageSendConfiguration) (ms : List Message)
    → HaveIds ms
    → find_message (job_config_for task_id context_id config).incoming_message_id ms ≡ no_message
unfolding job_config_for
find_message-job_config_for task_id context_id config ms h = find_message-no_id ms h
