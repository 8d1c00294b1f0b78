-- ===== src/Tests/Sqs.antt =====
-- The theorem on the SQS queue at a concrete queue: a list of the messages that are visible.
use atlasic.Prelude.{
  ◌≡◌, refl, ◌++◌, String, false, none, some, List, [], ◌∷◌, ◌==◌, string_eq, if◌then◌else◌, arith,
  ap,
}
use atlasic.Prelude.Exec.{Result, ok, wrapping}
use atlasic.Queue.Sqs.{
  SqsMessage, SqsClient, SqsJobConfig, JobCodec, SqsLaws, sqs_dequeue, sqs_dequeue-next,
}

abbrev message : String → SqsMessage
message body = record { event_source = "aws:sqs"; body = body; receipt_handle = body }

abbrev take_first : List SqsMessage → Result (List SqsMessage) × List SqsMessage
take_first [] = (ok [], [])
take_first (m ∷ ms) = (ok (m ∷ []), ms)

abbrev client : SqsClient
client = record {
  State = List SqsMessage;
  send_message = λ body ms. (ok tt, ms ++ (message body ∷ []));
  receive_message = take_first;
  delete_message = λ receipt ms. (ok tt, ms);
  change_message_visibility = λ receipt seconds ms. (ok tt, ms);
}

abbrev laws : SqsLaws client
laws = record {
  Works = λ s. Unit;
  visible = λ s. s;
  receive_works = λ s works. tt;
  receive_next =
      λ s m ms works seen. (ap (λ s. (take_first s).0) seen, ap (λ s. (take_first s).1) seen);
  delete_works = λ r s works. tt;
  visible-delete = λ r s works. refl;
}

abbrev queued : SqsJobConfig
queued = record {
  config = record {
    task_id = "task";
    context_id = "context";
    incoming_message_id = "";
    accepted_output_modes = [];
  };
  http_headers = ("Accept", "text/plain") ∷ [];
}

abbrev codec : JobCodec
codec = record {
  encode = λ job. some "job";
  decode = λ body. if body == "job" then some queued else none;
  decode_event = λ event. none;
}

-- One message that is no job before the job.
abbrev waiting : List SqsMessage
waiting = message "?" ∷ message "job" ∷ []

sqs_dequeue-next_example :
    ((sqs_dequeue client codec (false ∷ false ∷ []) waiting).0
      ≡ ok (record {
        config = queued.config;
        http_headers = [];
        extend_timeout = λ seconds. wrapping (client.change_message_visibility "job" seconds);
        complete = wrapping (client.delete_message "job");
        fail = wrapping (client.change_message_visibility "job" 0);
      }))
    × Unit {0}
    × ((sqs_dequeue client codec (false ∷ false ∷ []) waiting).1 ≡ [])
sqs_dequeue-next_example =
    sqs_dequeue-next client codec laws (message "?" ∷ []) (message "job") [] queued
      (false ∷ false ∷ []) waiting tt refl (refl, tt) refl (omega arith)
