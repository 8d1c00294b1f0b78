-- ===== src/Queue/Sqs.antt =====
-- The job queue on SQS (awsadp/sqs_jobqueue.go), over the calls of the AWS client as a parameter.
--
-- `Dequeue` polls: its argument has a round for each poll, which says whether the context has ended
-- after it, and it has ended after the last one. Durations are seconds.
use atlasic.Prelude.{
  ℕ, suc, ◌≤◌, String, Bool, true, false, ◌≡◌, refl, ◌∙◌, Option, none, some, List, [], ◌∷◌, ◌++◌,
  ◌==◌, string_eq, length, if◌then◌else◌, arith,
}
use atlasic.Prelude.Table.{Table}
use atlasic.Prelude.Exec.{
  Exec, Result, ok, err, wrapping, wrap, invalid, context_done, skip_event, pure,
}
use atlasic.Service.{JobConfig}

pub record SqsMessage : Type 0 where
  pub event_source : String
  pub body : String
  pub receipt_handle : String

pub record SqsClient : Type 1 where
  pub State : Type 0
  pub send_message : String → Exec State (Unit {0})
  pub receive_message : Exec State (List SqsMessage)
  pub delete_message : String → Exec State (Unit {0})
  pub change_message_visibility : String → ℕ → Exec State (Unit {0})

-- A job's configuration with the headers, and encoding/json for it.
pub record SqsJobConfig : Type 0 where
  pub config : JobConfig
  pub http_headers : Table String String

pub record JobCodec : Type 0 where
  pub encode : SqsJobConfig → Option String
  pub decode : String → Option SqsJobConfig
  pub decode_event : String → Option (List SqsMessage)

pub record SqsJob (S : Type 0) : Type 0 where
  pub config : JobConfig
  pub http_headers : Table String String
  pub extend_timeout : ℕ → Exec S (Unit {0})
  pub complete : Exec S (Unit {0})
  pub fail : Exec S (Unit {0})

module _ (c : SqsClient) (codec : JobCodec) where
  abbrev pub send_body : Option String → Exec c.State (Unit {0})
  send_body none s = (err (wrap invalid), s)
  send_body (some body) s = wrapping (c.send_message body) s

  unfoldable pub sqs_enqueue : SqsJobConfig → Exec c.State (Unit {0})
  sqs_enqueue job = send_body (codec.encode job)

  unfoldable pub create_extend_timeout : String → ℕ → Exec c.State (Unit {0})
  create_extend_timeout receipt seconds = wrapping (c.change_message_visibility receipt seconds)

  unfoldable pub create_complete : String → Exec c.State (Unit {0})
  create_complete receipt = wrapping (c.delete_message receipt)

  unfoldable pub create_fail : String → Exec c.State (Unit {0})
  create_fail receipt = wrapping (c.change_message_visibility receipt 0)

  -- The headers of the configuration are not taken over.
  abbrev pub job_of : SqsJobConfig → String → SqsJob c.State
  job_of job receipt = record {
    config = job.config;
    http_headers = [];
    extend_timeout = create_extend_timeout receipt;
    complete = create_complete receipt;
    fail = create_fail receipt;
  }

  -- A message that does not decode is deleted, whether or not that works.
  abbrev pub take_message :
      SqsMessage
      → Option SqsJobConfig
      → Exec c.State (SqsJob c.State)
      → Exec c.State (SqsJob c.State)
  take_message m none again s = again (c.delete_message m.receipt_handle s).1
  take_message m (some job) again s = (ok (job_of job m.receipt_handle), s)

  abbrev pub after_poll :
      Bool
      → Result (List SqsMessage)
      → Exec c.State (SqsJob c.State)
      → Exec c.State (SqsJob c.State)
  after_poll ended (err e) again s = (err (wrap e), s)
  after_poll true (ok []) again s = (err context_done, s)
  after_poll false (ok []) again s = again s
  after_poll ended (ok (m ∷ ms)) again s = take_message m (codec.decode m.body) again s

  unfoldable pub sqs_dequeue : List Bool → Exec c.State (SqsJob c.State)
  sqs_dequeue [] s = (err context_done, s)
  sqs_dequeue (ended ∷ rounds) s =
      let (r, s') = c.receive_message s in after_poll ended r (sqs_dequeue rounds) s'

  abbrev pub from_sqs : List SqsMessage → List SqsMessage
  from_sqs [] = []
  from_sqs (m ∷ ms) =
      let rest = from_sqs ms in if m.event_source == "aws:sqs" then m ∷ rest else rest

  -- The job of a Lambda event: Lambda itself deletes the message or has it tried again.
  abbrev pub lambda_job : SqsJobConfig → String → SqsJob c.State
  lambda_job job receipt = record {
    config = job.config;
    http_headers = [];
    extend_timeout = λ seconds. wrapping (c.change_message_visibility receipt seconds);
    complete = pure tt;
    fail = pure tt;
  }

  abbrev pub parse_config : String → Option SqsJobConfig → Result (SqsJob c.State)
  parse_config receipt none = err (wrap invalid)
  parse_config receipt (some job) = ok (lambda_job job receipt)

  abbrev pub parse_single : List SqsMessage → Result (SqsJob c.State)
  parse_single [] = err skip_event
  parse_single (m ∷ []) = parse_config m.receipt_handle (codec.decode m.body)
  parse_single (m ∷ n ∷ ms) = err invalid

  abbrev pub parse_records : Option (List SqsMessage) → Result (SqsJob c.State)
  parse_records none = err (wrap invalid)
  parse_records (some ms) = parse_single (from_sqs ms)

  unfoldable pub parse_event : String → Result (SqsJob c.State)
  parse_event event = parse_records (codec.decode_event event)

-- What is relied on while no visibility timeout runs out: there are states in which no call fails, a
-- poll gives the next visible message and hides it, and the deletion of a hidden message changes
-- nothing that is visible.
pub record SqsLaws (c : SqsClient) : Type 1 where
  pub Works : c.State → Type 0
  pub visible : c.State → List SqsMessage
  pub receive_works : (s : c.State) → Works s → Works (c.receive_message s).1
  pub receive_next :
      (s : c.State) (m : SqsMessage) (ms : List SqsMessage)
      → Works s
      → visible s ≡ m ∷ ms
      → ((c.receive_message s).0 ≡ ok (m ∷ [])) × (visible (c.receive_message s).1 ≡ ms)
  pub delete_works : (r : String) (s : c.State) → Works s → Works (c.delete_message r s).1
  pub visible-delete :
      (r : String) (s : c.State) → Works s → visible (c.delete_message r s).1 ≡ visible s

module _ (c : SqsClient) (codec : JobCodec) (laws : SqsLaws c) where
  open laws use {Works, visible, receive_works, receive_next, delete_works, visible-delete}

  abbrev pub NoneDecode : List SqsMessage → Type 0
  NoneDecode [] = Unit
  NoneDecode (m ∷ ms) = (codec.decode m.body ≡ none) × NoneDecode ms

  -- If there is a round for each message up to the first that decodes, a call for a job returns the
  -- job of that message without its headers, which completes by deleting the message, fails by making
  -- it visible at once, and extends its time by hiding it for longer, all under the message's receipt;
  -- the messages before it are gone, and those after it are as they were.
  pub sqs_dequeue-next :
      (bad : List SqsMessage) (m : SqsMessage) (rest : List SqsMessage) (job : SqsJobConfig)
      (rounds : List Bool) (s : c.State)
      → Works s
      → visible s ≡ bad ++ (m ∷ rest)
      → NoneDecode bad
      → codec.decode m.body ≡ some job
      → suc (length bad) ≤ length rounds
      → ((sqs_dequeue c codec rounds s).0
          ≡ ok (record {
            config = job.config;
            http_headers = [];
            extend_timeout =
                λ seconds. wrapping (c.change_message_visibility m.receipt_handle seconds);
            complete = wrapping (c.delete_message m.receipt_handle);
            fail = wrapping (c.change_message_visibility m.receipt_handle 0);
          }))
        × Works (sqs_dequeue c codec rounds s).1
        × (visible (sqs_dequeue c codec rounds s).1 ≡ rest)
  unfolding sqs_dequeue create_extend_timeout create_complete create_fail
  sqs_dequeue-next bad m rest job [] s works seen none_decode good enough =
      absurd (omega (arith, enough))
  sqs_dequeue-next [] m rest job (ended ∷ rounds) s works seen none_decode good enough =
      let (got, left) = receive_next s m rest works seen in
      rw (got, good) (refl, receive_works s works, left)
  sqs_dequeue-next (b ∷ bad) m rest job (ended ∷ rounds) s works seen (bad_body, others) good
        enough =
      let (got, left) = receive_next s b (bad ++ (m ∷ rest)) works seen in
      let s' = (c.receive_message s).1 in
      let works' = receive_works s works in
      rw (got, bad_body)
        (sqs_dequeue-next bad m rest job rounds (c.delete_message b.receipt_handle s').1
          (delete_works b.receipt_handle s' works')
          (visible-delete b.receipt_handle s' works' ∙ left) others good (omega (arith, enough)))
