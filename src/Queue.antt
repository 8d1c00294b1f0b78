-- ===== src/Queue.antt =====
-- `InMemoryJobQueue` (jobqueue.go): a buffered channel of jobs and a flag.
--
-- The methods end in a `select` on the channel and the context, which takes any case that is ready;
-- the choice is an argument, and `none` is a case that is not ready, where the call goes on waiting.
-- The channel has a buffer: a size of 0 would hand each job over directly.
pub mod Fifo
pub mod Sqs
use atlasic.Prelude.{
  ℕ, Bool, true, false, Option, none, some, List, [], ◌∷◌, ◌++◌, ltb, length, if◌then◌else◌,
}
use atlasic.Prelude.Exec.{Result, ok, err, queue_closed, context_done}
use atlasic.Service.{JobConfig}

pub record Queue : Type 0 where
  pub jobs : List JobConfig
  pub size : ℕ
  pub closed : Bool

abbrev pub new_queue : ℕ → Queue
new_queue size = record { jobs = []; size = size; closed = false }

pub data Choice : Type 0 where
  by_channel by_context : Choice

-- The `select` of `Enqueue`.
abbrev pub send : Choice → JobConfig → Queue → Option (Result (Unit {0}) × Queue)
send by_channel x q =
    if ltb (length q.jobs) q.size then some (ok tt, record q { jobs = q.jobs ++ x ∷ [] }) else none
send by_context x q = some (err context_done, q)

unfoldable pub enqueue : Choice → JobConfig → Queue → Option (Result (Unit {0}) × Queue)
enqueue choice x q = if q.closed then some (err queue_closed, q) else send choice x q

-- A receive from the channel, which goes on after it has been closed until it is empty.
abbrev pub receive : List JobConfig → Queue → Option (Result JobConfig × Queue)
receive [] q = if q.closed then some (err queue_closed, q) else none
receive (x ∷ xs) q = some (ok x, record q { jobs = xs })

unfoldable pub dequeue : Choice → Queue → Option (Result JobConfig × Queue)
dequeue by_channel q = receive q.jobs q
dequeue by_context q = some (err context_done, q)

unfoldable pub close : Queue → Queue
close q = if q.closed then q else record q { closed = true }
