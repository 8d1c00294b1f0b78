-- ===== src/Queue/Fifo.antt =====
-- Order and completeness of delivery by `InMemoryJobQueue` (jobqueue.go).
use atlasic.Prelude.{
  ℕ, ◌≤◌, ◌<◌, ◌≡◌, refl, ◌∙◌, ap, some, List, [], ◌∷◌, ◌++◌, append_assoc, length, length-append,
  arith,
}
use atlasic.Prelude.Exec.{Error, ok, err}
use atlasic.Service.{JobConfig}
use atlasic.Queue.{Queue, new_queue, Choice, enqueue, dequeue, close}

-- The queues that calls reach, with the jobs that were enqueued and those that were dequeued.
pub data Reachable (size : ℕ) : Queue → List JobConfig → List JobConfig → Type 0 where
  created : Reachable size (new_queue size) [] []
  enqueues :
      {q q' : Queue} {sent taken : List JobConfig} (choice : Choice) (x : JobConfig)
      → Reachable size q sent taken
      → enqueue choice x q ≡ some (ok tt, q')
      → Reachable size q' (sent ++ x ∷ []) taken
  fails_to_enqueue :
      {q q' : Queue} {sent taken : List JobConfig} (choice : Choice) (x : JobConfig) (e : Error)
      → Reachable size q sent taken
      → enqueue choice x q ≡ some (err e, q')
      → Reachable size q' sent taken
  dequeues :
      {q q' : Queue} {sent taken : List JobConfig} (choice : Choice) (x : JobConfig)
      → Reachable size q sent taken
      → dequeue choice q ≡ some (ok x, q')
      → Reachable size q' sent (taken ++ x ∷ [])
  fails_to_dequeue :
      {q q' : Queue} {sent taken : List JobConfig} (choice : Choice) (e : Error)
      → Reachable size q sent taken
      → dequeue choice q ≡ some (err e, q')
      → Reachable size q' sent taken
  closes :
      {q : Queue} {sent taken : List JobConfig}
      → Reachable size q sent taken
      → Reachable size (close q) sent taken

pub record InOrder (size : ℕ) (q : Queue) (sent taken : List JobConfig) : Type 0 where
  pub delivered : taken ++ q.jobs ≡ sent
  pub same_size : q.size ≡ size
  pub bounded : length q.jobs ≤ size

enqueue-sent :
    (choice : Choice) (x : JobConfig) (q q' : Queue)
    → enqueue choice x q ≡ some (ok tt, q')
    → (q'.jobs ≡ q.jobs ++ x ∷ []) × (q'.size ≡ q.size) × (length q.jobs < q.size)
unfolding enqueue
enqueue-sent choice x q q' e = ground arith

enqueue-failed :
    (choice : Choice) (x : JobConfig) (e : Error) (q q' : Queue)
    → enqueue choice x q ≡ some (err e, q')
    → q' ≡ q
unfolding enqueue
enqueue-failed choice x e q q' h = ground arith

dequeue-taken :
    (choice : Choice) (x : JobConfig) (q q' : Queue)
    → dequeue choice q ≡ some (ok x, q')
    → (q.jobs ≡ x ∷ q'.jobs) × (q'.size ≡ q.size)
unfolding dequeue
dequeue-taken choice x q q' h = ground arith

dequeue-failed :
    (choice : Choice) (e : Error) (q q' : Queue) → dequeue choice q ≡ some (err e, q') → q' ≡ q
unfolding dequeue
dequeue-failed choice e q q' h = ground arith

close-jobs : (q : Queue) → ((close q).jobs ≡ q.jobs) × ((close q).size ≡ q.size)
unfolding close
close-jobs q = ground arith

-- Whatever is called, the jobs that were dequeued, followed by those in the queue, are the jobs that
-- were enqueued in their order, none lost and none twice, and the queue never holds more than its
-- size.
pub Reachable-InOrder :
    (size : ℕ) (q : Queue) (sent taken : List JobConfig)
    → Reachable size q sent taken
    → InOrder size q sent taken
Reachable-InOrder size _ _ _ created = record {
  delivered = refl;
  same_size = refl;
  bounded = omega arith;
}
Reachable-InOrder size q' _ taken (enqueues {q} {sent = sent} choice x r e) =
    let h = Reachable-InOrder size q sent taken r in
    let (jobs, sizes, room) = enqueue-sent choice x q q' e in
    record {
      delivered = rw (jobs, ← append_assoc, h.delivered) refl;
      same_size = sizes ∙ h.same_size;
      bounded = rw jobs (omega (arith, length-append q.jobs (x ∷ []), room, h.same_size));
    }
Reachable-InOrder size q' sent taken (fails_to_enqueue {q} choice x e r f) =
    rw (enqueue-failed choice x e q q' f) (Reachable-InOrder size q sent taken r)
Reachable-InOrder size q' sent _ (dequeues {q} {taken = taken} choice x r e) =
    let h = Reachable-InOrder size q sent taken r in
    let (jobs, sizes) = dequeue-taken choice x q q' e in
    record {
      delivered = rw append_assoc (rw (← jobs) h.delivered);
      same_size = sizes ∙ h.same_size;
      bounded = omega (arith, ap length jobs, h.bounded);
    }
Reachable-InOrder size q' sent taken (fails_to_dequeue {q} choice e r f) =
    rw (dequeue-failed choice e q q' f) (Reachable-InOrder size q sent taken r)
Reachable-InOrder size _ sent taken (closes {q} r) =
    let h = Reachable-InOrder size q sent taken r in
    let (jobs, sizes) = close-jobs q in
    record {
      delivered = rw jobs h.delivered;
      same_size = sizes ∙ h.same_size;
      bounded = rw jobs h.bounded;
    }
