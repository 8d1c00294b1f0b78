-- ===== src/Locker/Exclusion.antt =====
-- Mutual exclusion by `InMemoryTaskLocker` (task_locker.go).
use atlasic.Prelude.{
  ℕ, suc, ◌-◌, ◌≤◌, ◌<◌, ◌≡◌, ◌⊎◌, refl, inl, inr, String, Bool, true, ◌==◌, string_eq,
  if◌then◌else◌, arith, eq_iff,
}
use atlasic.Prelude.Table.{lookup, lookup-insert, lookup-erase}
use atlasic.Prelude.Exec.{Error, ok, err}
use atlasic.Locker.{Locker, new_locker, is_locked, lock, unlock, close}

-- How many callers hold the lock of each task: they got it and have not released it.
abbrev pub Holders : Type 0
Holders = String → ℕ

abbrev pub nobody : Holders
nobody i = 0

abbrev pub gained : String → Holders → Holders
gained id h i = if id == i then suc (h i) else h i

abbrev pub lost : String → Holders → Holders
lost id h i = if id == i then h i - 1 else h i

-- The states that callers reach who release only what they hold.
pub data Reachable : Locker → Holders → Type 0 where
  created : Reachable new_locker nobody
  acquires :
      {l : Locker} {h : Holders} (done : Bool) (id : String)
      → Reachable l h
      → (lock done id l).0 ≡ ok tt
      → Reachable (lock done id l).1 (gained id h)
  is_refused :
      {l : Locker} {h : Holders} (done : Bool) (id : String) (e : Error)
      → Reachable l h
      → (lock done id l).0 ≡ err e
      → Reachable (lock done id l).1 h
  releases :
      {l : Locker} {h : Holders} (id : String)
      → Reachable l h
      → 0 < h id
      → Reachable (unlock id l) (lost id h)
  closes : {l : Locker} {h : Holders} → Reachable l h → Reachable (close l) h

-- At most one caller has each lock, and an open locker has it marked.
pub record Guarded (l : Locker) (h : Holders) (i : String) : Type 0 where
  pub exclusive : h i ≤ 1
  pub marked : (l.closed ≡ true) ⊎ ((h i ≡ 0) ⊎ (is_locked (lookup i l.locks) ≡ true))

acquired-Guarded :
    (l : Locker) (h : Holders) (done : Bool) (id i : String)
    → Guarded l h i
    → (lock done id l).0 ≡ ok tt
    → Guarded (lock done id l).1 (gained id h) i
unfolding lock
acquired-Guarded l h done id i g e = record {
  exclusive = ground (arith, g.exclusive, g.marked, eq_iff id i);
  marked = ground (arith, g.marked, eq_iff id i, lookup-insert id i true l.locks);
}

refused-Guarded :
    (l : Locker) (h : Holders) (done : Bool) (id i : String) (x : Error)
    → Guarded l h i
    → (lock done id l).0 ≡ err x
    → Guarded (lock done id l).1 h i
unfolding lock
refused-Guarded l h done id i x g e = record {
  exclusive = g.exclusive;
  marked = ground (arith, g.marked);
}

released-Guarded :
    (l : Locker) (h : Holders) (id i : String)
    → Guarded l h i
    → 0 < h id
    → Guarded (unlock id l) (lost id h) i
unfolding unlock
released-Guarded l h id i g held = record {
  exclusive = ground (arith, g.exclusive);
  marked = ground (arith, g.exclusive, g.marked, eq_iff id i, lookup-erase id i l.locks);
}

closed-Guarded : (l : Locker) (h : Holders) (i : String) → Guarded l h i → Guarded (close l) h i
unfolding close
closed-Guarded l h i g = record { exclusive = g.exclusive; marked = ground (arith, g.marked) }

-- Whatever callers do who release only locks that they hold, no two of them ever hold the lock of
-- one task at the same time, also after the locker was closed; and while it is open, a lock that is
-- held is marked in its table.
pub Reachable-Guarded : (l : Locker) (h : Holders) → Reachable l h → (i : String) → Guarded l h i
unfolding lookup
Reachable-Guarded _ _ created i = record { exclusive = omega arith; marked = inr (inl refl) }
Reachable-Guarded _ _ (acquires {l} {h} done id r e) i =
    acquired-Guarded l h done id i (Reachable-Guarded l h r i) e
Reachable-Guarded _ _ (is_refused {l} {h} done id x r e) i =
    refused-Guarded l h done id i x (Reachable-Guarded l h r i) e
Reachable-Guarded _ _ (releases {l} {h} id r held) i =
    released-Guarded l h id i (Reachable-Guarded l h r i) held
Reachable-Guarded _ _ (closes {l} {h} r) i = closed-Guarded l h i (Reachable-Guarded l h r i)
