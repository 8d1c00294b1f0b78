-- ===== src/Locker.antt =====
-- `InMemoryTaskLocker` (task_locker.go), and the callers that hold its locks.
--
-- Each method takes the locker's mutex, so a run is a sequence of whole calls.
pub mod Exclusion
use atlasic.Prelude.{
  String, Bool, true, false, Option, none, some, List, [], ◌==◌, string_eq, if◌then◌else◌,
}
use atlasic.Prelude.Table.{Table, lookup, insert, erase}
use atlasic.Prelude.Exec.{
  Exec, Result, ok, err, raise, lock_already_acquired, locker_closed, context_done,
}

pub record Locker : Type 0 where
  pub locks : Table String Bool
  pub closed : Bool

abbrev pub new_locker : Locker
new_locker = record { locks = []; closed = false }

-- `locked, exists := l.locks[taskID]; exists && locked`
abbrev pub is_locked : Option Bool → Bool
is_locked none = false
is_locked (some locked) = locked

-- `Lock`, for a context that is done or not.
unfoldable pub lock : Bool → String → Exec Locker (Unit {0})
lock done id l =
    if l.closed
    then (err locker_closed, l)
    else if done
    then (err context_done, l)
    else if is_locked (lookup id l.locks)
    then (err lock_already_acquired, l)
    else (ok tt, record l { locks = insert id true l.locks })

-- The function that `Lock` returns.
unfoldable pub unlock : String → Locker → Locker
unlock id l = if l.closed then l else record l { locks = erase id l.locks }

unfoldable pub close : Locker → Locker
close l = if l.closed then l else record { locks = []; closed = true }
