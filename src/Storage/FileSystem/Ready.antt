-- ===== src/Storage/FileSystem/Ready.antt =====
-- When a file system backend is ready: no call of package os will fail, and each event file holds
-- as its version the number of its events.
use atlasic.Prelude.{
  ℕ, String, ◌≡◌, refl, Option, none, some, List, [], pair_eq, string_eq, u64, length,
}
use atlasic.Prelude.Table.{lookup}
use atlasic.A2a.{Task, StreamResponse}
use atlasic.Storage.FileSystem.{Disk, os_call}
use atlasic.Prelude.Exec.{ok}

pub record IsReady (d : Disk) : Type 0 where
  pub no_faults : d.faults ≡ []
  pub versions :
      (key : String × String) (es : List StreamResponse) (v : ℕ)
      → lookup key d.events ≡ some (es, v)
      → v ≡ u64 (length es)

abbrev pub snapshot : Disk → String → Option (Task × ℕ)
snapshot d id = lookup id d.tasks

abbrev pub events_of : Option (List StreamResponse × ℕ) → List StreamResponse
events_of none = []
events_of (some (es, v)) = es

abbrev pub stream : Disk → String × String → List StreamResponse
stream d key = events_of (lookup key d.events)

pub os_call-ready : (d : Disk) → d.faults ≡ [] → os_call d ≡ (ok tt, d)
unfolding os_call
os_call-ready d h = rw h refl
