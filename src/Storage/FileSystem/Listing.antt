-- ===== src/Storage/FileSystem/Listing.antt =====
-- `FileSystemStorage.ListTaskPushNotificationConfig` (filesystem_storage.go) on a disk that works.
use atlasic.Prelude.{
  String, ◌≡◌, refl, Option, none, some, List, [], ◌∷◌, ◌++◌, pair_eq, string_eq, Option-cases, inl,
  inr,
}
use atlasic.Prelude.Table.{Table, lookup}
use atlasic.Prelude.Exec.{ok}
use atlasic.A2a.{TaskPushNotificationConfig}
use atlasic.Storage.FileSystem
use atlasic.Storage.FileSystem.{Disk, read_each, entries_of}
use atlasic.Storage.FileSystem.Ready.{os_call-ready}

-- What the loop of `ListTaskPushNotificationConfig` collects where every file can be read.
abbrev pub add_listed :
    Option TaskPushNotificationConfig
    → List TaskPushNotificationConfig
    → List TaskPushNotificationConfig
add_listed none cs = cs
add_listed (some c) cs = cs ++ c ∷ []

pub listed_configs :
    String
    → List String
    → List TaskPushNotificationConfig
    → Table (String × String) TaskPushNotificationConfig
    → List TaskPushNotificationConfig
listed_configs id [] cs table = cs
listed_configs id (c ∷ ids) cs table =
    listed_configs id ids (add_listed (lookup (id, c) table) cs) table

read_each-ready :
    (id : String) (ids : List String) (cs : List TaskPushNotificationConfig) (d : Disk)
    → d.faults ≡ []
    → read_each id ids cs d ≡ (ok (listed_configs id ids cs d.push_configs), d)
unfolding read_each listed_configs
read_each-ready id [] cs d h = refl
read_each-ready id (c ∷ ids) cs d h = elim (Option-cases (lookup (id, c) d.push_configs)) [
  | inl e ↦ rw (os_call-ready d h, e) (read_each-ready id ids cs d h)
  | inr (x, e) ↦ rw (os_call-ready d h, e) (read_each-ready id ids (cs ++ x ∷ []) d h)
]

abbrev pub configs : Disk → String → List TaskPushNotificationConfig
configs d id = listed_configs id (entries_of id d.push_configs) [] d.push_configs

pub list_push_configs-ready :
    (id : String) (d : Disk)
    → d.faults ≡ []
    → FileSystem.list_push_configs id d ≡ (ok (configs d id), d)
unfolding FileSystem.list_push_configs
list_push_configs-ready id d h = rw (os_call-ready d h, read_each-ready id _ [] d h) refl
