-- ===== src/Storage/FileSystem/PushConfigs.antt =====
-- Push notification configs in the file system backend (filesystem_storage.go): reads after writes.
use atlasic.Prelude.{
  String, Bool, ◌≡◌, refl, Option, none, some, ◌==◌, string_eq, pair_eq, if◌then◌else◌, Bool-cases,
  Option-cases, inl, inr, [],
}
use atlasic.Prelude.Table.{lookup, insert, erase, lookup-insert, lookup-erase}
use atlasic.Prelude.Exec.{Result, ok, err, push_config_not_found}
use atlasic.A2a.{TaskPushNotificationConfig}
use atlasic.Storage.FileSystem.{
  Disk, save_push_config, get_push_config, delete_push_config, write_file,
}
use atlasic.Storage.FileSystem.Ready.{os_call-ready}

abbrev pub key_of_config : TaskPushNotificationConfig → String × String
key_of_config x = (x.task_id, x.config.id)

abbrev config_or_error : Option TaskPushNotificationConfig → Result TaskPushNotificationConfig
config_or_error none = err push_config_not_found
config_or_error (some x) = ok x

-- The test that two pairs of ids are the same, spelled out for pairs.
abbrev same_key : String × String → String × String → Bool
same_key = pair_eq.beq

get_push_config_lem :
    (task_id config_id : String) (d : Disk)
    → d.faults ≡ []
    → (get_push_config task_id config_id d).0
      ≡ config_or_error (lookup (task_id, config_id) d.push_configs)
unfolding get_push_config
get_push_config_lem task_id config_id d works =
    elim (Option-cases (lookup (task_id, config_id) d.push_configs)) [
      | inl missing ↦ rw (os_call-ready d works, missing) refl
      | inr (x, found) ↦ rw (os_call-ready d works, found) refl
    ]

module _ (d : Disk) (works : d.faults ≡ []) where
  abbrev with_config : TaskPushNotificationConfig → Disk
  with_config x = record d { push_configs = insert (key_of_config x) x d.push_configs }

  save_push_config_lem :
      (x : TaskPushNotificationConfig) → save_push_config x d ≡ (ok tt, with_config x)
  unfolding save_push_config write_file
  save_push_config_lem x = rw (os_call-ready d works, os_call-ready d works) refl

  -- On a disk that works, a saved config is read under its task and its id, and what is read under
  -- any other task or id is what was read before.
  pub get_push_config-save_push_config :
      (x : TaskPushNotificationConfig) (task_id config_id : String)
      → let (r, d') = save_push_config x d in
        (r ≡ ok tt)
        × ((get_push_config task_id config_id d').0 ≡ (
            if key_of_config x == (task_id, config_id)
            then ok x
            else (get_push_config task_id config_id d).0))
  get_push_config-save_push_config x task_id config_id =
      rw
        (
          save_push_config_lem x,
          get_push_config_lem task_id config_id (with_config x) works,
          get_push_config_lem task_id config_id d works,
          lookup-insert (key_of_config x) (task_id, config_id) x d.push_configs,
        )
        (
          refl,
          elim (Bool-cases (same_key (key_of_config x) (task_id, config_id))) [
            | inl same ↦ rw same refl
            | inr other ↦ rw other refl
          ],
        )

  module _ (task_id config_id : String) where
    abbrev without_config : Disk
    without_config = record d { push_configs = erase (task_id, config_id) d.push_configs }

    delete_push_config_found :
        (x : TaskPushNotificationConfig)
        → lookup (task_id, config_id) d.push_configs ≡ some x
        → delete_push_config task_id config_id d ≡ (ok tt, without_config)
    unfolding delete_push_config
    delete_push_config_found x found = rw (os_call-ready d works, found) refl

    delete_push_config_missing :
        lookup (task_id, config_id) d.push_configs ≡ none
        → delete_push_config task_id config_id d ≡ (err push_config_not_found, d)
    unfolding delete_push_config
    delete_push_config_missing missing = rw (os_call-ready d works, missing) refl

  -- On a disk that works, a deleted config, or one whose deletion failed because it was not there,
  -- is not found any more, and what is read under any other task or id is what was read before.
  pub get_push_config-delete_push_config :
      (task_id config_id task_id' config_id' : String)
      → (get_push_config task_id' config_id' (delete_push_config task_id config_id d).1).0 ≡ (
          if same_key (task_id, config_id) (task_id', config_id')
          then err push_config_not_found
          else (get_push_config task_id' config_id' d).0)
  get_push_config-delete_push_config task_id config_id task_id' config_id' =
      elim (Option-cases (lookup (task_id, config_id) d.push_configs)) [
        | inl missing ↦
            rw
              (
                delete_push_config_missing task_id config_id missing,
                get_push_config_lem task_id' config_id' d works,
              )
              (elim (Bool-cases (same_key (task_id, config_id) (task_id', config_id'))) [
                | inl same ↦
                    rw
                      (
                        same,
                        ← (pair_eq.beq_iff (task_id, config_id) (task_id', config_id')).0 same,
                        missing,
                      )
                      refl
                | inr other ↦ rw other refl
              ])
        | inr (x, found) ↦
            rw
              (
                delete_push_config_found task_id config_id x found,
                get_push_config_lem task_id' config_id' d works,
                get_push_config_lem task_id' config_id' (without_config task_id config_id) works,
                lookup-erase (task_id, config_id) (task_id', config_id') d.push_configs,
              )
              (elim (Bool-cases (same_key (task_id, config_id) (task_id', config_id'))) [
                | inl same ↦ rw same refl
                | inr other ↦ rw other refl
              ])
      ]
