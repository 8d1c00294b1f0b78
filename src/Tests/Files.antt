-- ===== src/Tests/Files.antt =====
-- The theorems on files of the virtual file systems at concrete inputs, on a store that is a table.
use atlasic.Prelude.{
  refl, ◌≡◌, ◌++◌, Option, none, some, [], ◌∷◌, String, string_eq, ◌==◌, if◌then◌else◌, arith,
}
use atlasic.Prelude.Table.{Table, lookup, insert, lookup-insert}
use atlasic.Prelude.Exec.{Result, ok, err, no_such_key, ◌>>◌}
use atlasic.Storage.S3.Files.{Bytes, FileClient, ClientLaws, S3File, new_s3_file, close}
use atlasic.Storage.S3.Files.Reads.{read_all, AllData, read-never_ends}
use atlasic.Storage.S3.Files.Writes.{
  write_each, kept, chunks_joined, close-write_each, close-read_only,
}

abbrev found : Option Bytes → Result Bytes
found none = err no_such_key
found (some b) = ok b

abbrev client : FileClient
client = record {
  State = Table String Bytes;
  get_object = λ k s. (found (lookup k s), s);
  put_object = λ k b s. (ok tt, insert k b s);
}

client_laws : ClientLaws client
client_laws = record {
  Works = λ s. Unit {0};
  content = λ s k. lookup k s;
  get_found = λ k s b works e. rw e refl;
  get_missing = λ k s works e. rw e refl;
  put_done = λ k b s works. refl;
  content-put = λ k b s j works. lookup-insert k j b s;
}

abbrev store : Table String Bytes
store = ("fs/task/t/log", 104 ∷ 105 ∷ []) ∷ []

read-never_ends_example :
    AllData (read_all client (512 ∷ 512 ∷ 512 ∷ []) (new_s3_file "fs/task/t/log" 0 420, store))
unfolding lookup client_laws
read-never_ends_example =
    read-never_ends client client_laws "fs/task/t/log" 0 420 store 104 (105 ∷ [])
      (512 ∷ 512 ∷ 512 ∷ []) tt refl refl (omega arith, (omega arith, (omega arith, tt)))

-- Appending to the file.
close-write_each_example :
    (f : S3File) × (after : Table String Bytes) × ((write_each client ((33 ∷ []) ∷ [])
          >> close client)
        (new_s3_file "fs/task/t/log" 1025 420, store)
      ≡ (ok tt, (f, after)))
    × ((j : String)
        → lookup j after ≡ (
            if "fs/task/t/log" == j
            then some (kept 1025 (lookup "fs/task/t/log" store) ++ ((33 ∷ []) ++ chunks_joined []))
            else lookup j store))
unfolding client_laws
close-write_each_example =
    close-write_each client client_laws "fs/task/t/log" 1025 420 store (33 ∷ []) [] refl tt

close-read_only_example :
    (f : S3File) × ((write_each client ((33 ∷ []) ∷ []) >> close client)
        (new_s3_file "fs/task/t/log" 0 420, store)
      ≡ (ok tt, (f, store)))
unfolding client_laws
close-read_only_example =
    close-read_only client client_laws "fs/task/t/log" 0 420 store (33 ∷ []) [] refl tt
