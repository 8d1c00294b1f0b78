-- ===== src/Storage/ObjectStore/Tables.antt =====
-- An object store that is a table, which has the laws.
use atlasic.Prelude.{
  Bool, true, false, refl, Option, none, some, List, [], ◌∷◌, ◌==◌, string_eq, take, if◌then◌else◌,
}
use atlasic.Prelude.Table.{Table, lookup, insert, erase, lookup-insert, lookup-erase}
use atlasic.Prelude.Exec.{Result, ok, err, no_such_key}
use atlasic.Storage.ObjectStore.{Key, key_eq, Object, ObjectStore, StoreLaws}

abbrev pub starts_with : Key → Key → Bool
starts_with [] k = true
starts_with (a ∷ p) [] = false
starts_with (a ∷ p) (b ∷ k) = if a == b then starts_with p k else false

abbrev pub keys_under : Key → Table Key Object → List Key
keys_under p [] = []
keys_under p ((k, x) ∷ rest) = if starts_with p k then k ∷ keys_under p rest else keys_under p rest

abbrev pub page : Key → Table Key Object → List Key
page p s = take 1000 (keys_under p s)

abbrev pub object_or_error : Option Object → Result Object
object_or_error none = err no_such_key
object_or_error (some x) = ok x

abbrev pub table_store : ObjectStore
table_store = record {
  State = Table Key Object;
  get_object = λ k s. (object_or_error (lookup k s), s);
  put_object = λ k x s. (ok tt, insert k x s);
  delete_object = λ k s. (ok tt, erase k s);
  list_objects = λ p s. (ok (page p s), s);
}

abbrev pub table_store_laws : StoreLaws table_store
table_store_laws = record {
  Works = λ s. Unit;
  object = λ s k. lookup k s;
  keys = λ s p. page p s;
  get_found = λ k s x works e. rw e refl;
  get_missing = λ k s works e. rw e refl;
  put_done = λ k x s works. refl;
  put_works = λ k x s works. tt;
  object-put = λ k x s j works. lookup-insert k j x s;
  delete_done = λ k s works. refl;
  delete_works = λ k s works. tt;
  object-delete = λ k s j works. lookup-erase k j s;
  list_done = λ p s works. refl;
}
