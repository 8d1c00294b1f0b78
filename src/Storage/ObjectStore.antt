-- ===== src/Storage/ObjectStore.antt =====
-- The object store that awsadp/s3_storage.go calls (`GetObject`, `PutObject`, `DeleteObject` and
-- `ListObjectsV2` of the AWS client), as a parameter: the calls, and what is documented of them.
--
-- A key is the list of the segments that `path.Join` puts together, which are taken to be plain
-- names. What is stored is the JSON of one of four structures; one of another kind does not decode.
pub mod Tables
use atlasic.Prelude.{
  ℕ, String, Bool, true, false, ◌&&◌, ◌≡◌, ◌↔◌, Option, none, some, List, [], ◌∷◌, ◌==◌, Eq,
  string_eq, arith, eq_iff, if◌then◌else◌,
}
use atlasic.Prelude.Exec.{Exec, ok, err, no_such_key}
use atlasic.A2a.{Task, StreamResponse, TaskPushNotificationConfig}

abbrev pub Key : Type 0
Key = List String

abbrev pub key_beq : Key → Key → Bool
key_beq [] [] = true
key_beq [] (b ∷ bs) = false
key_beq (a ∷ as_) [] = false
key_beq (a ∷ as_) (b ∷ bs) = (a == b) && key_beq as_ bs

pub key_beq_iff : (j k : Key) → (key_beq j k ≡ true) ↔ (j ≡ k)
key_beq_iff [] [] = ground arith
key_beq_iff [] (b ∷ bs) = ground arith
key_beq_iff (a ∷ as_) [] = ground arith
key_beq_iff (a ∷ as_) (b ∷ bs) = ground (arith, eq_iff a b, key_beq_iff as_ bs)

instance abbrev pub key_eq : Eq Key
key_eq = record { beq = key_beq; beq_iff = key_beq_iff }

pub data Object : Type 0 where
  task_object : Task × ℕ → Object
  events_object : List StreamResponse × ℕ → Object
  config_object : TaskPushNotificationConfig → Object
  index_object : String → Object

-- The client. A listing is one page, a thousand keys at most: those under a prefix, which is a whole
-- number of segments since the text that is sent ends with a slash.
pub record ObjectStore : Type 1 where
  pub State : Type 0
  pub get_object : Key → Exec State Object
  pub put_object : Key → Object → Exec State (Unit {0})
  pub delete_object : Key → Exec State (Unit {0})
  pub list_objects : Key → Exec State (List Key)

-- What is relied on: there are states in which no call fails but for a missing key, an object that
-- was put is read under its key, a read and a listing change nothing.
pub record StoreLaws (o : ObjectStore) : Type 1 where
  pub Works : o.State → Type 0
  pub object : o.State → Key → Option Object
  pub keys : o.State → Key → List Key
  pub get_found :
      (k : Key) (s : o.State) (x : Object)
      → Works s
      → object s k ≡ some x
      → o.get_object k s ≡ (ok x, s)
  pub get_missing :
      (k : Key) (s : o.State)
      → Works s
      → object s k ≡ none
      → o.get_object k s ≡ (err no_such_key, s)
  pub put_done : (k : Key) (x : Object) (s : o.State) → Works s → (o.put_object k x s).0 ≡ ok tt
  pub put_works : (k : Key) (x : Object) (s : o.State) → Works s → Works (o.put_object k x s).1
  pub object-put :
      (k : Key) (x : Object) (s : o.State) (j : Key)
      → Works s
      → object (o.put_object k x s).1 j ≡ (if k == j then some x else object s j)
  pub delete_done : (k : Key) (s : o.State) → Works s → (o.delete_object k s).0 ≡ ok tt
  pub delete_works : (k : Key) (s : o.State) → Works s → Works (o.delete_object k s).1
  pub object-delete :
      (k : Key) (s : o.State) (j : Key)
      → Works s
      → object (o.delete_object k s).1 j ≡ (if k == j then none else object s j)
  pub list_done : (p : Key) (s : o.State) → Works s → o.list_objects p s ≡ (ok (keys s p), s)
