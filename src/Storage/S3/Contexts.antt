-- ===== src/Storage/S3/Contexts.antt =====
-- `S3Storage.ListTasksByContext` (awsadp/s3_storage.go) on what the store lists.
use atlasic.Prelude.{
  ℕ, String, false, ◌≡◌, refl, ◌∙◌, Option, none, some, List, [], ◌∷◌, ◌++◌, ◌==◌, string_eq, map,
  append_assoc, append-nil, Option-cases, inl, inr, ℤ,
}
use atlasic.Prelude.Texts.{concat, trim_suffix-concat}
use atlasic.Prelude.Exec.{ok}
use atlasic.A2a.{Task}
use atlasic.Storage.{limit_task}
use atlasic.Storage.ObjectStore.{Key, ObjectStore, StoreLaws}
use atlasic.Storage.S3.{
  context_index_key, context_prefix, extract_after, extract_task_id_from_context_key, read_tasks,
  list_tasks_by_context,
}
use atlasic.Storage.S3.Reading.{IsReady, snapshot, get_task-missing, get_task-found}

-- No segment of the prefix has the name of the directory.
abbrev pub IsFreeOf : String → Key → Type 0
IsFreeOf directory [] = Unit
IsFreeOf directory (part ∷ rest) = ((part == directory) ≡ false) × IsFreeOf directory rest

extract_after-prefix :
    (directory extension : String) (p rest : Key)
    → IsFreeOf directory p
    → extract_after directory extension (p ++ rest) ≡ extract_after directory extension rest
unfolding extract_after
extract_after-prefix directory extension [] rest free = refl
extract_after-prefix directory extension (part ∷ p) rest (other, free) =
    rw other (extract_after-prefix directory extension p rest free)

pub extract-context_index_key :
    (p : Key) (context_id task_id : String)
    → IsFreeOf "contexts" p
    → extract_task_id_from_context_key (context_index_key p context_id task_id) ≡ task_id
unfolding context_index_key
extract-context_index_key p context_id task_id free =
    extract_after-prefix "contexts" ".txt" p ("contexts" ∷ context_id ∷ concat task_id ".txt" ∷ [])
      free
    ∙ unfold extract_after in trim_suffix-concat task_id ".txt"

abbrev pub AllNamed : List String → Type 0
AllNamed [] = Unit
AllNamed (id ∷ ids) = ((id == "") ≡ false) × AllNamed ids

-- The tasks of these ids that are there, with their histories cut.
abbrev pub add_known : ℤ → Option (Task × ℕ) → List (Task × ℕ) → List (Task × ℕ)
add_known h none ts = ts
add_known h (some (t, v)) ts = (limit_task h t, v) ∷ ts

abbrev pub known : ℤ → (String → Option (Task × ℕ)) → List String → List (Task × ℕ)
known h find [] = []
known h find (id ∷ ids) = add_known h (find id) (known h find ids)

module _ (o : ObjectStore) (p : Key) (laws : StoreLaws o) (free : IsFreeOf "contexts" p)
    (context_id : String) where
  open laws use {Works, keys, list_done}

  read_tasks_lem :
      (h : ℤ) (ids : List String) (ts : List (Task × ℕ)) (s : o.State)
      → IsReady o p laws s
      → AllNamed ids
      → read_tasks o p h (map (context_index_key p context_id) ids) ts s
        ≡ (ok (ts ++ known h (snapshot o p laws s) ids), s)
  unfolding read_tasks
  read_tasks_lem h [] ts s ready named = rw append-nil refl
  read_tasks_lem h (id ∷ ids) ts s ready (one, named) =
      let same = extract-context_index_key p context_id id free in
      elim (Option-cases (snapshot o p laws s id)) [
        | inl missing ↦
            rw (same, one, get_task-missing o p laws id h s ready missing, missing)
              (read_tasks_lem h ids ts s ready named)
        | inr ((t, v), found) ↦
            rw (same, one, get_task-found o p laws id h s ready t v found, found)
              (read_tasks_lem h ids (ts ++ ((limit_task h t, v) ∷ [])) s ready named
                ∙ rw append_assoc refl)
      ]

  -- Where the store lists the index entries of some tasks of a context, the listing of that context
  -- is these tasks, each at its version and with its history cut, in the store's order and without
  -- those that have no snapshot, if no segment of the prefix is called "contexts".
  pub list_tasks_by_context_lem :
      (h : ℤ) (id : String) (ids : List String) (s : o.State)
      → IsReady o p laws s
      → AllNamed (id ∷ ids)
      → keys s (context_prefix p context_id) ≡ map (context_index_key p context_id) (id ∷ ids)
      → list_tasks_by_context o p context_id h s
        ≡ (ok (known h (snapshot o p laws s) (id ∷ ids)), s)
  unfolding list_tasks_by_context
  list_tasks_by_context_lem h id ids s ready named listed =
      rw (list_done (context_prefix p context_id) s ready.works, listed)
        (read_tasks_lem h (id ∷ ids) [] s ready named)
