-- ===== src/Updater/Artifacts.antt =====
-- `UpsertArtifact` (task_updater.go) as a map from artifact ids to artifacts.
use atlasic.Prelude.{
  String, Bool, true, false, ◌≡◌, refl, Option, none, some, List, [], ◌∷◌, ◌++◌, map, arith, ◌==◌,
  string_eq, eq_iff, if◌then◌else◌,
}
use atlasic.A2a.{Artifact}
use atlasic.Updater.{upsert}

-- The first artifact with an id.
abbrev pub artifact_by_id : String → List Artifact → Option Artifact
artifact_by_id id [] = none
artifact_by_id id (x ∷ xs) = if x.artifact_id == id then some x else artifact_by_id id xs

abbrev pub ids : List Artifact → List String
ids = map (λ a. a.artifact_id)

abbrev pub has_id : String → List Artifact → Bool
has_id id [] = false
has_id id (x ∷ xs) = if x.artifact_id == id then true else has_id id xs

-- After an upsert its id has the new artifact, and every other id has what it had.
pub artifact_by_id-upsert :
    (id : String) (a : Artifact) (xs : List Artifact)
    → artifact_by_id id (upsert a xs)
      ≡ (if a.artifact_id == id then some a else artifact_by_id id xs)
unfolding upsert
artifact_by_id-upsert id a [] = refl
artifact_by_id-upsert id a (x ∷ xs) = ground (
  arith,
  eq_iff x.artifact_id a.artifact_id,
  eq_iff x.artifact_id id,
  eq_iff a.artifact_id id,
  artifact_by_id-upsert id a xs,
)

-- An upsert of a known id keeps the ids and their order; one of a new id adds it at the end.
pub ids-upsert :
    (a : Artifact) (xs : List Artifact)
    → ids (upsert a xs) ≡ (if has_id a.artifact_id xs then ids xs else ids xs ++ a.artifact_id ∷ [])
unfolding upsert
ids-upsert a [] = refl
ids-upsert a (x ∷ xs) = ground (arith, eq_iff x.artifact_id a.artifact_id, ids-upsert a xs)
