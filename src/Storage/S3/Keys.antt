-- ===== src/Storage/S3/Keys.antt =====
-- The keys of awsadp/s3_storage.go: when two are the same, and what is read back from them.
use text.Mathlib.TextLemmas.{append_cancel_right}
use atlasic.Prelude.{
  String, Bool, true, false, ◌&&◌, ◌≡◌, refl, ◌∙◌, [], ◌∷◌, ◌++◌, ◌==◌, string_eq, pair_eq, eq_iff,
  Bool-cases, inl, inr, beq_self, pair_beq,
}
use atlasic.Prelude.Texts.{concat}
use atlasic.Storage.ObjectStore.{Key, key_beq, key_eq}
use atlasic.Storage.S3.{task_key, events_key, context_index_key, push_config_key}

concat-beq : (s t x : String) → (concat s x == concat t x) ≡ (s == t)
concat-beq s t x = elim (Bool-cases (s == t)) [
  | inl same ↦ let e : s ≡ t = (eq_iff s t).0 same in rw (e, beq_self t, beq_self (concat t x)) refl
  | inr other ↦ elim (Bool-cases (concat s x == concat t x)) [
    | inl same ↦
        let e : s ≡ t = append_cancel_right s t x ((eq_iff (concat s x) (concat t x)).0 same) in
        cc ((eq_iff s t).1 e)
    | inr apart ↦ rw (other, apart) refl
  ]
]

append-key_beq : (p a b : Key) → key_beq (p ++ a) (p ++ b) ≡ key_beq a b
append-key_beq [] a b = refl
append-key_beq (x ∷ p) a b = rw (beq_self x) (append-key_beq p a b)

and_true : (b : Bool) → (b && true) ≡ b
and_true true = refl
and_true false = refl

module _ (p : Key) where
  pub task_key-beq : (i j : String) → key_beq (task_key p i) (task_key p j) ≡ (i == j)
  unfolding task_key
  task_key-beq i j =
      append-key_beq p ("tasks" ∷ concat i ".json" ∷ []) ("tasks" ∷ concat j ".json" ∷ [])
      ∙ and_true (concat i ".json" == concat j ".json")
      ∙ concat-beq i j ".json"

  pub events_key-beq :
      (c t c' t' : String)
      → key_beq (events_key p c t) (events_key p c' t') ≡ pair_beq (c, t) (c', t')
  unfolding events_key
  events_key-beq c t c' t' =
      append-key_beq p ("events" ∷ c ∷ concat t ".json" ∷ [])
        ("events" ∷ c' ∷ concat t' ".json" ∷ [])
      ∙ rw (and_true (concat t ".json" == concat t' ".json"), concat-beq t t' ".json") refl

  pub push_config_key-beq :
      (t c t' c' : String)
      → key_beq (push_config_key p t c) (push_config_key p t' c') ≡ pair_beq (t, c) (t', c')
  unfolding push_config_key
  push_config_key-beq t c t' c' =
      append-key_beq p ("push-configs" ∷ t ∷ concat c ".json" ∷ [])
        ("push-configs" ∷ t' ∷ concat c' ".json" ∷ [])
      ∙ rw (and_true (concat c ".json" == concat c' ".json"), concat-beq c c' ".json") refl

  pub events_key-ne-task_key : (c t i : String) → key_beq (events_key p c t) (task_key p i) ≡ false
  unfolding events_key task_key
  events_key-ne-task_key c t i = append-key_beq p _ _

  pub task_key-ne-events_key : (i c t : String) → key_beq (task_key p i) (events_key p c t) ≡ false
  unfolding events_key task_key
  task_key-ne-events_key i c t = append-key_beq p _ _

  pub index_key-ne-task_key :
      (c t i : String) → key_beq (context_index_key p c t) (task_key p i) ≡ false
  unfolding context_index_key task_key
  index_key-ne-task_key c t i = append-key_beq p _ _

  pub index_key-ne-events_key :
      (c t c' t' : String) → key_beq (context_index_key p c t) (events_key p c' t') ≡ false
  unfolding context_index_key events_key
  index_key-ne-events_key c t c' t' = append-key_beq p _ _
