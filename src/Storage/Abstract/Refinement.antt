-- ===== src/Storage/Abstract/Refinement.antt =====
-- Every backend with the laws of the storage interface refines the abstract storage.
use atlasic.Prelude.{
  ℕ, String, true, false, ◌≡◌, ◌≢◌, refl, sym, ap, ◌∙◌, List, [], ◌∷◌, pair_eq, string_eq, nat_eq,
  u64, ℤ, pos, length, arith, Option-cases, inl, inr,
}
use mathlib.Core.Path.{fun_ext}
use native.Mathlib.Decide.{ℕ_discrete}
use atlasic.Prelude.Exec.{ok}
use atlasic.A2a.{Task, StreamResponse}
use atlasic.Storage.{Storage, Lawful, CanSave}
use atlasic.Storage.Abstract.{
  Abstract, Request, Reply, get_task, save_task, append, load, saved, appended, step, steps, call,
  calls, IsCommon, AreCommon, with_snapshot,
}

nat_eq_of : (a b : ℕ) → a ≡ b → nat_eq a b ≡ true
nat_eq_of a b e = ground arith

nat_eq_ne : (a b : ℕ) → a ≢ b → nat_eq a b ≡ false
nat_eq_ne a b ne = ground arith

module _ (st : Storage) (laws : Lawful st) where
  open laws use {
    Ready, snapshot, stream, get_task_found, get_task_missing, append_current, append_stale,
    append_ready, stream-append, snapshot-append, save_task_current, save_task_stale,
    save_task_ready, snapshot-save_task, stream-save_task, load_lem,
  }

  -- What a backend's state stands for.
  abbrev pub view : st.State → Abstract
  view s = record { snapshot = snapshot s; stream = stream s }

  -- A call that answers as the abstract step does, and ends in a state that is ready and stands for
  -- the abstract one.
  pub record Refines (end : Reply × st.State) (spec : Reply × Abstract) : Type 0 where
    pub reply : end.0 ≡ spec.0
    pub ready : Ready end.1
    pub viewed : view end.1 ≡ spec.1

  unchanged-Refines :
      (s : st.State) (end : Reply × st.State) (spec : Reply × Abstract) (r : Reply)
      → Ready s
      → end ≡ (r, s)
      → spec ≡ (r, view s)
      → Refines end spec
  unchanged-Refines s end spec r ready e f =
      rw (e, f) (record { reply = refl; ready = ready; viewed = refl })

  call_get-Refines :
      (id : String) (h : ℤ) (s : st.State)
      → Ready s
      → h ≢ pos 0
      → Refines (call st (get_task id h) s) (step (get_task id h) (view s))
  unfolding call step
  call_get-Refines id h s ready ne = elim (Option-cases (snapshot s id)) [
    | inl missing ↦
        rw (get_task_missing id h s ready missing, missing)
          (record { reply = refl; ready = ready; viewed = refl })
    | inr ((t, v), e) ↦
        rw (get_task_found id h s t v ready ne e, e)
          (record { reply = refl; ready = ready; viewed = refl })
  ]

  module _ (t : Task) (expected new : ℕ) (s : st.State) (ready : Ready s)
      (can : CanSave (snapshot s t.id) expected) where
    saved_view : view (st.save_task t expected new s).1 ≡ with_snapshot t new (view s)
    saved_view = λ i. record {
      snapshot = fun_ext (λ id. snapshot-save_task t expected new s id ready can) i;
      stream = fun_ext (λ key. stream-save_task t expected new s key ready can) i;
    }

    save_current-Refines :
        Refines (call st (save_task t expected new) s) (saved (ok tt), with_snapshot t new (view s))
    unfolding call
    save_current-Refines = record {
      reply = ap saved (save_task_current t expected new s ready can);
      ready = save_task_ready t expected new s ready can;
      viewed = saved_view;
    }

  call_save-Refines :
      (t : Task) (expected new : ℕ) (s : st.State)
      → Ready s
      → Refines (call st (save_task t expected new) s) (step (save_task t expected new) (view s))
  unfolding step
  call_save-Refines t expected new s ready = elim (Option-cases (snapshot s t.id)) [
    | inl missing ↦ rw missing (save_current-Refines t expected new s ready (rw missing tt))
    | inr ((old, v), e) ↦ elim (ℕ_discrete expected v) [
      | yes same ↦
          rw (e, nat_eq_of expected v same)
            (save_current-Refines t expected new s ready (rw e same))
      | no ne ↦
          rw (e, nat_eq_ne expected v ne)
            (unfold call in
              rw (save_task_stale t expected new s old v ready e ne)
                (record { reply = refl; ready = ready; viewed = refl }))
    ]
  ]

  call_append-Refines :
      (c t : String) (expected : ℕ) (es : List StreamResponse) (s : st.State)
      → Ready s
      → Refines (call st (append c t expected es) s) (step (append c t expected es) (view s))
  unfolding call step
  call_append-Refines c t expected es s ready =
      elim (ℕ_discrete expected (u64 (length (stream s (c, t))))) [
        | yes e ↦ rw (nat_eq_of expected (u64 (length (stream s (c, t)))) e) (record {
          reply = ap appended (append_current c t expected es s ready e);
          ready = append_ready c t expected es s ready e;
          viewed = λ i. record {
            snapshot = fun_ext (λ id. snapshot-append c t expected es s id ready e) i;
            stream = fun_ext (λ key. stream-append c t expected es s key ready e) i;
          };
        })
        | no ne ↦
            rw
              (
                nat_eq_ne expected (u64 (length (stream s (c, t)))) ne,
                append_stale c t expected es s ready ne,
              )
              (record { reply = refl; ready = ready; viewed = refl })
      ]

  call_load-Refines :
      (c t : String) (start : ℕ) (limit : ℤ) (s : st.State)
      → Ready s
      → Refines (call st (load c t start limit) s) (step (load c t start limit) (view s))
  unfolding call step
  call_load-Refines c t start limit s ready =
      rw (load_lem c t start limit s ready) (record { reply = refl; ready = ready; viewed = refl })

  call-Refines :
      (x : Request) (s : st.State) → Ready s → IsCommon x → Refines (call st x s) (step x (view s))
  call-Refines (get_task id h) s ready ne = call_get-Refines id h s ready ne
  call-Refines (save_task t expected new) s ready common = call_save-Refines t expected new s ready
  call-Refines (append c t expected es) s ready common = call_append-Refines c t expected es s ready
  call-Refines (load c t start limit) s ready common = call_load-Refines c t start limit s ready

  -- Whatever of the four requests are made on a backend that is ready, none of them for a history
  -- length of 0, each call answers as the abstract storage does,
  -- and the backend ends in a state that is ready and stands for the abstract one.
  pub calls-refines :
      (xs : List Request) (s : st.State)
      → Ready s
      → AreCommon xs
      → ((calls st xs s).0 ≡ (steps xs (view s)).0)
        × Ready (calls st xs s).1
        × (view (calls st xs s).1 ≡ (steps xs (view s)).1)
  unfolding calls steps
  calls-refines [] s ready common = (refl, ready, refl)
  calls-refines (x ∷ xs) s ready (one, common) =
      let first = call-Refines x s ready one in
      let (replies, ready', viewed) = calls-refines xs (call st x s).1 first.ready common in
      rw (sym first.reply, sym first.viewed) (rw replies refl, ready', viewed)

-- Two backends that stand for the same storage cannot be told apart by any calls.
pub calls_agree :
    (st : Storage) (laws : Lawful st) (st' : Storage) (laws' : Lawful st') (xs : List Request)
    (s : st.State) (s' : st'.State)
    → laws.Ready s
    → laws'.Ready s'
    → view st laws s ≡ view st' laws' s'
    → AreCommon xs
    → (calls st xs s).0 ≡ (calls st' xs s').0
calls_agree st laws st' laws' xs s s' ready ready' same common =
    (calls-refines st laws xs s ready common).0
    ∙ rw same (sym (calls-refines st' laws' xs s' ready' common).0)
