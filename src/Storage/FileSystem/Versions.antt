-- ===== src/Storage/FileSystem/Versions.antt =====
-- Optimistic concurrency in the file system backend (filesystem_storage.go): which writes are let
-- through, what they leave on the disk, and what a reader then gets.
use atlasic.Prelude.{
  ℕ, ◌+◌, String, ◌≡◌, ◌≢◌, refl, List, ◌++◌, u64, length, arith, ◌==◌, if◌then◌else◌, pair_eq,
  string_eq, ◌<◌, ◌^◌, length-append, drop-append, beq_self, ◌⊎◌, inl, inr, negsuc,
}
use native.Mathlib.Decide.{ℕ_discrete}
use atlasic.Prelude.Exec.{ok, err, version_mismatch}
use atlasic.A2a.{StreamResponse}
use atlasic.Storage.FileSystem.{Disk, append, load}
use atlasic.Storage.FileSystem.Ready.{IsReady, snapshot, stream}
use atlasic.Storage.FileSystem.Laws.{
  appended, append-current, append-stale, appended-IsReady, stream-appended, load-ready,
}

abbrev pub version_of : Disk → String × String → ℕ
version_of d key = u64 (length (stream d key))

-- On a disk that works, `Append` either finds the version that is expected, returns the version
-- after the new events, puts these behind the stream's events and leaves every other stream and
-- every snapshot alone; or it finds another version, returns the mismatch and changes nothing. In
-- both cases the disk goes on working, with versions that count the events.
pub append_lem :
    (c t : String) (expected : ℕ) (es : List StreamResponse) (d : Disk)
    → IsReady d
    → let (r, d') = append c t expected es d in
      IsReady d'
      × (((expected ≡ version_of d (c, t))
            × (r ≡ ok (u64 (expected + length es)))
            × ((key : String × String)
                → stream d' key ≡ (if (c, t) == key then stream d (c, t) ++ es else stream d key))
            × ((id : String) → snapshot d' id ≡ snapshot d id))
          ⊎ ((expected ≢ version_of d (c, t))
              × (r ≡ err (version_mismatch expected (version_of d (c, t))))
              × (d' ≡ d)))
append_lem c t expected es d ready = elim (ℕ_discrete expected (version_of d (c, t))) [
  | yes e ↦ rw (append-current c t expected es d ready e) (
    appended-IsReady c t expected es d ready,
    inl (e, refl, stream-appended c t expected es d ready, λ id. refl),
  )
  | no ne ↦ rw (append-stale c t expected es d ready ne) (ready, inr (ne, refl, refl))
]

module _ (c t : String) (expected : ℕ) (es : List StreamResponse) (d : Disk)
    (ready : IsReady d) where
  stream-appended_self : stream (appended c t expected es d ready) (c, t) ≡ stream d (c, t) ++ es
  stream-appended_self =
      rw (stream-appended c t expected es d ready (c, t), beq_self {A = String × String} (c, t))
        refl

  version_of-appended :
      expected ≡ version_of d (c, t)
      → version_of (appended c t expected es d ready) (c, t) ≡ u64 (expected + length es)
  version_of-appended e =
      rw stream-appended_self (omega (arith, length-append (stream d (c, t)) es))

version_moves : (n k v : ℕ) → 0 < k → n + k < 2 ^ 64 → v ≡ u64 n → v ≢ u64 (v + k)
version_moves n k v h fits e = omega arith

version_is_length : (n k v : ℕ) → n + k < 2 ^ 64 → v ≡ u64 n → n ≡ v
version_is_length n k v fits e = omega arith

-- Of two writers that expect the same version, the second is refused if the first wrote anything.
pub append-append_stale :
    (c t : String) (expected : ℕ) (es fs : List StreamResponse) (d : Disk)
    → IsReady d
    → expected ≡ version_of d (c, t)
    → 0 < length es
    → length (stream d (c, t)) + length es < 2 ^ 64
    → (append c t expected fs (append c t expected es d).1).0
      ≡ err (version_mismatch expected (u64 (expected + length es)))
append-append_stale c t expected es fs d ready e some_ fits =
    let after = appended c t expected es d ready in
    let moved : expected ≢ version_of after (c, t) =
      rw (version_of-appended c t expected es d ready e)
        (version_moves (length (stream d (c, t))) (length es) expected some_ fits e) in
    rw (append-current c t expected es d ready e) (
      rw (append-stale c t expected fs after (appended-IsReady c t expected es d ready) moved)
        (rw (version_of-appended c t expected es d ready e) refl))

-- A reader that polls from the version before a write gets the events of that write, and the
-- version after it.
pub load-append :
    (c t : String) (expected n : ℕ) (es : List StreamResponse) (d : Disk)
    → IsReady d
    → expected ≡ version_of d (c, t)
    → length (stream d (c, t)) + length es < 2 ^ 64
    → (load c t expected (negsuc n) (append c t expected es d).1).0
      ≡ ok (es, u64 (expected + length es))
load-append c t expected n es d ready e fits =
    let after = appended c t expected es d ready in
    rw (append-current c t expected es d ready e) (
      rw (load-ready c t expected (negsuc n) after (appended-IsReady c t expected es d ready)) (
        rw
          (
            version_of-appended c t expected es d ready e,
            stream-appended_self c t expected es d ready,
            drop-append expected (stream d (c, t)) es
                (version_is_length (length (stream d (c, t))) (length es) expected fits e),
          )
          refl))
