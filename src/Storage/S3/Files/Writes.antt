-- ===== src/Storage/S3/Files/Writes.antt =====
-- Writing a file on S3 (`Write` and `Close` of awsadp/s3_file.go).
use Prim.Native.Nat.{bit_and-bitwise}
use atlasic.Prelude.{
  ℕ, String, Bool, true, false, not, ◌&&◌, ◌||◌, ◌≡◌, refl, ap, Option, none, some, List, [], ◌∷◌,
  ◌++◌, length, append-nil, append_assoc, if◌then◌else◌, ◌==◌, string_eq, Bool-cases, Option-cases,
  inl, inr,
}
use atlasic.Prelude.Exec.{Exec, ok, pure, ◌>>◌}
use atlasic.Storage.S3.Files.{
  Bytes, FileClient, ClientLaws, S3File, new_s3_file, write, close, flushed, has_flag, o_rdonly,
  o_wronly, o_rdwr, o_append, o_trunc,
}

-- No flag says that a file is only for reading.
has_flag-rdonly : (flag : ℕ) → has_flag o_rdonly flag ≡ false
has_flag-rdonly flag = rw (bit_and-bitwise 0 flag) refl

and-false : (b : Bool) → (b && false) ≡ false
and-false true = refl
and-false false = refl

-- The chunks one behind the other.
abbrev pub chunks_joined : List Bytes → Bytes
chunks_joined [] = []
chunks_joined (p ∷ ps) = p ++ chunks_joined ps

module _ (c : FileClient) where
  abbrev pub write_each : List Bytes → Exec (S3File × c.State) (Unit {0})
  write_each [] = pure tt
  write_each (p ∷ ps) = write c p >> write_each ps

-- What of an object stays before what is written.
abbrev pub kept : ℕ → Option Bytes → Bytes
kept flag none = []
kept flag (some b) = if has_flag o_append flag && not (has_flag o_trunc flag) then b else []

module _ (c : FileClient) (laws : ClientLaws c) where
  open laws use {Works, content}

  abbrev opened : String → ℕ → ℕ → Bytes → S3File
  opened key flag perm b = record (new_s3_file key flag perm) { buffer = b; dirty = true }

  first-missing :
      (key : String) (flag perm : ℕ) (s : c.State) (p : Bytes)
      → Works s
      → content s key ≡ none
      → write c p (new_s3_file key flag perm, s) ≡ (ok (length p), (opened key flag perm p, s))
  unfolding write new_s3_file
  first-missing key flag perm s p works missing = elim (Bool-cases (has_flag o_append flag)) [
    | inl appends ↦ elim (Bool-cases (has_flag o_trunc flag)) [
      | inl truncates ↦
          simp (has_flag-rdonly flag, appends, truncates, laws.get_missing key s works missing)
      | inr keeps ↦
          simp (has_flag-rdonly flag, appends, keeps, laws.get_missing key s works missing)
    ]
    | inr replaces ↦ elim (Bool-cases (has_flag o_trunc flag)) [
      | inl truncates ↦ simp (has_flag-rdonly flag, replaces, truncates)
      | inr keeps ↦ simp (has_flag-rdonly flag, replaces, keeps)
    ]
  ]

  first-found :
      (key : String) (flag perm : ℕ) (s : c.State) (p b : Bytes)
      → Works s
      → content s key ≡ some b
      → write c p (new_s3_file key flag perm, s)
        ≡ (ok (length p), (opened key flag perm (kept flag (some b) ++ p), s))
  unfolding write new_s3_file
  first-found key flag perm s p b works found = elim (Bool-cases (has_flag o_append flag)) [
    | inl appends ↦ elim (Bool-cases (has_flag o_trunc flag)) [
      | inl truncates ↦
          simp (has_flag-rdonly flag, appends, truncates, laws.get_found key s b works found)
      | inr keeps ↦ simp (has_flag-rdonly flag, appends, keeps, laws.get_found key s b works found)
    ]
    | inr replaces ↦ elim (Bool-cases (has_flag o_trunc flag)) [
      | inl truncates ↦ simp (has_flag-rdonly flag, replaces, truncates)
      | inr keeps ↦ simp (has_flag-rdonly flag, replaces, keeps)
    ]
  ]

  write-first :
      (key : String) (flag perm : ℕ) (s : c.State) (p : Bytes)
      → Works s
      → write c p (new_s3_file key flag perm, s)
        ≡ (ok (length p), (opened key flag perm (kept flag (content s key) ++ p), s))
  write-first key flag perm s p works = elim (Option-cases (content s key)) [
    | inl missing ↦ rw missing (first-missing key flag perm s p works missing)
    | inr (b, found) ↦ rw found (first-found key flag perm s p b works found)
  ]

  write-more :
      (key : String) (flag perm : ℕ) (s : c.State) (b p : Bytes)
      → write c p (opened key flag perm b, s) ≡ (ok (length p), (opened key flag perm (b ++ p), s))
  unfolding write new_s3_file
  write-more key flag perm s b p = simp (has_flag-rdonly flag, and-false)

  write_each-more :
      (key : String) (flag perm : ℕ) (s : c.State) (b : Bytes) (ps : List Bytes)
      → write_each c ps (opened key flag perm b, s)
        ≡ (ok tt, (opened key flag perm (b ++ chunks_joined ps), s))
  write_each-more key flag perm s b [] = rw (append-nil b) refl
  write_each-more key flag perm s b (p ∷ ps) =
      rw (write-more key flag perm s b p, ← append_assoc b p (chunks_joined ps))
        (write_each-more key flag perm s (b ++ p) ps)

  close-opened :
      (key : String) (flag perm : ℕ) (s : c.State) (b : Bytes)
      → (has_flag o_wronly flag || has_flag o_rdwr flag) ≡ true
      → Works s
      → (f : S3File) × (close c (opened key flag perm b, s)
          ≡ (ok tt, (f, (c.put_object key b s).1)))
  unfolding close new_s3_file
  close-opened key flag perm s b may_write works = (
    record (new_s3_file key flag perm) { buffer = b; closed = true },
    simp may_write (
        ap
          (λ r.
            flushed c
              (record (new_s3_file key flag perm) { buffer = b; closed = true; dirty = true })
              (r, (c.put_object key b s).1))
          (laws.put_done key b s works)),
  )

  -- On a store that works: one or more writes to a new file that is open for writing, and a
  -- close, succeed; the object is then what was kept of it, its content if the file appends
  -- and does not truncate and otherwise nothing, followed by all that was written in order,
  -- and every other object is as before.
  pub close-write_each :
      (key : String) (flag perm : ℕ) (s : c.State) (p : Bytes) (ps : List Bytes)
      → (has_flag o_wronly flag || has_flag o_rdwr flag) ≡ true
      → Works s
      → (f : S3File) × (after : c.State) × ((write_each c (p ∷ ps) >> close c)
            (new_s3_file key flag perm, s)
          ≡ (ok tt, (f, after)))
        × ((j : String)
            → content after j ≡ (
                if key == j
                then some (kept flag (content s key) ++ (p ++ chunks_joined ps))
                else content s j))
  close-write_each key flag perm s p ps may_write works =
      let b = (kept flag (content s key) ++ p) ++ chunks_joined ps in
      let (f, closes) = close-opened key flag perm s b may_write works in
      (
        f,
        (c.put_object key b s).1,
        rw
            (
              write-first key flag perm s p works,
              write_each-more key flag perm s (kept flag (content s key) ++ p) ps,
              closes,
            )
            refl,
        λ j.
            rw (← append_assoc (kept flag (content s key)) p (chunks_joined ps))
              (laws.content-put key b s j works),
      )

  -- On a store that works: one or more writes to a new file that is not open for writing,
  -- and a close, report no error, and the store is as before.
  pub close-read_only :
      (key : String) (flag perm : ℕ) (s : c.State) (p : Bytes) (ps : List Bytes)
      → (has_flag o_wronly flag || has_flag o_rdwr flag) ≡ false
      → Works s
      → (f : S3File) × ((write_each c (p ∷ ps) >> close c) (new_s3_file key flag perm, s)
          ≡ (ok tt, (f, s)))
  unfolding close new_s3_file
  close-read_only key flag perm s p ps no_write works = (
    record (new_s3_file key flag perm) {
      buffer = (kept flag (content s key) ++ p) ++ chunks_joined ps;
      closed = true;
      dirty = true;
    },
    rw
        (
          write-first key flag perm s p works,
          write_each-more key flag perm s (kept flag (content s key) ++ p) ps,
          no_write,
        )
        refl,
  )
