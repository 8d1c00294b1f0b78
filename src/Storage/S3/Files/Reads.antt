-- ===== src/Storage/S3/Files/Reads.antt =====
-- Reading a file on S3 (`Read` of awsadp/s3_file.go).
use atlasic.Prelude.{
  ℕ, zero, suc, ◌<◌, String, false, ◌≡◌, refl, ◌⊎◌, some, List, [], ◌∷◌, take, drop, arith, inl,
  inr,
}
use atlasic.Prelude.Exec.{Result, ok, err}
use atlasic.Storage.S3.Files.{
  Bytes, FileClient, ClientLaws, S3File, new_s3_file, read, has_flag, o_wronly,
}

Bytes-cases : (bytes : Bytes) → (bytes ≡ []) ⊎ ((b : ℕ) × (bs : Bytes) × (bytes ≡ b ∷ bs))
Bytes-cases [] = inl refl
Bytes-cases (b ∷ bs) = inr (b, bs, refl)

module _ (c : FileClient) where
  -- What the calls of `Read` return, one after another, for slices of these lengths.
  abbrev pub read_all : List ℕ → S3File × c.State → List (Result Bytes)
  read_all [] o = []
  read_all (n ∷ sizes) o = let (r, o') = read c n o in r ∷ read_all sizes o'

-- The call read at least one byte.
abbrev pub IsData : Result Bytes → Type 0
IsData (ok []) = ⊥
IsData (ok (b ∷ bs)) = Unit
IsData (err e) = ⊥

abbrev pub AllData : List (Result Bytes) → Type 0
AllData [] = Unit
AllData (r ∷ rs) = IsData r × AllData rs

abbrev pub AllPositive : List ℕ → Type 0
AllPositive [] = Unit
AllPositive (n ∷ sizes) = (0 < n) × AllPositive sizes

module _ (c : FileClient) (laws : ClientLaws c) where
  open laws use {Works, content}

  -- Open for reading, and the object has content.
  pub record IsReadable (f : S3File) (s : c.State) : Type 0 where
    pub first : ℕ
    pub others : Bytes
    pub works : Works s
    pub has_content : content s f.key ≡ some (first ∷ others)
    pub is_open : f.closed ≡ false
    pub is_clean : f.dirty ≡ false
    pub may_read : has_flag o_wronly f.flag ≡ false

  IsReadable-on :
      (f : S3File) (s : c.State) (b : Bytes)
      → IsReadable f s
      → IsReadable (record f { buffer = b }) s
  IsReadable-on f s b r = record {
    first = r.first;
    others = r.others;
    works = r.works;
    has_content = r.has_content;
    is_open = r.is_open;
    is_clean = r.is_clean;
    may_read = r.may_read;
  }

  read-IsData :
      (m : ℕ) (f : S3File) (s : c.State)
      → IsReadable f s
      → (chunk : Bytes) × (f' : S3File) × (read c (suc m) (f, s) ≡ (ok chunk, (f', s)))
        × IsData (ok chunk)
        × IsReadable f' s
  unfolding read
  read-IsData m f s readable = elim (Bytes-cases f.buffer) [
    | inl empty ↦ (
      readable.first ∷ take m readable.others,
      record f { buffer = drop m readable.others },
      simp (
        readable.is_open,
        readable.may_read,
        readable.is_clean,
        empty,
        laws.get_found f.key s (readable.first ∷ readable.others) readable.works
            readable.has_content,
      ),
      tt,
      IsReadable-on f s _ readable,
    )
    | inr (b, bs, filled) ↦ (
      b ∷ take m bs,
      record f { buffer = drop m bs },
      simp (readable.is_open, readable.may_read, filled),
      tt,
      IsReadable-on f s _ readable,
    )
  ]

  read_all-AllData :
      (sizes : List ℕ) (f : S3File) (s : c.State)
      → AllPositive sizes
      → IsReadable f s
      → AllData (read_all c sizes (f, s))
  read_all-AllData [] f s h readable = tt
  read_all-AllData (zero ∷ sizes) f s h readable = absurd (omega arith)
  read_all-AllData (suc m ∷ sizes) f s h readable =
      let (chunk, f', done, is_data, readable') = read-IsData m f s readable in
      rw done (is_data, read_all-AllData sizes f' s h.1 readable')

  -- On a store that works, for a new file that is not write-only and whose object has
  -- content: however often it is read, each read into a slice that is not empty gives at
  -- least one byte, and the end of the file is never reported.
  pub read-never_ends :
      (key : String) (flag perm : ℕ) (s : c.State) (b : ℕ) (bs : Bytes) (sizes : List ℕ)
      → Works s
      → content s key ≡ some (b ∷ bs)
      → has_flag o_wronly flag ≡ false
      → AllPositive sizes
      → AllData (read_all c sizes (new_s3_file key flag perm, s))
  unfolding new_s3_file
  read-never_ends key flag perm s b bs sizes works found may_read positive =
      read_all-AllData sizes (new_s3_file key flag perm) s positive (record {
        first = b;
        others = bs;
        works = works;
        has_content = found;
        is_open = refl;
        is_clean = refl;
        may_read = may_read;
      })
