-- ===== src/Storage/S3/Files.antt =====
-- A file of the virtual file systems on S3 (awsadp/s3_file.go): an object that is read and written
-- through a buffer.
--
-- The calls of the AWS client are a parameter, and bytes are numbers. The flags are those of package
-- os on Unix, where O_RDONLY is 0.
pub mod Reads
pub mod Writes
use Prim.Native.Nat.{bit_and}
use atlasic.Prelude.{
  ℕ, zero, suc, String, Bool, true, false, not, ◌&&◌, ◌||◌, ◌≡◌, Option, none, some, List, [], ◌∷◌,
  ◌++◌, ◌==◌, string_eq, nat_eq, if◌then◌else◌, length, take, drop,
}
use atlasic.Prelude.Texts.{split}
use atlasic.Prelude.Exec.{
  Exec, Result, ok, err, Error, wrap, no_such_key, file_not_found, end_of_file, file_closed,
  wrong_mode, pure, raise, ◌>>=◌, ◌>>◌,
}

abbrev pub Bytes : Type 0
Bytes = List ℕ

pub record FileClient : Type 1 where
  pub State : Type 0
  pub get_object : String → Exec State Bytes
  pub put_object : String → Bytes → Exec State (Unit {0})

-- What is relied on: there are states in which no call fails but for a missing key, and in which an
-- object that was put is read under its key.
pub record ClientLaws (c : FileClient) : Type 1 where
  pub Works : c.State → Type 0
  pub content : c.State → String → Option Bytes
  pub get_found :
      (k : String) (s : c.State) (b : Bytes)
      → Works s
      → content s k ≡ some b
      → c.get_object k s ≡ (ok b, s)
  pub get_missing :
      (k : String) (s : c.State)
      → Works s
      → content s k ≡ none
      → c.get_object k s ≡ (err no_such_key, s)
  pub put_done : (k : String) (b : Bytes) (s : c.State) → Works s → (c.put_object k b s).0 ≡ ok tt
  pub content-put :
      (k : String) (b : Bytes) (s : c.State) (j : String)
      → Works s
      → content (c.put_object k b s).1 j ≡ (if k == j then some b else content s j)

abbrev pub o_rdonly : ℕ
o_rdonly = 0

abbrev pub o_wronly : ℕ
o_wronly = 1

abbrev pub o_rdwr : ℕ
o_rdwr = 2

abbrev pub o_trunc : ℕ
o_trunc = 0x200

abbrev pub o_append : ℕ
o_append = 0x400

-- `flag & mask != 0`
abbrev pub has_flag : ℕ → ℕ → Bool
has_flag mask flag = not (nat_eq (bit_and mask flag) 0)

-- `buffer` is what of the `bytes.Buffer` is not read yet.
pub record S3File : Type 0 where
  pub key : String
  pub flag : ℕ
  pub perm : ℕ
  pub buffer : Bytes
  pub closed : Bool
  pub dirty : Bool

pub record S3FileInfo : Type 0 where
  pub name : String
  pub size : ℕ
  pub mode : ℕ

unfoldable pub new_s3_file : String → ℕ → ℕ → S3File
new_s3_file key flag perm = record {
  key = key;
  flag = flag;
  perm = perm;
  buffer = [];
  closed = false;
  dirty = false;
}

abbrev pub is_empty : Bytes → Bool
is_empty [] = true
is_empty (b ∷ bs) = false

-- `filepath.Base` of a key, which does not end with a slash.
abbrev pub last_segment : List String → String
last_segment [] = ""
last_segment (s ∷ []) = s
last_segment (s ∷ t ∷ rest) = last_segment (t ∷ rest)

unfoldable pub stat : S3File → Result S3FileInfo
stat f =
    if f.closed
    then err file_closed
    else ok (record { name = last_segment (split 47 f.key); size = length f.buffer; mode = f.perm })

module _ (c : FileClient) where
  -- The file and the store.
  abbrev pub Opened : Type 0
  Opened = S3File × c.State

  abbrev pub loaded : S3File → Result Bytes × c.State → Result (Unit {0}) × Opened
  loaded f (ok content, s) = (ok tt, (record f { buffer = content }, s))
  loaded f (err no_such_key, s) = (err file_not_found, (f, s))
  loaded f (err e, s) = (err (wrap e), (f, s))

  unfoldable pub load_content : Exec Opened (Unit {0})
  load_content (f, s) = loaded f (c.get_object f.key s)

  -- `bytes.Buffer.Read` into a slice of that length.
  unfoldable pub read_buffer : ℕ → Exec Opened Bytes
  read_buffer n (f, s) =
      if is_empty f.buffer
      then (if nat_eq n 0 then (ok [], (f, s)) else (err end_of_file, (f, s)))
      else (ok (take n f.buffer), (record f { buffer = drop n f.buffer }, s))

  abbrev pub load_if : Bool → Exec Opened (Unit {0})
  load_if true o = load_content o
  load_if false o = (ok tt, o)

  unfoldable pub read : ℕ → Exec Opened Bytes
  unfolding load_content read_buffer
  read n (f, s) =
      if f.closed
      then (err file_closed, (f, s))
      else if has_flag o_wronly f.flag
      then (err wrong_mode, (f, s))
      else (load_if (is_empty f.buffer && not f.dirty) >> read_buffer n) (f, s)

  abbrev pub or_missing : Result (Unit {0}) → Result (Unit {0})
  or_missing (err file_not_found) = ok tt
  or_missing r = r

  -- `loadContent` of the append mode, where a file that is not there yet is no error.
  abbrev pub load_existing : Bool → Exec Opened (Unit {0})
  load_existing wanted o = let (r, o') = load_if wanted o in (or_missing r, o')

  abbrev pub write_buffer : Bytes → Exec Opened ℕ
  write_buffer p (f, s) =
      let kept = if has_flag o_trunc f.flag && not f.dirty then [] else f.buffer in
      (ok (length p), (record f { buffer = kept ++ p; dirty = true }, s))

  unfoldable pub write : Bytes → Exec Opened ℕ
  unfolding load_content
  write p (f, s) =
      if f.closed
      then (err file_closed, (f, s))
      else if has_flag o_rdonly f.flag
      then (err wrong_mode, (f, s))
      else (load_existing (has_flag o_append f.flag && is_empty f.buffer && not f.dirty)
            >> write_buffer p)
          (f, s)

  abbrev pub flushed : S3File → Result (Unit {0}) × c.State → Result (Unit {0}) × Opened
  flushed f (ok done, s) = (ok tt, (record f { dirty = false }, s))
  flushed f (err e, s) = (err (wrap e), (f, s))

  unfoldable pub flush : Exec Opened (Unit {0})
  flush (f, s) = flushed f (c.put_object f.key f.buffer s)

  unfoldable pub close : Exec Opened (Unit {0})
  unfolding flush
  close (f, s) =
      let shut = record f { closed = true } in
      if f.closed
      then (err file_closed, (f, s))
      else if f.dirty && (has_flag o_wronly f.flag || has_flag o_rdwr f.flag)
      then flush (shut, s)
      else (ok tt, (shut, s))

  -- `Flush`
  unfoldable pub flush_file : Exec Opened (Unit {0})
  unfolding flush
  flush_file (f, s) =
      if f.closed
      then (err file_closed, (f, s))
      else if f.dirty
      then flush (f, s)
      else (ok tt, (f, s))
