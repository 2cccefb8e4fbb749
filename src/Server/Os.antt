-- ===== src/Server/Os.antt =====
-- What the server and the client call of the operating system and of Go's hashes, as parameters.
use sdcio_schema_server.Base.{
  ℕ, ◌+◌, ◌≡◌, Bool, true, Option, none, List, [], ◌∷◌, ◌++◌, take, drop, length, Str, Error,
  Result, ok,
}
use sdcio_schema_server.Sdcpb.{HashMethod, md5, sha256, sha512}
use sdcio_schema_server.Server.Io.{Io}

pub record Os : Type 1 where
  pub Disk : Type 0
  pub File : Type 0
  -- `path.Join`, `filepath.Dir`
  pub join : List Str → Str
  pub dir_of : Str → Str
  -- `os.RemoveAll`, `os.MkdirAll`, `os.Create`
  pub remove_all : Str → Io Disk (Unit {0})
  pub mkdir_all : Str → Io Disk (Unit {0})
  pub create : Str → Io Disk File
  -- `Write`, `Truncate(0)`, `Seek(0, 0)` and `Close` of a file
  pub write : File → Str → Io Disk (Unit {0})
  pub truncate : File → Io Disk (Unit {0})
  pub rewind : File → Io Disk (Unit {0})
  pub close : File → Io Disk (Unit {0})
  -- what the calls of `Read` return one after another, from the offset of the file up to its end or
  -- an error, and the disk behind them
  pub reads : File → Disk → (List Str × Option Error) × Disk
  -- `md5.New` and the like, `Write` and `Sum(nil)` of a hash
  pub Hasher : Type 0
  pub new_md5 : Hasher
  pub new_sha256 : Hasher
  pub new_sha512 : Hasher
  pub feed : Hasher → Str → Result Hasher
  pub sum : Hasher → Str

abbrev pub concat : List Str → Str
concat [] = []
concat (s ∷ ss) = s ++ concat ss

-- A hash depends on the bytes that were written, however they were divided; writing to it does not
-- fail.
pub record IsHash (os : Os) : Type 0 where
  pub digest : HashMethod → Str → Str
  pub method : os.Hasher → HashMethod
  pub fed : os.Hasher → Str
  pub feed_ok :
      (h : os.Hasher) (s : Str)
      → (g : os.Hasher) × (os.feed h s ≡ ok g) × (fed g ≡ fed h ++ s) × (method g ≡ method h)
  pub sum_lem : (h : os.Hasher) → os.sum h ≡ digest (method h) (fed h)
  pub md5_new : (method os.new_md5 ≡ md5) × (fed os.new_md5 ≡ [])
  pub sha256_new : (method os.new_sha256 ≡ sha256) × (fed os.new_sha256 ≡ [])
  pub sha512_new : (method os.new_sha512 ≡ sha512) × (fed os.new_sha512 ≡ [])

-- What a file handle is at: the file is open, holds the bytes, and reads and writes at the offset.
pub record Handle : Type 0 where
  pub bytes : Str
  pub offset : ℕ
  pub is_open : Bool

abbrev pub opened_at : Str → ℕ → Handle
opened_at s n = record { bytes = s; offset = n; is_open = true }

-- The bytes behind a write: it overwrites what stands at the offset, and lengthens the file.
abbrev pub overwritten : Str → ℕ → Str → Str
overwritten s n t = take n s ++ (t ++ drop (n + length t) s)

-- A disk on which no call on an open file fails. A new file is empty, a write and the reads go from
-- the offset and move it, and a closed file is not open.
pub record IsWorking (os : Os) : Type 0 where
  pub state : os.Disk → os.File → Handle
  pub mkdir_ok : (p : Str) (d : os.Disk) → (os.mkdir_all p d).0 ≡ ok tt
  pub create_ok :
      (p : Str) (d : os.Disk)
      → (f : os.File) × ((os.create p d).0 ≡ ok f) × (state (os.create p d).1 f ≡ opened_at [] 0)
  pub write_ok :
      (f : os.File) (t s : Str) (n : ℕ) (d : os.Disk)
      → state d f ≡ opened_at s n
      → ((os.write f t d).0 ≡ ok tt)
        × (state (os.write f t d).1 f ≡ opened_at (overwritten s n t) (n + length t))
  pub rewind_ok :
      (f : os.File) (s : Str) (n : ℕ) (d : os.Disk)
      → state d f ≡ opened_at s n
      → ((os.rewind f d).0 ≡ ok tt) × (state (os.rewind f d).1 f ≡ opened_at s 0)
  pub reads_ok :
      (f : os.File) (s : Str) (n : ℕ) (d : os.Disk)
      → state d f ≡ opened_at s n
      → (concat (os.reads f d).0.0 ≡ drop n s)
        × ((os.reads f d).0.1 ≡ none)
        × (state (os.reads f d).1 f ≡ opened_at s (length s))
  pub close_ok :
      (f : os.File) (s : Str) (n : ℕ) (d : os.Disk)
      → state d f ≡ opened_at s n
      → ((os.close f d).0 ≡ ok tt)
        × (state (os.close f d).1 f ≡ record { bytes = s; offset = n; is_open = Bool.false })
