-- ===== src/Server/Upload.antt =====
-- pkg/server/rpcs.go: `UploadSchema`. A stream is the list of its messages with the error that `Recv`
-- returns behind them.
pub mod First
pub mod Names
pub mod Working
pub mod Pending
pub mod Always
pub mod Complete
use sdcio_schema_server.Base.{
  Bool, true, false, not, Option, none, some, List, [], ◌∷◌, ◌++◌, Str, codes, str_eq, ◌==◌, Dict,
  lookup, insert, remove, Error, Result, ok, err, panic, missing_file_name, hash_unspecified,
  wrong_hash, pending_files, unexpected_message, missing_vendor, missing_version, schema_exists,
  internal, is_nil, if◌then◌else◌,
}
use sdcio_schema_server.Sdcpb.{
  HashMethod, unspecified, md5, sha256, sha512, other_method, Hash, FileType, module_file,
  dependency, other_file, UploadSchemaFile, UploadSchemaRequest, create_schema, schema_file,
  finalize, empty_request, SchemaName, CreateSchemaRequest,
}
use sdcio_schema_server.Config.{SchemaConfig, is_empty}
use sdcio_schema_server.Server.Io.{Io, pure, fail, ◌>>=◌, ◌>>◌, lift, ignore, on_error}
use sdcio_schema_server.Server.Os.{Os}

-- `fmt.Sprintf("%s_%s_%s", name, vendor, version)`
unfoldable pub dirname_of : SchemaConfig → Str
dirname_of c = c.name ++ b'_' ∷ (c.vendor ++ b'_' ∷ c.version)

module _ (os : Os) where
  open os use {
    Disk, File, join, dir_of, remove_all, mkdir_all, create, write, truncate, rewind, close, reads,
    Hasher, new_md5, new_sha256, new_sha512, feed, sum,
  }

  -- The variables of the loop: the configuration so far, and the files that are not complete.
  pub record Session : Type 0 where
    pub config : SchemaConfig
    pub handled : Dict Str File

  -- The switch on the method; the hash stays nil for a number without a name.
  abbrev pub new_hash : HashMethod → Option Hasher
  new_hash md5 = some new_md5
  new_hash sha256 = some new_sha256
  new_hash sha512 = some new_sha512
  new_hash unspecified = none
  new_hash other_method = none

  -- The read loop: each part goes to the hash, then the error of the last read, if it is one.
  unfoldable pub hash_reads : Hasher → List Str → Option Error → Result Hasher
  hash_reads h [] none = ok h
  hash_reads h [] (some e) = err e
  hash_reads h (s ∷ ss) end = elim (feed h s) [
    | ok g ↦ hash_reads g ss end
    | err e ↦ err e
    | panic ↦ panic
  ]

  -- With a nil hash the first `Write`, or `Sum`, is a panic.
  unfoldable pub sum_reads : Option Hasher → List Str → Option Error → Result Str
  unfolding hash_reads
  sum_reads none [] (some e) = err e
  sum_reads none [] none = panic
  sum_reads none (s ∷ ss) end = panic
  sum_reads (some h) ss end = elim (hash_reads h ss end) [
    | ok g ↦ ok (sum g)
    | err e ↦ err e
    | panic ↦ panic
  ]

  -- The switch on the file type.
  abbrev pub listed : FileType → Str → SchemaConfig → SchemaConfig
  listed module_file p c = record c { files = c.files ++ p ∷ [] }
  listed dependency p c = record c { directories = c.directories ++ p ∷ [] }
  listed other_file p c = c

  unfoldable pub create_file_with_dir : Str → Io Disk File
  create_file_with_dir p = do mkdir_all (dir_of p); create p

  -- `handledFiles[fileName]`, and the file that is made if there is none.
  unfoldable pub open_file : Dict Str File → Str → Io Disk File
  unfolding create_file_with_dir lookup
  open_file handled p = elim (lookup p handled) [ some f ↦ pure f | none ↦ create_file_with_dir p ]

  unfoldable pub with_file : Dict Str File → Str → File → Dict Str File
  unfolding lookup insert
  with_file handled p f = elim (lookup p handled) [ some g ↦ handled | none ↦ insert p f handled ]

  module _ (schemas_dir : Str) (dirname : Str) where
    unfoldable pub clean_schema_dir : Io Disk (Unit {0})
    clean_schema_dir = ignore (remove_all (join (schemas_dir ∷ (dirname ∷ []))))

    unfoldable pub close_and_clean : File → Io Disk (Unit {0})
    unfolding clean_schema_dir
    close_and_clean f = do ignore (close f); clean_schema_dir

    unfoldable pub write_contents : File → Str → Io Disk (Unit {0})
    unfolding close_and_clean
    write_contents f s = if is_empty s then pure tt else on_error (write f s) (close_and_clean f)

    -- From the rewind to the sum.
    unfoldable pub calc_hash : File → Option Hasher → Io Disk Str
    unfolding close_and_clean sum_reads
    calc_hash f h = do
      on_error (rewind f) (close_and_clean f)
      on_error (λ d. let r = reads f d in (sum_reads h r.0.0 r.0.1, r.1)) (close_and_clean f)

    -- What is done when a message brings a hash.
    unfoldable pub check_hash : File → Hash → Io Disk (Unit {0})
    unfolding calc_hash close_and_clean
    check_hash f h = elim h.method [
      | unspecified ↦ (do ignore (truncate f); close_and_clean f; fail hash_unspecified)
      | m ↦ (do
        s ← calc_hash f (new_hash m)
        if s == h.hash then ignore (close f) else (do close_and_clean f; fail wrong_hash))
    ]

    unfoldable pub finish_file : Session → UploadSchemaFile → Str → File → Io Disk Session
    unfolding check_hash with_file remove
    finish_file up m p f = elim m.hash [
      | none ↦ pure (record up { handled = with_file up.handled p f })
      | some h ↦ (do
        check_hash f h
        pure (record {
          config = listed m.file_type p up.config;
          handled = remove p (with_file up.handled p f);
        }))
    ]

    abbrev pub path_for : Str → Str
    path_for name = join (schemas_dir ∷ (dirname ∷ (name ∷ [])))

    -- The case of a file message.
    unfoldable pub receive_file : Session → UploadSchemaFile → Io Disk Session
    unfolding open_file write_contents finish_file
    receive_file up m = if is_empty m.file_name then fail missing_file_name else do
      f ← open_file up.handled (path_for m.file_name)
      write_contents f m.contents
      finish_file up m (path_for m.file_name) f

    -- The loop, from the second message on.
    unfoldable pub receive : Session → List UploadSchemaRequest → Error → Io Disk Session
    unfolding receive_file clean_schema_dir
    receive up [] end = fail end
    receive up (schema_file m ∷ ms) end = receive_file up m >>= λ next. receive next ms end
    receive up (finalize ∷ ms) end =
        if is_nil up.handled then pure up else (do clean_schema_dir; fail pending_files)
    receive up (create_schema r ∷ ms) end = do clean_schema_dir; fail unexpected_message
    receive up (empty_request ∷ ms) end = do clean_schema_dir; fail unexpected_message
