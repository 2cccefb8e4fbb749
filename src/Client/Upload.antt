-- ===== src/Client/Upload.antt =====
-- client/cmd/schema_upload.go: the command that uploads a schema. The stream to the server, the walk
-- over the files and the hashes are parameters; the chunk size is not negative.
pub mod Chunks
pub mod Transfer
pub mod Sender
use sdcio_schema_server.Base.{
  ℕ, zero, suc, ◌+◌, ◌-◌, Bool, true, false, ◌||◌, not, Option, none, some, List, [], ◌∷◌, ◌++◌,
  map, Str, codes, str_eq, ◌==◌, ltb, length, take, drop, Error, Result, ok, err, panic, external,
  if◌then◌else◌,
}
use sdcio_schema_server.Sdcpb.{
  HashMethod, md5, Hash, FileType, module_file, dependency, UploadSchemaFile, UploadSchemaRequest,
  create_schema, schema_file, finalize, SchemaName, CreateSchemaRequest,
}
use sdcio_schema_server.Server.Io.{Io, pure, fail, ◌>>=◌, ◌>>◌, lift}
use sdcio_schema_server.Server.Os.{Os}

-- The loop that divides the file, from the byte `start` on; without fuel there is no result.
unfoldable pub chunks : ℕ → ℕ → ℕ → Str → Option (List Str)
chunks zero size start b = if ltb start (length b) then none else some []
chunks (suc fuel) size start b =
    let rest = chunks fuel size (start + size) b in
    let end = if ltb (length b) (start + size) then length b else start + size in
    if ltb start (length b)
    then elim rest [ none ↦ none | some cs ↦ some (take (end - start) (drop start b) ∷ cs) ]
    else some []

-- The switch that the command starts with.
unfoldable pub is_hash_method : Str → Bool
is_hash_method m = m == codes "md5" || (m == codes "sha256" || m == codes "sha512")

-- A message with a part of a file, and the message with its hash.
abbrev pub chunk_message : FileType → Str → Str → UploadSchemaRequest
chunk_message t p c =
    schema_file (record { file_name = p; file_type = t; contents = c; hash = none })

abbrev pub hash_message : FileType → Str → Str → UploadSchemaRequest
hash_message t p h = schema_file (record {
  file_name = p;
  file_type = t;
  contents = [];
  hash = some (record { method = md5; hash = h });
})

-- What `filepath.Walk` passes to its callback.
pub record Visit : Type 0 where
  pub path : Str
  pub failed : Option Error
  pub is_dir : Bool

pub record Files : Type 0 where
  -- the calls of `filepath.Walk`, until the callback returns an error
  pub visits : Str → List Visit
  pub ext : Str → Str
  pub read_file : Str → Result Str

module _ (os : Os) where
  open os use {Hasher, new_md5, new_sha256, new_sha512, feed, sum}

  abbrev pub hasher_of : Str → Option Hasher
  hasher_of m =
      if m == codes "md5"
      then some new_md5
      else if m == codes "sha256"
      then some new_sha256
      else if m == codes "sha512"
      then some new_sha512
      else none

  -- `calcHash`; a nil hash is a panic, and the error of `Write` is not read.
  unfoldable pub calc_hash : Str → Str → Result Str
  calc_hash m b = elim (hasher_of m) [
    | none ↦ panic
    | some h ↦ elim (feed h b) [ ok g ↦ ok (sum g) | err e ↦ ok (sum h) | panic ↦ panic ]
  ]

  -- The messages for a file with these bytes; `none` if the division does not end.
  unfoldable pub file_messages : ℕ → FileType → Str → Str → Str → Option (List UploadSchemaRequest)
  unfolding chunks
  file_messages size t p h b = elim (chunks (length b) size 0 b) [
    | none ↦ none
    | some cs ↦ some (map (chunk_message t p) cs ++ hash_message t p h ∷ [])
  ]
