-- ===== src/Server/Rpcs.antt =====
-- pkg/server/rpcs.go: the handlers `UploadSchema` and `GetSchemaElements`, over any store. The
-- response that `UploadSchema` sends at its end may be lost: its error is not read. The server is
-- configured with a `schema-server`: without one `UploadSchema` panics where it reads the directory.
pub mod Uploaded
use sdcio_schema_server.Base.{List, [], ◌∷◌, Str, Error, Result, ok, err, panic, internal}
use sdcio_schema_server.Sdcpb.{SchemaElem, UploadSchemaRequest}
use sdcio_schema_server.Config.{SchemaConfig}
use sdcio_schema_server.Yang.{Entry}
use sdcio_schema_server.Schema.Element.{Annotations}
use sdcio_schema_server.Schema.Load.{Host, Schema, new_schema}
use sdcio_schema_server.Store.Interface.{StoreOps}
use sdcio_schema_server.Server.Io.{Io, pure, fail, ◌>>=◌, on_error}
use sdcio_schema_server.Server.Os.{Os}
use sdcio_schema_server.Server.Upload.First.{first_config}
use sdcio_schema_server.Server.Upload.{Session, dirname_of, clean_schema_dir, receive}

-- The error of `m`, with the code `Internal`.
abbrev pub as_internal : {D A : Type 0} → Result A × D → Result A × D
as_internal (ok a, d) = (ok a, d)
as_internal (err e, d) = (err (internal e), d)
as_internal (panic, d) = (panic, d)

module _ (os : Os) (host_of : os.Disk → Host) (o : StoreOps) (annotate : Entry → Result Annotations)
    (schemas_dir : Str) where
  open os use {Disk, join, remove_all}

  -- The directory is emptied, and the files are received.
  unfoldable pub received : SchemaConfig → List UploadSchemaRequest → Error → Io Disk (Session os)
  unfolding receive dirname_of
  received c ms end =
      (λ d. as_internal (remove_all (join (schemas_dir ∷ (dirname_of c ∷ []))) d))
      >>= (λ u. receive os schemas_dir (dirname_of c) (record { config = c; handled = [] }) ms end)

  -- `NewSchema` reads the files that are now on the disk.
  unfoldable pub parsed : SchemaConfig → List UploadSchemaRequest → Error → Io Disk Schema
  unfolding received new_schema clean_schema_dir
  parsed c ms end = received c ms end >>= (λ up.
      on_error (λ d. (new_schema (host_of d) annotate up.config, d))
        (clean_schema_dir os schemas_dir (dirname_of c)))

  -- What a handler changes.
  abbrev pub World : Type 0
  World = o.State × Disk

  abbrev pub stored : o.State → Result Schema × Disk → Result (Unit {0}) × World
  stored s (ok sc, d) = ((o.add_schema s sc).0, ((o.add_schema s sc).1, d))
  stored s (err e, d) = (err e, (s, d))
  stored s (panic, d) = (panic, (s, d))

  abbrev pub upload_from :
      Result SchemaConfig → List UploadSchemaRequest → Error → Io World (Unit {0})
  upload_from (ok c) ms end (s, d) = stored s (parsed c ms end d)
  upload_from (err e) ms end w = (err e, w)
  upload_from panic ms end w = (panic, w)

  unfoldable pub upload_schema : List UploadSchemaRequest → Error → Io World (Unit {0})
  unfolding parsed first_config
  upload_schema [] end w = (err end, w)
  upload_schema (m ∷ ms) end (s, d) = upload_from (first_config (o.has_schema s) m) ms end (s, d)

-- The loop of `GetSchemaElements`: the elements of the store's channel, until one is not sent.
unfoldable pub send_all :
    {Stream : Type 0} → (SchemaElem → Io Stream (Unit {0})) → List SchemaElem → Io Stream (Unit {0})
send_all send [] = pure tt
send_all send (e ∷ es) = send e >>= (λ u. send_all send es)

unfoldable pub get_schema_elements :
    {Stream : Type 0}
    → (SchemaElem → Io Stream (Unit {0}))
    → Result (List SchemaElem)
    → Io Stream (Unit {0})
unfolding send_all
get_schema_elements send (ok es) = send_all send es
get_schema_elements send (err e) = fail e
get_schema_elements send panic = λ s. (panic, s)
