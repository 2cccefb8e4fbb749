-- ===== src/Server/Upload/First.antt =====
-- pkg/server/rpcs.go: the first message of an upload.
use sdcio_schema_server.Base.{
  Bool, [], Option, none, some, Result, ok, err, schema_exists, unexpected_message, ◌>>◌, refuse,
}
use sdcio_schema_server.Sdcpb.{
  SchemaName, UploadSchemaRequest, create_schema, schema_file, finalize, empty_request,
}
use sdcio_schema_server.Config.{SchemaConfig}
use sdcio_schema_server.Store.{SchemaKey, key_in, check_names, config_of}

-- `GetSchema()` of a nil schema has empty names.
abbrev pub named : Option SchemaName → SchemaName
named none = record { name = []; vendor = []; version = [] }
named (some n) = n

-- The first message: the configuration that it starts.
unfoldable pub first_config : (SchemaKey → Bool) → UploadSchemaRequest → Result SchemaConfig
unfolding check_names
first_config has (create_schema r) = do
  check_names (named r.schema)
  let c = config_of (named r.schema) [] [] r.exclude
  refuse (has (key_in c)) schema_exists
  ok c
first_config has (schema_file m) = err unexpected_message
first_config has finalize = err unexpected_message
first_config has empty_request = err unexpected_message
