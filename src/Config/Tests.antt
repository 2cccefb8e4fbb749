-- ===== src/Config/Tests.antt =====
-- The theorems of the configuration at a concrete one.
use sdcio_schema_server.Base.{◌≡◌, ◌↔◌, refl, true, none, some, [], ◌∷◌, codes, All, ok, is_ok}
use sdcio_schema_server.Config.{SchemaConfig, Config, validate_set_defaults}
use sdcio_schema_server.Config.Defaults.{IsNamed, schemas_of, validate_set_defaults-accepts}

abbrev srl : SchemaConfig
srl = record {
  name = codes "srl";
  vendor = codes "Nokia";
  version = codes "22.3.2";
  files = codes "srl.yang" ∷ [];
  directories = [];
  excludes = [];
}

abbrev with_store : Config
with_store = record {
  grpc_server = some (record {
    address = codes ":1";
    schema_server = none;
    max_recv_msg_size = 0;
    rpc_timeout = 5;
  });
  schema_store = some (record {
    type = codes "persistent";
    path = codes "/db";
    cache = none;
    schemas = some srl ∷ [];
  });
}

abbrev with_defaults : Config
with_defaults = record with_store {
  grpc_server = some (record {
    address = codes ":1";
    schema_server = none;
    max_recv_msg_size = 4194304;
    rpc_timeout = 5;
  });
}

with_store_accepted : validate_set_defaults with_store ≡ ok with_defaults
unfolding validate_set_defaults
with_store_accepted = refl

validate_set_defaults-accepts_example :
    is_ok (validate_set_defaults with_store) ≡ true ↔ All IsNamed (schemas_of with_store)
validate_set_defaults-accepts_example = validate_set_defaults-accepts with_store
