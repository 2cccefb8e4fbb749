-- ===== src/Config.antt =====
-- pkg/config/config.go and pkg/config/schema.go: the configuration and its defaults. A duration is
-- a number of seconds; a negative number in the file is not modelled, and is replaced like 0.
pub mod Defaults
pub mod Tests
use sdcio_schema_server.Base.{
  ℕ, zero, suc, ◌*◌, Bool, true, false, ◌||◌, Option, none, some, List, [], ◌∷◌, Str, codes,
  incomplete_config, Result, ok, err, panic, ◌>>=◌, ◌>>◌, if◌then◌else◌,
}

pub record SchemaConfig : Type 0 where
  pub name : Str
  pub vendor : Str
  pub version : Str
  pub files : List Str
  pub directories : List Str
  pub excludes : List Str

pub record CacheConfig : Type 0 where
  pub ttl : ℕ
  pub capacity : ℕ
  pub with_description : Bool

pub record SchemaStoreConfig : Type 0 where
  pub type : Str
  pub path : Str
  pub cache : Option CacheConfig
  -- an empty item of the list is a nil pointer
  pub schemas : List (Option SchemaConfig)

pub record SchemaServer : Type 0 where
  pub schemas_directory : Str

pub record GrpcServer : Type 0 where
  pub address : Str
  pub schema_server : Option SchemaServer
  pub max_recv_msg_size : ℕ
  pub rpc_timeout : ℕ

pub record Config : Type 0 where
  pub grpc_server : Option GrpcServer
  pub schema_store : Option SchemaStoreConfig

abbrev pub is_empty : Str → Bool
is_empty [] = true
is_empty (c ∷ s) = false

-- `SchemaConfig.validateSetDefaults`
unfoldable pub validate_schema : SchemaConfig → Result (Unit {0})
validate_schema sc =
    if is_empty sc.vendor || is_empty sc.version then err incomplete_config else ok tt

-- The loop over the schemas; the method reads the fields of its receiver, so nil is a panic.
unfoldable pub validate_schemas : List (Option SchemaConfig) → Result (Unit {0})
unfolding validate_schema
validate_schemas [] = ok tt
validate_schemas (none ∷ scs) = panic
validate_schemas (some sc ∷ scs) = validate_schema sc >> validate_schemas scs

abbrev pub default_server_address : Str
default_server_address = codes ":55000"

abbrev pub default_message_size : ℕ
default_message_size = 4 * 1024 * 1024

abbrev pub default_rpc_timeout : ℕ
default_rpc_timeout = 60

abbrev pub or_default : ℕ → ℕ → ℕ
or_default d zero = d
or_default d (suc n) = suc n

abbrev pub empty_server : GrpcServer
empty_server = record { address = []; schema_server = none; max_recv_msg_size = 0; rpc_timeout = 0 }

unfoldable pub server_defaults : Option GrpcServer → GrpcServer
server_defaults none = record empty_server {
  address = default_server_address;
  max_recv_msg_size = default_message_size;
  rpc_timeout = default_rpc_timeout;
}
server_defaults (some g) = record g {
  address = if is_empty g.address then default_server_address else g.address;
  max_recv_msg_size = or_default default_message_size g.max_recv_msg_size;
  rpc_timeout = or_default default_rpc_timeout g.rpc_timeout;
}

abbrev pub empty_store : SchemaStoreConfig
empty_store = record { type = []; path = []; cache = none; schemas = [] }

-- `Config.validateSetDefaults`
unfoldable pub validate_set_defaults : Config → Result Config
unfolding server_defaults validate_schemas
validate_set_defaults c =
    let g = some (server_defaults c.grpc_server) in
    elim c.schema_store [
      | none ↦ ok (record { grpc_server = g; schema_store = some empty_store })
      | some s ↦
          validate_schemas s.schemas >> ok (record { grpc_server = g; schema_store = some s })
    ]
