-- ===== src/Store.antt =====
-- pkg/store/store.go: the key of a schema, and the requests that both stores check in the same way.
pub mod Mem
pub mod Keys
pub mod Badger
pub mod Persist
pub mod Interface
pub mod Sample
pub mod Tests
use sdcio_schema_server.Base.{
  ◌≡◌, refl, ◌↔◌, Bool, true, false, ◌&&◌, Option, none, some, List, [], ◌∷◌, ◌++◌, Str, str_beq,
  str_beq_iff, Eq, Result, ok, err, missing_details, missing_vendor, missing_version, ◌>>=◌, ◌>>◌,
  refuse, arith,
}
use sdcio_schema_server.Sdcpb.{SchemaName, CreateSchemaRequest}
use sdcio_schema_server.Config.{SchemaConfig, is_empty}
use sdcio_schema_server.Schema.Load.{Schema}

pub record SchemaKey : Type 0 where
  pub name : Str
  pub vendor : Str
  pub version : Str

abbrev pub key_beq : SchemaKey → SchemaKey → Bool
key_beq a b = str_beq a.name b.name && (str_beq a.vendor b.vendor && str_beq a.version b.version)

pub key_beq_iff : (a b : SchemaKey) → (key_beq a b ≡ true) ↔ (a ≡ b)
key_beq_iff a b = ground (
  arith,
  str_beq_iff a.name b.name,
  str_beq_iff a.vendor b.vendor,
  str_beq_iff a.version b.version,
)

instance abbrev pub key_eq : Eq SchemaKey
key_eq = record { is_same = key_beq; is_same_iff = key_beq_iff }

-- The key that a request names.
abbrev pub request_key : SchemaName → SchemaKey
request_key n = record { name = n.name; vendor = n.vendor; version = n.version }

-- `Key(s)`
abbrev pub key_of : Schema → SchemaKey
key_of s = record { name = s.config.name; vendor = s.config.vendor; version = s.config.version }

-- `if reqSchema == nil { return missing schema details }`
abbrev pub require {ℓ} : {A : Type ℓ} → Option A → Result A
require none = err missing_details
require (some a) = ok a

-- The switch on an empty vendor and an empty version.
unfoldable pub check_names : SchemaName → Result (Unit {0})
check_names n = do
  refuse (is_empty n.vendor) missing_vendor
  refuse (is_empty n.version) missing_version

-- The `SchemaConfig` that a request makes.
abbrev pub config_of : SchemaName → List Str → List Str → List Str → SchemaConfig
config_of n files directories excludes = record {
  name = n.name;
  vendor = n.vendor;
  version = n.version;
  files = files;
  directories = directories;
  excludes = excludes;
}

-- The key in a configuration.
abbrev pub key_in : SchemaConfig → SchemaKey
key_in c = record { name = c.name; vendor = c.vendor; version = c.version }

-- The request to create the schema `n` from files.
abbrev pub create_request : SchemaName → List Str → List Str → List Str → CreateSchemaRequest
create_request n fs ds xs = record { schema = some n; file = fs; directory = ds; exclude = xs }
