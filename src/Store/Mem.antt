-- ===== src/Store/Mem.antt =====
-- pkg/store/memstore/memstore.go. Each operation is one step on the map of schemas: the lock is
-- taken for every read and every write, and a stored `Schema` is
-- not changed but by `Reload`, which sets its status and the files of its configuration.
pub mod Catalog
pub mod Reload
pub mod Overlap
pub mod Tests
use sdcio_schema_server.Base.{
  Bool, true, false, Option, none, some, List, [], ◌∷◌, ◌++◌, map, Str, codes, Dict, lookup, insert,
  remove, sort_strings, Error, Result, ok, err, panic, schema_exists, unknown_schema, internal,
  refuse, ◌>>=◌, ◌>>◌, if◌then◌else◌,
}
use sdcio_schema_server.Sdcpb.{
  SdcPath, DataType, SchemaName, SchemaElem, GetSchemaRequest, CreateSchemaRequest, SchemaDetails,
  ToPathRequest, ExpandPathRequest, ExpandPathResponse, path_or_empty,
}
use sdcio_schema_server.Yang.{Entry, Goyang, Node}
use sdcio_schema_server.Schema.Element.{Annotations}
use sdcio_schema_server.Schema.Container.{schema_elem_from}
use sdcio_schema_server.Schema.Lookup.{get_entry, Sent, get_entry_ch}
use sdcio_schema_server.Schema.BuildPath.{build_path}
use sdcio_schema_server.Schema.Expand.{expand_path}
use sdcio_schema_server.Schema.Load.{Host, Schema, config_after, new_schema, reload}
use sdcio_schema_server.Store.{
  SchemaKey, key_eq, request_key, key_of, config_of, require, check_names,
}
use sdcio_schema_server.Xpath.Strings.{to_strings, to_xpath}

pub record MemStore : Type 0 where
  pub schemas : Dict SchemaKey Schema

abbrev pub new : MemStore
new = record { schemas = [] }

-- `sc, ok := s.schemas[k]`, with the error of most operations.
unfoldable pub the_schema : MemStore → SchemaKey → Result Schema
unfolding lookup
the_schema s k = elim (lookup k s.schemas) [ none ↦ err unknown_schema | some sc ↦ ok sc ]

unfoldable pub has_schema : MemStore → SchemaKey → Bool
unfolding lookup
has_schema s k = elim (lookup k s.schemas) [ none ↦ false | some sc ↦ true ]

abbrev pub name_of : Schema → SchemaName
name_of sc = record {
  name = sc.config.name;
  vendor = sc.config.vendor;
  version = sc.config.version;
}

unfoldable pub list_schema : MemStore → List SchemaName
list_schema s = map (λ p. name_of p.1) s.schemas

-- The excludes are left out.
unfoldable pub get_schema_details : MemStore → Option SchemaName → Result SchemaDetails
unfolding the_schema
get_schema_details s req = do
  n ← require req
  sc ← the_schema s (request_key n)
  ok (record {
    schema = name_of sc;
    file = sc.config.files;
    directory = sc.config.directories;
    exclude = [];
  })

-- `s.schemas[store.Key(sc)] = sc`
unfoldable pub add_schema : MemStore → Schema → MemStore
unfolding insert
add_schema s sc = record s { schemas = insert (key_of sc) sc s.schemas }

unfoldable pub delete_schema : MemStore → Option SchemaName → Result MemStore
unfolding check_names the_schema remove
delete_schema s req = do
  n ← require req
  check_names n
  sc ← the_schema s (request_key n)
  ok (record s { schemas = remove (request_key n) s.schemas })

module _ (y : Goyang) where
  unfoldable pub get_schema : MemStore → GetSchemaRequest → Result SchemaElem
  unfolding the_schema get_entry to_strings schema_elem_from
  get_schema s req = do
    n ← require req.schema
    sc ← the_schema s (request_key n)
    e ← get_entry y sc.root (to_strings req.path false true)
    schema_elem_from y sc.notes req.with_description e

  -- `status.Errorf(codes.Internal, "%v", err)`
  abbrev pub wrap {ℓ} : {A : Type ℓ} → Result A → Result A
  wrap (ok a) = ok a
  wrap (err e) = err (internal e)
  wrap panic = panic

  unfoldable pub to_path : MemStore → ToPathRequest → Result SdcPath
  unfolding check_names the_schema build_path
  to_path s req = do
    n ← require req.schema
    check_names n
    sc ← the_schema s (request_key n)
    pes ← wrap (build_path y sc.root req.path_element [])
    ok (record { origin = []; target = []; elem = pes })

  unfoldable pub expand_path_of : MemStore → ExpandPathRequest → Result ExpandPathResponse
  unfolding check_names the_schema expand_path sort_strings to_xpath
  expand_path_of s req = do
    n ← require req.schema
    check_names n
    sc ← the_schema s (request_key n)
    ps ← wrap (expand_path y sc.root (path_or_empty req.path) req.data_type)
    if req.xpath
        then ok (record { path = []; xpath = sort_strings (map (λ p. to_xpath p false) ps) })
        else ok (record { path = ps; xpath = [] })

  -- The messages of a channel, in the order of the entries that were sent.
  unfoldable pub elems_sent : Annotations → Bool → List Node → Result (List SchemaElem)
  unfolding schema_elem_from
  elems_sent notes with_desc [] = ok []
  elems_sent notes with_desc (n ∷ ns) = do
    e ← schema_elem_from y notes with_desc n
    es ← elems_sent notes with_desc ns
    ok (e ∷ es)

  -- `GetSchemaElements`: all that the channel carries before it is closed, for a context that is not
  -- cancelled. An error of the walk is only logged.
  unfoldable pub get_schema_elements : MemStore → GetSchemaRequest → Result (List SchemaElem)
  unfolding the_schema get_entry_ch to_strings elems_sent
  get_schema_elements s req = do
    n ← require req.schema
    sc ← the_schema s (request_key n)
    elems_sent sc.notes req.with_description
        (get_entry_ch y sc.root (to_strings req.path false true)).nodes

module _ (h : Host) (annotate : Entry → Result Annotations) where
  -- `CreateSchema`, which holds the lock twice: `tested` is the store when it tests for the schema,
  -- `s` the store when it writes, which other calls may have changed in between.
  unfoldable pub create_between :
      (tested s : MemStore) → CreateSchemaRequest → Result (SchemaName × MemStore)
  unfolding check_names has_schema new_schema add_schema
  create_between tested s req = do
    n ← require req.schema
    refuse (has_schema tested (request_key n)) schema_exists
    check_names n
    sc ← new_schema h annotate (config_of n req.file req.directory req.exclude)
    ok (n, add_schema s sc)

  -- `CreateSchema`, when no other call comes in between.
  unfoldable pub create_schema : MemStore → CreateSchemaRequest → Result (SchemaName × MemStore)
  unfolding create_between
  create_schema s req = create_between s s req

  -- The store after `sc.Reload()`, which sets the status of the stored schema, and whose `NewSchema`
  -- writes to the configuration of the stored schema.
  unfoldable pub mark_reloading : MemStore → SchemaKey → Schema → MemStore
  unfolding insert config_after
  mark_reloading s k sc = record s {
    schemas =
        insert k (record sc { status = codes "reloading"; config = config_after h sc.config })
          s.schemas;
  }

  -- The schema that the request names.
  unfoldable pub stored : MemStore → Option SchemaName → Result (SchemaKey × Schema)
  unfolding the_schema
  stored s req = do n ← require req; sc ← the_schema s (request_key n); ok (request_key n, sc)

  -- The result, and the store, whose schema is marked also when the parsing fails.
  unfoldable pub reload_schema : MemStore → Option SchemaName → Result (Unit {0}) × MemStore
  unfolding stored reload add_schema mark_reloading
  reload_schema s req = elim (stored s req) [
    | err e ↦ (err e, s)
    | panic ↦ (panic, s)
    | ok found ↦
        let marked = mark_reloading s found.0 found.1 in
        elim (reload h annotate found.1) [
          | err e ↦ (err e, marked)
          | panic ↦ (panic, marked)
          | ok sc ↦ (ok tt, add_schema marked sc)
        ]
  ]
