-- ===== src/Store/Persist.antt =====
-- pkg/store/persiststore/persiststore.go. An operation that may write returns the new store beside
-- its result, also when the result is an error. The context is never cancelled.
pub mod Stored
pub mod Found
pub mod Open
pub mod Elements
pub mod Expand
pub mod Reads
pub mod Names
pub mod Delete
pub mod Batch
pub mod Create
pub mod Reload
pub mod Paths
pub mod Cached
pub mod Uncached
use sdcio_schema_server.Base.{
  is_nil, ℕ, zero, suc, Bool, true, false, ◌&&◌, not, Option, none, some, List, [], ◌∷◌, ◌++◌, Str,
  codes, str_eq, ◌==◌, Dict, insert, join, length, Error, Result, ok, err, panic, is_ok,
  schema_exists, unknown_schema, missing_path, key_not_found, out_of_fuel, refuse, ◌>>=◌, ◌>>◌,
  if◌then◌else◌,
}
use sdcio_schema_server.Sdcpb.{
  PathElem, SdcPath, SchemaName, LeafSchema, SchemaElem, container, field, leaflist,
  GetSchemaRequest, CreateSchemaRequest, SchemaDetails, ToPathRequest,
}
use sdcio_schema_server.Yang.{Entry, bare, node, Dir, end, child, dir, Goyang, root_name}
use sdcio_schema_server.Schema.Children.{is_hidden}
use sdcio_schema_server.Schema.Element.{Annotations}
use sdcio_schema_server.Schema.Container.{schema_elem_from}
use sdcio_schema_server.Schema.Lookup.{Query, query_of}
use sdcio_schema_server.Schema.BuildPath.{has_prefix_part}
use sdcio_schema_server.Schema.Load.{Host, Schema, new_schema}
use sdcio_schema_server.Store.{SchemaKey, request_key, key_of, config_of, require, check_names}
use sdcio_schema_server.Store.Keys.{
  schemas_prefix, build_schema_key, build_entry_key, parse_schema_key, get_entry_path,
}
use sdcio_schema_server.Store.Badger.{Libs, Sources, CacheKey}
use sdcio_schema_server.Xpath.Strings.{to_strings}

abbrev pub sources_of : Schema → Sources
sources_of sc = record {
  files = sc.config.files;
  directories = sc.config.directories;
  excludes = sc.config.excludes;
}

module _ (l : Libs) where
  open l use {
    Db, get, value_copy, flush, drop_prefix, failed_flush, failed_drop, keys_with, marshal,
    unmarshal, marshal_sources, unmarshal_sources, Cache, cached, store,
  }

  pub record PersistStore : Type 0 where
    pub cache_with_description : Bool
    pub db : Db
    pub cache : Option Cache

  -- `HasSchema`
  unfoldable pub has_schema : PersistStore → SchemaKey → Bool
  has_schema s k = is_ok (get s.db (build_schema_key k))

  unfoldable pub names_in : List Str → List SchemaName
  unfolding parse_schema_key
  names_in [] = []
  names_in (k ∷ ks) = elim (parse_schema_key k) [ none ↦ names_in ks | some n ↦ n ∷ names_in ks ]

  -- `ListSchema`
  unfoldable pub list_schema : PersistStore → List SchemaName
  unfolding names_in
  list_schema s = names_in (keys_with (schemas_prefix ∷ []) s.db)

  -- `GetSchemaDetails`, for a schema that the request names.
  unfoldable pub get_schema_details : PersistStore → SchemaName → Result SchemaDetails
  get_schema_details s n = do
    item ← get s.db (build_schema_key (request_key n))
    b ← value_copy item
    c ← unmarshal_sources b
    ok (record { schema = n; file = c.files; directory = c.directories; exclude = c.excludes })

  -- The store after a write of the database, or with what the database then holds beside the error.
  abbrev pub commit : PersistStore → Db → Result Db → Result (Unit {0}) × PersistStore
  commit s left (ok d) = (ok tt, record s { db = d })
  commit s left (err e) = (err e, record s { db = left })
  commit s left panic = (panic, s)

  -- `DeleteSchema` up to the write: the prefixes that are dropped.
  unfoldable pub prefixes_of : PersistStore → Option SchemaName → Result (List Str)
  unfolding check_names has_schema build_entry_key build_schema_key
  prefixes_of s req = do
    n ← require req
    check_names n
    refuse (not (has_schema s (request_key n))) unknown_schema
    objects ← build_entry_key (request_key n) ([] ∷ [])
    ok (objects ∷ (build_schema_key (request_key n) ∷ []))

  abbrev pub dropped : PersistStore → Result (List Str) → Result Db
  dropped s ps = ps >>= λ qs. drop_prefix qs s.db

  abbrev pub left_by_drop : PersistStore → Result (List Str) → Db
  left_by_drop s (ok ps) = failed_drop ps s.db
  left_by_drop s _ = s.db

  -- `DeleteSchema`
  unfoldable pub delete_schema : PersistStore → Option SchemaName → Result (Unit {0}) × PersistStore
  unfolding prefixes_of
  delete_schema s req = let ps = prefixes_of s req in commit s (left_by_drop s ps) (dropped s ps)

  module _ (y : Goyang) where
    -- The key and the value of one entry, and what the walk below it adds.
    unfoldable pub set_elem :
        SchemaKey
        → Annotations
        → List Entry
        → Entry
        → Result (List (Str × Str))
        → Result (List (Str × Str))
    unfolding get_entry_path build_entry_key schema_elem_from
    set_elem k notes above e lower = do
      path ← get_entry_path y (record { here = e; above = above })
      key ← build_entry_key k path
      se ← schema_elem_from y notes true (record { here = e; above = above })
      b ← marshal se
      ws ← lower
      ok ((key, b) ∷ ws)

    -- `addSchemaElem`: the entries of the batch, in the order of the walk.
    unfoldable mutual
      unfolding set_elem

      pub add_elem : SchemaKey → Annotations → List Entry → Entry → Result (List (Str × Str))
      add_elem k notes above (bare a) =
          if is_hidden y (bare a) then ok [] else set_elem k notes above (bare a) (ok [])
      add_elem k notes above (node a d) =
          let lower = add_dir k notes (node a d ∷ above) d in
          if is_hidden y (node a d) then lower else set_elem k notes above (node a d) lower

      pub add_dir : SchemaKey → Annotations → List Entry → Dir → Result (List (Str × Str))
      add_dir k notes above end = ok []
      add_dir k notes above (child j e d) = do
        ws ← add_elem k notes above e
        vs ← add_dir k notes above d
        ok (ws ++ vs)

    -- The walk from the root; a module has no parent.
    unfoldable pub add_root : SchemaKey → Schema → Result (List (Str × Str))
    unfolding set_elem add_elem
    add_root k sc = set_elem k sc.notes [] sc.root (add_dir k sc.notes [] (dir sc.root))

    -- `AddSchema` up to the write: one batch, with the schema's own key last.
    unfoldable pub batch : Schema → Result (List (Str × Str))
    unfolding add_root build_schema_key
    batch sc = do
      ws ← add_root (key_of sc) sc
      b ← marshal_sources (sources_of sc)
      ok (ws ++ (build_schema_key (key_of sc), b) ∷ [])

    abbrev pub flushed : PersistStore → Result (List (Str × Str)) → Result Db
    flushed s ws = ws >>= λ vs. flush vs s.db

    abbrev pub left_by_flush : PersistStore → Result (List (Str × Str)) → Db
    left_by_flush s (ok ws) = failed_flush ws s.db
    left_by_flush s _ = s.db

    -- `AddSchema`
    unfoldable pub add_schema : PersistStore → Schema → Result (Unit {0}) × PersistStore
    unfolding batch
    add_schema s sc = let ws = batch sc in commit s (left_by_flush s ws) (flushed s ws)

    module _ (h : Host) (annotate : Entry → Result Annotations) where
      -- `CreateSchema` up to the schema that it adds.
      unfoldable pub created : PersistStore → CreateSchemaRequest → Result Schema
      unfolding has_schema check_names new_schema
      created s req = do
        n ← require req.schema
        refuse (has_schema s (request_key n)) schema_exists
        check_names n
        new_schema h annotate (config_of n req.file req.directory req.exclude)

      -- The addition of the schema that was parsed, if there was no error.
      abbrev pub add_parsed : PersistStore → Result Schema → Result (Unit {0}) × PersistStore
      add_parsed s (ok sc) = add_schema s sc
      add_parsed s (err e) = (err e, s)
      add_parsed s panic = (panic, s)

      -- `CreateSchema`
      unfoldable pub create_schema :
          PersistStore → CreateSchemaRequest → Result (Unit {0}) × PersistStore
      unfolding created add_schema
      create_schema s req = add_parsed s (created s req)

      -- `ReloadSchema` up to the schema that it parses.
      unfoldable pub reparsed : PersistStore → SchemaName → Result Schema
      unfolding get_schema_details new_schema
      reparsed s n = do
        details ← get_schema_details s n
        new_schema h annotate (config_of n details.file details.directory details.exclude)

      -- The addition behind a deletion, which an error of the deletion leaves out.
      abbrev pub add_after :
          Result (Unit {0}) × PersistStore → Schema → Result (Unit {0}) × PersistStore
      add_after (ok u, s) sc = add_schema s sc
      add_after (err e, s) sc = (err e, s)
      add_after (panic, s) sc = (panic, s)

      abbrev pub replace_by :
          PersistStore → SchemaName → Result Schema → Result (Unit {0}) × PersistStore
      replace_by s n (ok sc) = add_after (delete_schema s (some n)) sc
      replace_by s n (err e) = (err e, s)
      replace_by s n panic = (panic, s)

      -- `ReloadSchema`, for a schema that the request names: the old entries are dropped before the
      -- new ones are written.
      unfoldable pub reload_schema : PersistStore → SchemaName → Result (Unit {0}) × PersistStore
      unfolding reparsed delete_schema add_schema
      reload_schema s n = replace_by s n (reparsed s n)
