-- ===== src/Store/Tests.antt =====
-- The theorems of the persistent store at concrete stores.
use sdcio_schema_server.Base.{
  ◌≡◌, refl, lookup, index_of, unknown_schema, false, ◌&&◌, ◌||◌, not, none, some, List, [], ◌∷◌,
  Str, codes, Result, ◌++◌, ok, err, panic, arith,
}
use sdcio_schema_server.Sdcpb.{SdcPath, container, SchemaName}
use sdcio_schema_server.Schema.Children.{get_children}
use sdcio_schema_server.Schema.Element.Choice.{get_choice_info}
use sdcio_schema_server.Schema.Load.{Schema, find_yang_files}
use sdcio_schema_server.Schema.Tests.{kinds, if_root}
use sdcio_schema_server.Yang.{root_name}
use sdcio_schema_server.Store.{key_beq, request_key, create_request, config_of}
use sdcio_schema_server.Store.Keys.{build_entry_key, build_schema_key, parse_schema_key}
use sdcio_schema_server.Store.Keys.Injective.{
  IsSeparable, extends, parse_schema_key-build_schema_key,
}
use sdcio_schema_server.Store.Badger.{CacheKey}
use sdcio_schema_server.Xpath.Strings.{to_strings}
use sdcio_schema_server.Store.Persist.Cached.{cache_key, get_schema_at_again}
use sdcio_schema_server.Store.Persist.Reads.{lookup_elem, is_root_path, remove_description}
use sdcio_schema_server.Base.{join, true}
use sdcio_schema_server.Store.Sample.{
  caching, item_at, libs, libs-IsReliable, without, keys_from, no_notes, read_only, always_list,
  two_keys, host, annotate_none, srl_name,
}
use sdcio_schema_server.Store.Persist.{
  PersistStore, has_schema, list_schema, get_schema_details, create_schema, delete_schema,
}
use sdcio_schema_server.Store.Persist.Reads.{get_schema_at, path_to, name_elem, to_path_loop}
use sdcio_schema_server.Store.Persist.Delete.{has_schema-delete_schema}
use sdcio_schema_server.Store.Persist.Create.{
  has_schema-create_schema, get_schema_details-create_schema,
}
use sdcio_schema_server.Store.Persist.Names.{list_schema-names}
use sdcio_schema_server.Store.Persist.Paths.{to_path_loop_fuel, to_path_loop_panics}

abbrev empty_store : PersistStore libs
empty_store = record { cache_with_description = false; db = []; cache = none }

abbrev srl_files : List Str
srl_files = codes "srl.yang" ∷ []

-- A later version, whose name extends that of the first.
abbrev srl_later : SchemaName
srl_later = record srl_name { version = codes "22.3.2" }

srl-IsSeparable : IsSeparable (request_key srl_name)
srl-IsSeparable = (omega arith, omega arith)

srl_later-IsSeparable : IsSeparable (request_key srl_later)
srl_later-IsSeparable = (omega arith, omega arith)

srl_created :
    (create_schema libs kinds host annotate_none empty_store
      (create_request srl_name srl_files [] [])).0
    ≡ ok tt
unfolding create_schema get_choice_info get_children
srl_created = refl

abbrev with_srl : PersistStore libs
with_srl =
    (create_schema libs kinds host annotate_none empty_store
      (create_request srl_name srl_files [] [])).1

has_schema-create_schema_example :
    (has_schema libs empty_store (request_key srl_name) ≡ false)
    × (has_schema libs with_srl (request_key srl_later) ≡ (
        key_beq (request_key srl_name) (request_key srl_later)
        || has_schema libs empty_store (request_key srl_later)))
has_schema-create_schema_example =
    has_schema-create_schema libs kinds host annotate_none srl_files [] [] libs-IsReliable
      empty_store srl_name (request_key srl_later) srl-IsSeparable srl_later-IsSeparable srl_created

get_schema_details-create_schema_example :
    (found : List Str) × (find_yang_files host srl_files ≡ ok found)
    × (get_schema_details libs with_srl srl_name
        ≡ ok (record { schema = srl_name; file = found; directory = []; exclude = [] }))
get_schema_details-create_schema_example =
    get_schema_details-create_schema libs kinds host annotate_none srl_files [] [] libs-IsReliable
      empty_store srl_name srl_created

-- A database with the schemas of both versions.
abbrev both : List (Str × Str)
both =
    (build_schema_key (request_key srl_name), codes "srl.yang")
    ∷ ((build_schema_key (request_key srl_later), codes "srl.yang") ∷ [])

abbrev with_both : PersistStore libs
with_both = record { cache_with_description = false; db = both; cache = none }

srl_deleted : (delete_schema libs with_both (some srl_name)).0 ≡ ok tt
unfolding delete_schema lookup
srl_deleted = refl

-- The later version is gone with the earlier one.
later_deleted :
    has_schema libs (delete_schema libs with_both (some srl_name)).1 (request_key srl_later) ≡ false
unfolding delete_schema lookup without
later_deleted = refl

has_schema-delete_schema_example :
    has_schema libs (delete_schema libs with_both (some srl_name)).1 (request_key srl_later) ≡ (
      has_schema libs with_both (request_key srl_later)
      && not (extends (request_key srl_name) (request_key srl_later)))
has_schema-delete_schema_example =
    has_schema-delete_schema libs libs-IsReliable with_both srl_name (request_key srl_later)
      srl-IsSeparable srl_later-IsSeparable srl_deleted

srl_absent : (delete_schema libs empty_store (some srl_name)).0 ≡ err unknown_schema
unfolding delete_schema lookup
srl_absent = refl

list_schema-names_example : list_schema libs with_both ≡ srl_name ∷ (srl_later ∷ [])
unfolding list_schema keys_from build_schema_key
list_schema-names_example =
    list_schema-names libs with_both (srl_name ∷ (srl_later ∷ []))
      (srl-IsSeparable, (srl_later-IsSeparable, tt)) refl

parse_schema_key-build_schema_key_example :
    parse_schema_key (build_schema_key (request_key srl_name)) ≡ some srl_name
parse_schema_key-build_schema_key_example =
    parse_schema_key-build_schema_key srl_name srl-IsSeparable

abbrev read_only_store : PersistStore read_only
read_only_store = record { cache_with_description = false; db = both; cache = none }

abbrev parsed_srl : Schema
parsed_srl = record {
  config = config_of srl_name srl_files [] [];
  root = if_root;
  notes = no_notes;
  status = codes "ok";
}

abbrev put_at : Result Str → List (Str × Str)
put_at (ok k) = (k, []) ∷ []
put_at _ = []

-- The entries of the root and of a list below the module `if`.
abbrev list_store : PersistStore always_list
list_store = record {
  cache_with_description = false;
  db =
      put_at (build_entry_key (request_key srl_name) (root_name ∷ []))
      ++ put_at (build_entry_key (request_key srl_name) (codes "if" ∷ (codes "entry" ∷ [])));
  cache = none;
}

entry_read :
    (get_schema_at always_list list_store
      (path_to always_list ([] ++ name_elem always_list (codes "entry") ∷ []))
      false
      (request_key srl_name)).0
    ≡ ok (container two_keys)
unfolding get_schema_at index_of
entry_read = refl

to_path_loop_panics_example :
    (to_path_loop always_list 3 list_store
      (request_key srl_name)
      []
      (codes "entry" ∷ (codes "a" ∷ []))).0
    ≡ panic
to_path_loop_panics_example =
    to_path_loop_panics always_list 2 list_store (request_key srl_name) [] (codes "entry")
      (codes "a") [] two_keys entry_read (omega arith)

to_path_loop_fuel_example :
    to_path_loop always_list 3 list_store
      (request_key srl_name)
      []
      (codes "entry" ∷ (codes "a" ∷ []))
    ≡ to_path_loop always_list 9 list_store
        (request_key srl_name)
        []
        (codes "entry" ∷ (codes "a" ∷ []))
to_path_loop_fuel_example =
    to_path_loop_fuel always_list 3 9 list_store (request_key srl_name) []
      (codes "entry" ∷ (codes "a" ∷ [])) (omega arith) (omega arith)

abbrev entry_path : SdcPath
entry_path = record {
  origin = [];
  target = [];
  elem = record { name = codes "entry"; key = [] } ∷ [];
}

-- The database of the list, with an empty cache that is set to hold descriptions.
abbrev cached_store : PersistStore caching
cached_store = record { cache_with_description = true; db = list_store.db; cache = some none }

entry_found :
    lookup_elem caching cached_store (request_key srl_name) (to_strings entry_path false true)
    ≡ ok (container two_keys)
unfolding lookup_elem to_strings index_of
entry_found = refl

entry_nonroot : is_root_path (to_strings entry_path false true) ≡ false
unfolding to_strings
entry_nonroot = refl

abbrev entry_key : CacheKey
entry_key = cache_key entry_path (request_key srl_name)

entry_held : item_at (some (entry_key, container two_keys)) entry_key ≡ some (container two_keys)
unfolding to_strings join
entry_held = refl

get_schema_at_again_example :
    ((get_schema_at caching cached_store entry_path false (request_key srl_name)).0
      ≡ ok (container two_keys))
    × ((get_schema_at caching
          (get_schema_at caching cached_store entry_path false (request_key srl_name)).1
          entry_path
          false
          (request_key srl_name)).0
        ≡ ok (remove_description (container two_keys)))
get_schema_at_again_example =
    get_schema_at_again caching cached_store none entry_path false (request_key srl_name)
      (container two_keys) refl refl entry_held entry_nonroot entry_found

-- The same store, with the entry in the cache.
abbrev warm_store : PersistStore caching
warm_store = record {
  cache_with_description = false;
  db = list_store.db;
  cache = some (some (entry_key, container two_keys));
}
