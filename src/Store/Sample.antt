-- ===== src/Store/Sample.antt =====
-- Concrete libraries for the tests: a database that is a list of keys and values, with codecs for
-- what the tests store, and a host with one file.
use sdcio_schema_server.Base.{◌&&◌}
use sdcio_schema_server.Base.{
  ◌≡◌, refl, ap, true, false, Option, none, some, List, [], ◌∷◌, Str, codes, str_eq, ◌==◌, Dict,
  lookup, insert, lookup-insert, has_prefix, Result, ok, err, key_not_found, external,
  if◌then◌else◌, arith,
}
use sdcio_schema_server.Sdcpb.{
  SchemaElem, container, ContainerSchema, LeafSchema, leaf_type, SchemaName,
}
use sdcio_schema_server.Sdcpb
use sdcio_schema_server.Yang.{Entry}
use sdcio_schema_server.Schema.Element.{Annotations}
use sdcio_schema_server.Schema.Load.{Host, regular}
use sdcio_schema_server.Schema.Tests.{if_module}
use sdcio_schema_server.Store.{key_beq}
use sdcio_schema_server.Store.Badger.{
  CacheKey, Libs, Sources, written, has_any_prefix, IsReliable, IsWritable, KeepsLast,
}

abbrev found : Str → Option Str → Result Str
found k none = err (key_not_found k)
found k (some v) = ok v

abbrev get_value : Dict Str Str → Str → Result Str
get_value db k = found k (lookup k db)

unfoldable pub put_all : List (Str × Str) → Dict Str Str → Dict Str Str
unfolding insert
put_all [] db = db
put_all ((k, v) ∷ ws) db = put_all ws (insert k v db)

unfoldable pub without : List Str → Dict Str Str → Dict Str Str
unfolding has_any_prefix
without ps [] = []
without ps ((k, v) ∷ db) =
    let rest = without ps db in if has_any_prefix ps k then rest else (k, v) ∷ rest

unfoldable pub keys_from : Str → Dict Str Str → List Str
unfolding has_prefix
keys_from p [] = []
keys_from p ((k, v) ∷ db) = let rest = keys_from p db in if has_prefix p k then k ∷ rest else rest

-- The sources of a schema that has one file and nothing else.
abbrev one_file : Str → Sources
one_file f = record { files = f ∷ []; directories = []; excludes = [] }

abbrev encode_lists : List Str → List Str → List Str → Result Str
encode_lists (f ∷ []) [] [] = ok f
encode_lists _ _ _ = err (external [])

abbrev encode : Sources → Result Str
encode c = encode_lists c.files c.directories c.excludes

abbrev pub libs : Libs
libs = record {
  Db = Dict Str Str;
  get = get_value;
  value_copy = ok;
  flush = λ ws db. ok (put_all ws db);
  drop_prefix = λ ps db. ok (without ps db);
  failed_flush = λ ws db. db;
  failed_drop = λ ps db. db;
  keys_with = keys_from;
  marshal = λ e. ok [];
  unmarshal = λ b. err (external b);
  marshal_sources = encode;
  unmarshal_sources = λ b. ok (one_file b);
  Cache = Unit;
  cached = λ c k. none;
  store = λ k e c. c;
}

lookup-put_all :
    (k : Str) (ws : List (Str × Str)) (db : Dict Str Str)
    → lookup k (put_all ws db) ≡ elim (written k ws) [ some v ↦ some v | none ↦ lookup k db ]
unfolding put_all written
lookup-put_all k [] db = refl
lookup-put_all k ((j, v) ∷ ws) db =
    ground (arith, lookup-put_all k ws (insert j v db), lookup-insert j k v db)

lookup-without_gone :
    (ps : List Str) (db : Dict Str Str) (k : Str)
    → has_any_prefix ps k ≡ true
    → lookup k (without ps db) ≡ none
unfolding without lookup
lookup-without_gone ps [] k h = refl
lookup-without_gone ps ((j, v) ∷ db) k h =
    ground (arith, lookup-without_gone ps db k, str_eq.is_same_iff j k)

lookup-without_kept :
    (ps : List Str) (db : Dict Str Str) (k : Str)
    → has_any_prefix ps k ≡ false
    → lookup k (without ps db) ≡ lookup k db
unfolding without lookup
lookup-without_kept ps [] k h = refl
lookup-without_kept ps ((j, v) ∷ db) k h =
    ground (arith, lookup-without_kept ps db k, str_eq.is_same_iff j k)

ok_eq {ℓ} : {A : Type ℓ} {a b : A} → ◌≡◌ {A = Result A} (ok a) (ok b) → a ≡ b
ok_eq h = cc

encode_lists-one :
    (fs ds xs : List Str) (b : Str)
    → encode_lists fs ds xs ≡ ok b
    → ◌≡◌ {A = Sources} (one_file b) (record { files = fs; directories = ds; excludes = xs })
encode_lists-one (f ∷ []) [] [] b h = cc
encode_lists-one [] ds xs b h = cc
encode_lists-one (f ∷ (g ∷ fs)) ds xs b h = cc
encode_lists-one (f ∷ []) (d ∷ ds) xs b h = cc
encode_lists-one (f ∷ []) [] (x ∷ xs) b h = cc

pub libs-IsReliable : IsReliable libs
libs-IsReliable = record {
  value_copy_ok = λ v. refl;
  get-flush_written = λ ws db db' k v e h. rw (← ok_eq e, lookup-put_all k ws db, h);
  get-flush_other = λ ws db db' k e h. rw (← ok_eq e, lookup-put_all k ws db, h);
  get-drop_gone = λ ps db db' k e h. rw (← ok_eq e, lookup-without_gone ps db k h);
  get-drop_kept = λ ps db db' k e h. rw (← ok_eq e, lookup-without_kept ps db k h);
  unmarshal-marshal_sources =
      λ c b h. ap ok (encode_lists-one c.files c.directories c.excludes b h);
}

pub libs-IsWritable : IsWritable libs
libs-IsWritable = record {
  flush_ok = λ ws db. (put_all ws db, refl);
  drop_ok = λ ps db. (without ps db, refl);
}

-- The same with a database that refuses to write.
abbrev pub read_only : Libs
read_only = record libs { flush = λ ws db. err (external []) }

pub read_only-IsReliable : IsReliable read_only
read_only-IsReliable = record {
  value_copy_ok = libs-IsReliable.value_copy_ok;
  get-flush_written = λ ws db db' k v e h. cc;
  get-flush_other = λ ws db db' k e h. cc;
  get-drop_gone = libs-IsReliable.get-drop_gone;
  get-drop_kept = libs-IsReliable.get-drop_kept;
  unmarshal-marshal_sources = libs-IsReliable.unmarshal-marshal_sources;
}

pub read_only-KeepsLast : KeepsLast read_only
read_only-KeepsLast = record { get-failed_flush = λ ws k v db e h. refl }

abbrev key_leaf : Str → LeafSchema
key_leaf n = record {
  name = n;
  namespace = [];
  prefix = [];
  description = [];
  type = leaf_type [] [] [] [] [] [] [] [] Sdcpb.UnionTypes.nil;
  is_mandatory = false;
  default = [];
  units = [];
  must_statements = [];
  is_state = false;
  reference = [];
  choice_info = none;
  if_feature = [];
}

-- A list with two keys, below the module `if`.
abbrev pub two_keys : ContainerSchema
two_keys = record {
  name = codes "entry";
  namespace = [];
  prefix = [];
  description = [];
  keys = key_leaf (codes "name") ∷ (key_leaf (codes "type") ∷ []);
  fields = [];
  leaflists = [];
  children = codes "if" ∷ [];
  must_statements = [];
  is_state = false;
  is_presence = false;
  is_user_ordered = false;
  max_elements = 0;
  min_elements = 0;
  choice_info = none;
  if_feature = [];
}

-- A codec that reads every value as that list.
abbrev pub always_list : Libs
always_list = record libs { unmarshal = λ b. ok (container two_keys) }

-- A host on which each path is a YANG file, and each file has the module of the schema's tests.
abbrev pub host : Host
host = record {
  stat = λ p. if p == codes "missing.yang" then err (external p) else ok regular;
  visit = λ p. ok [];
  ext = λ p. codes ".yang";
  compile = λ e. ok (λ s. false);
  Modules = List Entry;
  no_modules = [];
  paths_with_modules = λ p. ok (p ∷ []);
  add_path = λ ps m. m;
  read = λ f m. ok (if_module ∷ m);
  process = λ m. m;
  process_errors = λ m. [];
  to_entries = λ m. m;
}

abbrev pub no_notes : Annotations
no_notes n = []

abbrev pub annotate_none : Entry → Result Annotations
annotate_none e = ok no_notes

abbrev pub srl_name : SchemaName
srl_name = record { name = codes "srl"; vendor = codes "Nokia"; version = codes "22.3" }

-- The same with a cache of one item.
abbrev pub item_at : Option (CacheKey × SchemaElem) → CacheKey → Option SchemaElem
item_at none k = none
item_at (some (j, e)) k = if key_beq j.schema k.schema && (j.path == k.path) then some e else none

abbrev pub caching : Libs
caching = record always_list {
  Cache = Option (CacheKey × SchemaElem);
  cached = item_at;
  store = λ k e c. some (k, e);
}
