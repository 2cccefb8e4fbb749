-- ===== src/Store/Mem/Tests.antt =====
-- The theorems of the memory store at concrete stores.
use sdcio_schema_server.Base.{
  ◌≡◌, refl, lookup, schema_exists, true, false, ◌&&◌, ◌||◌, not, some, List, [], ◌∷◌, Str, codes,
  ok, err, external,
}
use sdcio_schema_server.Schema.Tests.{if_root}
use sdcio_schema_server.Schema.Load.{Schema, find_yang_files}
use sdcio_schema_server.Store.{SchemaKey, key_beq, key_eq, request_key, create_request, config_of}
use sdcio_schema_server.Store.Sample.{host, annotate_none, no_notes, srl_name}
use sdcio_schema_server.Store.Mem.{
  MemStore, new, the_schema, has_schema, create_schema, delete_schema, reload_schema,
  create_between,
}
use sdcio_schema_server.Store.Mem.Catalog.{
  IsKeyed, has_schema-create_schema_mem, has_schema-delete_schema_mem,
}
use sdcio_schema_server.Store.Mem.Overlap.{create_between-create_schema}
use sdcio_schema_server.Store.Mem.Reload.{empty_root, reload_schema_forgets}

-- The schema that is read from one file.
abbrev schema_from : Str → Schema
schema_from f = record {
  config = config_of srl_name (f ∷ []) [] [];
  root = if_root;
  notes = no_notes;
  status = codes "ok";
}

abbrev store_of : Schema → MemStore
store_of sc = record { schemas = (request_key srl_name, sc) ∷ [] }

abbrev srl_files : List Str
srl_files = codes "srl.yang" ∷ []

srl_created :
    create_schema host annotate_none new (create_request srl_name srl_files [] [])
    ≡ ok (srl_name, store_of (schema_from (codes "srl.yang")))
unfolding create_schema
srl_created = refl

has_schema-create_schema_mem_example :
    IsKeyed (store_of (schema_from (codes "srl.yang")))
    × (srl_name ≡ srl_name)
    × (has_schema new (request_key srl_name) ≡ false)
    × (has_schema (store_of (schema_from (codes "srl.yang"))) (request_key srl_name) ≡ (
        key_beq (request_key srl_name) (request_key srl_name)
        || has_schema new (request_key srl_name)))
has_schema-create_schema_mem_example =
    has_schema-create_schema_mem host annotate_none srl_files [] [] new
      (store_of (schema_from (codes "srl.yang"))) srl_name srl_name (request_key srl_name) tt
      srl_created

srl_deleted : delete_schema (store_of (schema_from (codes "srl.yang"))) (some srl_name) ≡ ok new
unfolding delete_schema
srl_deleted = refl

has_schema-delete_schema_mem_example :
    IsKeyed new
    × (has_schema (store_of (schema_from (codes "srl.yang"))) (request_key srl_name) ≡ true)
    × (has_schema new (request_key srl_name) ≡ (
        has_schema (store_of (schema_from (codes "srl.yang"))) (request_key srl_name)
        && not (key_beq (request_key srl_name) (request_key srl_name))))
has_schema-delete_schema_mem_example =
    has_schema-delete_schema_mem (store_of (schema_from (codes "srl.yang"))) new srl_name
      (request_key srl_name) (refl, tt) srl_deleted

-- A schema whose file has gone.
abbrev gone : Schema
gone = schema_from (codes "missing.yang")

gone_at : the_schema (store_of gone) (request_key srl_name) ≡ ok gone
unfolding the_schema
gone_at = refl

gone_not_found : find_yang_files host gone.config.files ≡ err (external (codes "missing.yang"))
unfolding find_yang_files
gone_not_found = refl

reload_schema_forgets_example :
    ((reload_schema host annotate_none (store_of gone) (some srl_name)).0
      ≡ err (external (codes "missing.yang")))
    × ((reload_schema host annotate_none
          (reload_schema host annotate_none (store_of gone) (some srl_name)).1
          (some srl_name)).0
        ≡ ok tt)
    × (found : Schema) × (the_schema
          (reload_schema host annotate_none
            (reload_schema host annotate_none (store_of gone) (some srl_name)).1
            (some srl_name)).1
          (request_key srl_name)
        ≡ ok found)
    × (found.root ≡ empty_root host)
reload_schema_forgets_example =
    reload_schema_forgets host annotate_none (store_of gone) srl_name gone
      (external (codes "missing.yang")) no_notes (refl, tt) gone_at gone_not_found refl

-- The same schema, for another request.
abbrev other : Schema
other = record (schema_from (codes "srl.yang")) {
  config = config_of srl_name srl_files [] (codes "x" ∷ []);
}

other_created :
    create_schema host annotate_none new (create_request srl_name srl_files [] (codes "x" ∷ []))
    ≡ ok (srl_name, store_of other)
unfolding create_schema
other_created = refl

create_between-create_schema_example :
    (create_schema host annotate_none
        (store_of (schema_from (codes "srl.yang")))
        (create_request srl_name srl_files [] (codes "x" ∷ []))
      ≡ err schema_exists)
    × (s : MemStore) × (create_between host annotate_none new
          (store_of (schema_from (codes "srl.yang")))
          (create_request srl_name srl_files [] (codes "x" ∷ []))
        ≡ ok (srl_name, s))
    × ((j : SchemaKey) → lookup j s.schemas ≡ lookup j (store_of other).schemas)
create_between-create_schema_example =
    create_between-create_schema host annotate_none new (store_of (schema_from (codes "srl.yang")))
      (store_of other) srl_name srl_name srl_name srl_files [] [] srl_files [] (codes "x" ∷ [])
      srl_created other_created
