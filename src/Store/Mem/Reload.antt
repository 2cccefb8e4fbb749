-- ===== src/Store/Mem/Reload.antt =====
-- What a reload of the memory store leaves behind when the files of the schema are not found.
use sdcio_schema_server.Base.{
  ◌≡◌, refl, subst, some, [], codes, insert, lookup-insert, Error, Result, ok, err, beq_refl,
}
use sdcio_schema_server.Config.{SchemaConfig}
use sdcio_schema_server.Sdcpb.{SchemaName}
use sdcio_schema_server.Yang.{Entry, node, end}
use sdcio_schema_server.Schema.Element.{Annotations}
use sdcio_schema_server.Schema.Load.{
  Host, Schema, config_after, find_yang_files, new_schema, read_yang_files, reload, root_attrs,
  root_dir,
}
use sdcio_schema_server.Store.{SchemaKey, key_eq, key_of, request_key}
use sdcio_schema_server.Store.Mem.{
  MemStore, the_schema, add_schema, reload_schema, mark_reloading, stored,
}
use sdcio_schema_server.Store.Mem.Catalog.{IsKeyed, key_of-lookup, the_schema-lookup}

the_schema-insert :
    (s : MemStore) (k : SchemaKey) (sc : Schema)
    → the_schema (record s { schemas = insert k sc s.schemas }) k ≡ ok sc
unfolding the_schema
the_schema-insert s k sc = rw (lookup-insert k k sc s.schemas, beq_refl k, the_schema)

-- The root of a schema that is read from no file.
abbrev pub empty_root : Host → Entry
empty_root h = node root_attrs (root_dir (h.to_entries h.no_modules) end)

module _ (h : Host) (annotate : Entry → Result Annotations) where
  reload_schema_err :
      (s : MemStore) (n : SchemaName) (sc : Schema) (e : Error)
      → the_schema s (request_key n) ≡ ok sc
      → reload h annotate sc ≡ err e
      → reload_schema h annotate s (some n)
        ≡ (err e, mark_reloading h annotate s (request_key n) sc)
  unfolding reload_schema stored
  reload_schema_err s n sc e a b = rw (a, b, reload_schema, stored)

  reload_schema_ok :
      (s : MemStore) (n : SchemaName) (sc parsed : Schema)
      → the_schema s (request_key n) ≡ ok sc
      → reload h annotate sc ≡ ok parsed
      → reload_schema h annotate s (some n)
        ≡ (ok tt, add_schema (mark_reloading h annotate s (request_key n) sc) parsed)
  unfolding reload_schema stored
  reload_schema_ok s n sc parsed a b = rw (a, b, reload_schema, stored)

  reload_not_found :
      (sc : Schema) (e : Error)
      → find_yang_files h sc.config.files ≡ err e
      → reload h annotate sc ≡ err e
  unfolding reload new_schema
  reload_not_found sc e g = rw g

  config_after_not_found :
      (c : SchemaConfig) (e : Error)
      → find_yang_files h c.files ≡ err e
      → config_after h c ≡ record c { files = [] }
  unfolding config_after
  config_after_not_found c e g = rw (g, config_after)

  reload_no_files :
      (sc : Schema) (notes : Annotations)
      → sc.config.files ≡ []
      → annotate (empty_root h) ≡ ok notes
      → reload h annotate sc
        ≡ ok (record {
          config = record sc.config { files = [] };
          root = empty_root h;
          notes = notes;
          status = codes "ok";
        })
  unfolding reload new_schema find_yang_files read_yang_files
  reload_no_files sc notes e g = rw (e, find_yang_files, read_yang_files, g)

  the_schema_marked :
      (s : MemStore) (n : SchemaName) (sc : Schema) (e : Error)
      → find_yang_files h sc.config.files ≡ err e
      → the_schema (mark_reloading h annotate s (request_key n) sc) (request_key n)
        ≡ ok (record sc { status = codes "reloading"; config = record sc.config { files = [] } })
  unfolding mark_reloading
  the_schema_marked s n sc e g =
      rw (config_after_not_found sc.config e g) (the_schema-insert s (request_key n) _)

  the_schema-add_schema :
      (s : MemStore) (k : SchemaKey) (sc : Schema)
      → key_of sc ≡ k
      → the_schema (add_schema s sc) k ≡ ok sc
  unfolding add_schema
  the_schema-add_schema s k sc e =
      subst (λ (j : SchemaKey). the_schema (add_schema s sc) j ≡ ok sc) e
        (the_schema-insert s (key_of sc) sc)

  -- A reload that does not find the files of the schema is refused, but the stored schema has then
  -- forgotten its files: a second reload succeeds, and stores a schema that is read from no file.
  -- Before, each schema stood under its own key; the empty root can be annotated.
  pub reload_schema_forgets :
      (s : MemStore) (n : SchemaName) (sc : Schema) (e : Error) (notes : Annotations)
      → IsKeyed s
      → the_schema s (request_key n) ≡ ok sc
      → find_yang_files h sc.config.files ≡ err e
      → annotate (empty_root h) ≡ ok notes
      → ((reload_schema h annotate s (some n)).0 ≡ err e)
        × ((reload_schema h annotate (reload_schema h annotate s (some n)).1 (some n)).0 ≡ ok tt)
        × (found : Schema) × (the_schema
              (reload_schema h annotate (reload_schema h annotate s (some n)).1 (some n)).1
              (request_key n)
            ≡ ok found)
        × (found.root ≡ empty_root h)
  reload_schema_forgets s n sc e notes keyed at missing noted =
      let first = reload_schema_err s n sc e at (reload_not_found sc e missing) in
      let marked = mark_reloading h annotate s (request_key n) sc in
      let emptied : Schema = record sc {
        status = codes "reloading";
        config = record sc.config { files = [] };
      } in
      let parsed : Schema = record {
        config = emptied.config;
        root = empty_root h;
        notes = notes;
        status = codes "ok";
      } in
      let second =
        reload_schema_ok marked n emptied parsed (the_schema_marked s n sc e missing)
          (reload_no_files emptied notes refl noted) in
      let same_key =
        key_of-lookup (request_key n) sc s.schemas keyed (the_schema-lookup s (request_key n) at) in
      rw (first, second)
        (refl, refl, parsed, the_schema-add_schema _ (request_key n) parsed same_key, refl)
