-- ===== src/Store/Persist/Names.antt =====
-- The names that `ListSchema` reads from the keys of the database.
use sdcio_schema_server.Base.{◌≡◌, refl, List, [], ◌∷◌, map, All}
use sdcio_schema_server.Sdcpb.{SchemaName}
use sdcio_schema_server.Store.{request_key}
use sdcio_schema_server.Store.Keys.{schemas_prefix, build_schema_key}
use sdcio_schema_server.Store.Keys.Injective.{IsSeparable, parse_schema_key-build_schema_key}
use sdcio_schema_server.Store.Badger.{Libs}
use sdcio_schema_server.Store.Persist.{PersistStore, names_in, list_schema}

module _ (l : Libs) where
  names_in-build_schema_key :
      (ns : List SchemaName)
      → All (λ n. IsSeparable (request_key n)) ns
      → names_in l (map (λ n. build_schema_key (request_key n)) ns) ≡ ns
  unfolding names_in
  names_in-build_schema_key [] h = refl
  names_in-build_schema_key (n ∷ ns) (h, hs) =
      rw (parse_schema_key-build_schema_key n h, names_in, names_in-build_schema_key ns hs)

  -- A database whose keys behind the prefix of the schemas are those of some schemas lists exactly
  -- these, in the order of the keys, if no name and no vendor holds an `@`.
  pub list_schema-names :
      (s : PersistStore l) (ns : List SchemaName)
      → All (λ n. IsSeparable (request_key n)) ns
      → l.keys_with (schemas_prefix ∷ []) s.db ≡ map (λ n. build_schema_key (request_key n)) ns
      → list_schema l s ≡ ns
  unfolding list_schema
  list_schema-names s ns h e = rw (e, list_schema) (names_in-build_schema_key ns h)
