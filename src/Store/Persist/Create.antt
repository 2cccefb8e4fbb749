-- ===== src/Store/Persist/Create.antt =====
-- What `CreateSchema` does to the schemas of the persistent store.
use sdcio_schema_server.Base.{
  ◌≡◌, refl, sym, ap, subst, true, false, ◌||◌, List, Str, schema_exists, Result, ok, err, panic,
  >>=-eq-ok, refuse, refuse_ok,
}
use sdcio_schema_server.Sdcpb.{SchemaName}
use sdcio_schema_server.Yang.{Entry, Goyang}
use sdcio_schema_server.Schema.Element.{Annotations}
use sdcio_schema_server.Schema.Load.{Host, Schema, find_yang_files, new_schema}
use sdcio_schema_server.Schema.Load.Named.{new_schema-config}
use sdcio_schema_server.Store.{
  SchemaKey, key_beq, key_of, request_key, config_of, check_names, create_request, key_in,
}
use sdcio_schema_server.Store.Keys.{build_schema_key}
use sdcio_schema_server.Store.Keys.Injective.{IsSeparable}
use sdcio_schema_server.Store.Badger.{Libs, IsReliable}
use sdcio_schema_server.Store.Persist.{
  PersistStore, has_schema, get_schema_details, add_parsed, created, create_schema, sources_of,
}
use sdcio_schema_server.Store.Persist.Batch.{Added, add_schema-Added, get-Added, has_schema-Added}

module _ (l : Libs) (y : Goyang) (h : Host) (annotate : Entry → Result Annotations)
    (fs ds xs : List Str) where
  -- What a creation that succeeded has done: the schema was not there, was parsed under the names of
  -- the request, and was added.
  pub record Created (s : PersistStore l) (n : SchemaName) (s' : PersistStore l) : Type 0 where
    pub absent : has_schema l s (request_key n) ≡ false
    pub parsed : Schema
    pub parses : new_schema h annotate (config_of n fs ds xs) ≡ ok parsed
    pub keyed : key_of parsed ≡ request_key n
    pub added : Added l y s parsed s'

  Created-of_add :
      (s : PersistStore l) (n : SchemaName) (r : Result Schema)
      → created l y h annotate s (create_request n fs ds xs) ≡ r
      → (add_parsed l y h annotate s r).0 ≡ ok tt
      → Created s n (add_parsed l y h annotate s r).1
  unfolding created
  Created-of_add s n (err e) eq k = cc
  Created-of_add s n panic eq k = cc
  Created-of_add s n (ok sc) eq k =
      let (u, e1, r1) = >>=-eq-ok (refuse (has_schema l s (request_key n)) schema_exists) _ eq in
      let (v, e2, r2) =
        >>=-eq-ok (check_names n) (λ x. new_schema h annotate (config_of n fs ds xs)) r1 in
      record {
        absent = refuse_ok _ _ e1;
        parsed = sc;
        parses = r2;
        keyed = ap key_in (new_schema-config h annotate (config_of n fs ds xs) r2).2;
        added = add_schema-Added l y s sc k;
      }

  pub create_schema-Created :
      (s : PersistStore l) (n : SchemaName)
      → (create_schema l y h annotate s (create_request n fs ds xs)).0 ≡ ok tt
      → Created s n (create_schema l y h annotate s (create_request n fs ds xs)).1
  unfolding create_schema
  create_schema-Created s n g = Created-of_add s n _ refl g

  -- A creation that succeeds adds the schema that the request names and no other: it was not in
  -- the store, it is there now, and every other schema is there exactly if it was before. The
  -- libraries are reliable, and the names and vendors hold no `@`.
  pub has_schema-create_schema :
      (r : IsReliable l) (s : PersistStore l) (n : SchemaName) (j : SchemaKey)
      → IsSeparable (request_key n)
      → IsSeparable j
      → (create_schema l y h annotate s (create_request n fs ds xs)).0 ≡ ok tt
      → (has_schema l s (request_key n) ≡ false)
        × (has_schema l (create_schema l y h annotate s (create_request n fs ds xs)).1 j
            ≡ (key_beq (request_key n) j || has_schema l s j))
  has_schema-create_schema r s n j hn hj g =
      let c = create_schema-Created s n g in
      (
        c.absent,
        subst
            (λ (k : SchemaKey).
              has_schema l (create_schema l y h annotate s (create_request n fs ds xs)).1 j
              ≡ (key_beq k j || has_schema l s j))
            c.keyed (has_schema-Added l y r j (subst IsSeparable (sym c.keyed) hn) hj c.added),
      )

  read_back :
      (r : IsReliable l) {s : PersistStore l} (s' : PersistStore l) (n : SchemaName)
      (c : Created s n s') (found : List Str)
      → c.parsed.config ≡ record (config_of n fs ds xs) { files = found }
      → get_schema_details l s' n
        ≡ ok (record { schema = n; file = found; directory = ds; exclude = xs })
  unfolding get_schema_details
  read_back r s' n c found same =
      let stored =
        subst (λ (k : SchemaKey). l.get s'.db (build_schema_key k) ≡ ok c.added.sources) c.keyed
          (get-Added l y r c.added) in
      let decoded =
        r.unmarshal-marshal_sources (sources_of c.parsed) c.added.sources c.added.marshalled in
      rw (stored, r.value_copy_ok c.added.sources, decoded, same)

  -- After a creation that succeeds, `GetSchemaDetails` returns the files that were found and the
  -- directories and the excludes of the request, if the libraries are reliable.
  pub get_schema_details-create_schema :
      (r : IsReliable l) (s : PersistStore l) (n : SchemaName)
      → (create_schema l y h annotate s (create_request n fs ds xs)).0 ≡ ok tt
      → (found : List Str) × (find_yang_files h fs ≡ ok found)
        × (get_schema_details l (create_schema l y h annotate s (create_request n fs ds xs)).1 n
            ≡ ok (record { schema = n; file = found; directory = ds; exclude = xs }))
  get_schema_details-create_schema r s n g =
      let c = create_schema-Created s n g in
      let (found, e, same) = new_schema-config h annotate (config_of n fs ds xs) c.parses in
      (found, e, read_back r _ n c found same)

  -- A schema that exists is not created again, and the store is as it was.
  pub create_schema_refused :
      (s : PersistStore l) (n : SchemaName)
      → has_schema l s (request_key n) ≡ true
      → create_schema l y h annotate s (create_request n fs ds xs) ≡ (err schema_exists, s)
  unfolding create_schema created
  create_schema_refused s n e = rw e
