-- ===== src/Server/Rpcs/Uploaded.antt =====
-- What an upload does to the store.
use sdcio_schema_server.Base.{
  ◌≡◌, ◌≢◌, refl, sym, ap, subst, ◌∙◌, Bool, false, ◌||◌, List, [], ◌∷◌, Str, Error, Result, ok,
  err, panic, schema_exists, >>=-eq-ok, refuse, refuse_ok,
}
use sdcio_schema_server.Sdcpb.{CreateSchemaRequest, UploadSchemaRequest, create_schema}
use sdcio_schema_server.Config.{SchemaConfig}
use sdcio_schema_server.Yang.{Entry}
use sdcio_schema_server.Schema.Element.{Annotations}
use sdcio_schema_server.Schema.Load.{Host, Schema, new_schema}
use sdcio_schema_server.Schema.Load.Named.{new_schema-config}
use sdcio_schema_server.Store.{
  SchemaKey, key_beq, key_of, key_in, request_key, check_names, config_of,
}
use sdcio_schema_server.Store.Keys.Injective.{IsSeparable}
use sdcio_schema_server.Store.Interface.{StoreOps, IsStore}
use sdcio_schema_server.Server.Os.{Os}
use sdcio_schema_server.Server.Upload.{Session, dirname_of, clean_schema_dir}
use sdcio_schema_server.Server.Upload.First.{named, first_config}
use sdcio_schema_server.Server.Upload.Always.{Always, Always-bind, Always-then, Always-on_error}
use sdcio_schema_server.Server.Upload.Complete.{receive-names}
use sdcio_schema_server.Server.Rpcs.{
  as_internal, received, parsed, stored, upload_from, upload_schema,
}

-- The request that a first message is accepted for, and the configuration that it starts.
first_config-parts :
    (has : SchemaKey → Bool) (r : CreateSchemaRequest) (c : SchemaConfig)
    → first_config has (create_schema r) ≡ ok c
    → (has (request_key (named r.schema)) ≡ false) × (key_in c ≡ request_key (named r.schema))
unfolding first_config
first_config-parts has r c e =
    let (_, e1, r1) = >>=-eq-ok (check_names (named r.schema)) _ e in
    let (_, e2, r2) = >>=-eq-ok (refuse (has (request_key (named r.schema))) schema_exists) _ r1 in
    (refuse_ok _ schema_exists e2, sym (same_key (config_of (named r.schema) [] [] r.exclude) r2))
  where
    same_key :
        (b : SchemaConfig) → ◌≡◌ {A = Result SchemaConfig} (ok b) (ok c) → key_in b ≡ key_in c
    same_key b h = cc

module _ (os : Os) (host_of : os.Disk → Host) (o : StoreOps) (annotate : Entry → Result Annotations)
    (schemas_dir : Str) where
  received-names :
      (c : SchemaConfig) (ms : List UploadSchemaRequest) (end : Error)
      → Always
          (λ (up : Session os). key_in up.config ≡ key_in c)
          (received os host_of o annotate schemas_dir c ms end)
  unfolding received
  received-names c ms end =
      Always-then _
        (λ d. as_internal (os.remove_all (os.join (schemas_dir ∷ (dirname_of c ∷ []))) d)) _
        (λ u. record {
          at = λ d up e.
              receive-names os schemas_dir (dirname_of c) (record { config = c; handled = [] }) ms
                end d up e;
        })

  parsed-key :
      (c : SchemaConfig) (ms : List UploadSchemaRequest) (end : Error)
      → Always (λ sc. key_of sc ≡ key_in c) (parsed os host_of o annotate schemas_dir c ms end)
  unfolding parsed
  parsed-key c ms end =
      Always-bind _ _ (received os host_of o annotate schemas_dir c ms end) _
        (received-names c ms end)
        (λ up same.
          Always-on_error _ (λ d. (new_schema (host_of d) annotate up.config, d))
            (clean_schema_dir os schemas_dir (dirname_of c))
            (record {
              at =
                  λ d sc e. ap key_in (new_schema-config (host_of d) annotate up.config e).2 ∙ same;
            }))

  module _ (drops : SchemaKey → SchemaKey → Bool) (store : IsStore o drops) where
    stored_adds :
        (s : o.State) (p : Result Schema × os.Disk) (k j : SchemaKey)
        → IsSeparable k
        → IsSeparable j
        → ((sc : Schema) → p.0 ≡ ok sc → key_of sc ≡ k)
        → (stored os host_of o annotate schemas_dir s p).0 ≡ ok tt
        → o.has_schema (stored os host_of o annotate schemas_dir s p).1.0 j
          ≡ (key_beq k j || o.has_schema s j)
    stored_adds s (ok sc, d) k j hk hj named_k e =
        store.has_schema-add_schema s sc j (subst IsSeparable (sym (named_k sc refl)) hk) hj e
        ∙ ap (λ (i : SchemaKey). key_beq i j || o.has_schema s j) (named_k sc refl)
    stored_adds s (err x, d) k j hk hj named_k e = cc
    stored_adds s (panic, d) k j hk hj named_k e = cc

    stored_failed :
        (s : o.State) (p : Result Schema × os.Disk)
        → (stored os host_of o annotate schemas_dir s p).0 ≢ ok tt
        → (stored os host_of o annotate schemas_dir s p).1.0 ≡ s
    stored_failed s (ok sc, d) h = store.add_schema_failed s sc h
    stored_failed s (err x, d) h = refl
    stored_failed s (panic, d) h = refl

    upload_from-adds :
        (r : CreateSchemaRequest) (f : Result SchemaConfig) (ms : List UploadSchemaRequest)
        (end : Error) (s : o.State) (d : os.Disk) (j : SchemaKey)
        → first_config (o.has_schema s) (create_schema r) ≡ f
        → IsSeparable (request_key (named r.schema))
        → IsSeparable j
        → (upload_from os host_of o annotate schemas_dir f ms end (s, d)).0 ≡ ok tt
        → (o.has_schema s (request_key (named r.schema)) ≡ false)
          × (o.has_schema (upload_from os host_of o annotate schemas_dir f ms end (s, d)).1.0 j
              ≡ (key_beq (request_key (named r.schema)) j || o.has_schema s j))
    upload_from-adds r (ok c) ms end s d j first hk hj e =
        let (absent, same) = first_config-parts (o.has_schema s) r c first in
        (
          absent,
          stored_adds s (parsed os host_of o annotate schemas_dir c ms end d) _ j hk hj
              (λ sc p. (parsed-key c ms end).at d sc p ∙ same) e,
        )
    upload_from-adds r (err x) ms end s d j first hk hj e = cc
    upload_from-adds r panic ms end s d j first hk hj e = cc

    -- An upload that succeeds adds the schema that its first message names and no other: it was not in
    -- the store, it is there now, and every other schema is there exactly if it was before. The store
    -- keeps the promises of the interface, and the names and vendors hold no `@`.
    pub has_schema-upload_schema :
        (r : CreateSchemaRequest) (ms : List UploadSchemaRequest) (end : Error) (s : o.State)
        (d : os.Disk) (j : SchemaKey)
        → IsSeparable (request_key (named r.schema))
        → IsSeparable j
        → (upload_schema os host_of o annotate schemas_dir (create_schema r ∷ ms) end (s, d)).0
          ≡ ok tt
        → (o.has_schema s (request_key (named r.schema)) ≡ false)
          × (o.has_schema
                (upload_schema os host_of o annotate schemas_dir
                  (create_schema r ∷ ms)
                  end
                  (s, d)).1.0
                j
              ≡ (key_beq (request_key (named r.schema)) j || o.has_schema s j))
    unfolding upload_schema
    has_schema-upload_schema r ms end s d j hk hj e =
        upload_from-adds r (first_config (o.has_schema s) (create_schema r)) ms end s d j refl hk hj
          e
