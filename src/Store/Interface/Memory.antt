-- ===== src/Store/Interface/Memory.antt =====
-- The memory store keeps the promises of the interface.
use sdcio_schema_server.Base.{
  ◌≡◌, ◌≢◌, refl, ap, ◌∙◌, true, false, ◌&&◌, ◌||◌, not, some, List, Str, Result, ok, err, panic,
  beq_refl,
}
use sdcio_schema_server.Sdcpb.{SchemaName}
use sdcio_schema_server.Yang.{Entry}
use sdcio_schema_server.Schema.Element.{Annotations}
use sdcio_schema_server.Schema.Load.{Host}
use sdcio_schema_server.Schema.Load.Named.{new_schema-config}
use sdcio_schema_server.Store.{
  SchemaKey, key_beq, key_eq, key_in, request_key, create_request, config_of,
}
use sdcio_schema_server.Store.Mem.{MemStore, has_schema, add_schema, create_schema, delete_schema}
use sdcio_schema_server.Store.Mem.Catalog.{
  has_schema-add_schema, create_schema-parts, delete_schema-parts, has_schema_without,
}
use sdcio_schema_server.Store.Interface.{StoreOps, IsStore}

-- The store behind a call, which an error leaves as it was.
abbrev pub created_in : MemStore → Result (SchemaName × MemStore) → Result (Unit {0}) × MemStore
created_in s (ok (n, t)) = (ok tt, t)
created_in s (err e) = (err e, s)
created_in s panic = (panic, s)

abbrev pub deleted_in : MemStore → Result MemStore → Result (Unit {0}) × MemStore
deleted_in s (ok t) = (ok tt, t)
deleted_in s (err e) = (err e, s)
deleted_in s panic = (panic, s)

created_in_ok :
    (s : MemStore) (r : Result (SchemaName × MemStore))
    → (created_in s r).0 ≡ ok tt
    → (n : SchemaName) × (r ≡ ok (n, (created_in s r).1))
created_in_ok s (ok (n, t)) h = (n, refl)
created_in_ok s (err e) h = cc
created_in_ok s panic h = cc

created_in_failed :
    (s : MemStore) (r : Result (SchemaName × MemStore))
    → (created_in s r).0 ≢ ok tt
    → (created_in s r).1 ≡ s
created_in_failed s (ok p) h = absurd (h refl)
created_in_failed s (err e) h = refl
created_in_failed s panic h = refl

deleted_in_ok :
    (s : MemStore) (r : Result MemStore) → (deleted_in s r).0 ≡ ok tt → r ≡ ok (deleted_in s r).1
deleted_in_ok s (ok t) h = refl
deleted_in_ok s (err e) h = cc
deleted_in_ok s panic h = cc

deleted_in_failed :
    (s : MemStore) (r : Result MemStore) → (deleted_in s r).0 ≢ ok tt → (deleted_in s r).1 ≡ s
deleted_in_failed s (ok t) h = absurd (h refl)
deleted_in_failed s (err e) h = refl
deleted_in_failed s panic h = refl

module _ (h : Host) (annotate : Entry → Result Annotations) where
  abbrev pub memory : StoreOps
  memory = record {
    State = MemStore;
    has_schema = has_schema;
    add_schema = λ s sc. (ok tt, add_schema s sc);
    create_schema = λ s r. created_in s (create_schema h annotate s r);
    delete_schema = λ s n. deleted_in s (delete_schema s n);
  }

  created_lem :
      (s : MemStore) (n : SchemaName) (fs ds xs : List Str) (j : SchemaKey)
      → (created_in s (create_schema h annotate s (create_request n fs ds xs))).0 ≡ ok tt
      → (has_schema s (request_key n) ≡ false)
        × (has_schema (created_in s (create_schema h annotate s (create_request n fs ds xs))).1 j
            ≡ (key_beq (request_key n) j || has_schema s j))
  created_lem s n fs ds xs j g =
      let (m, e) = created_in_ok s (create_schema h annotate s (create_request n fs ds xs)) g in
      let (absent, named, sc, parsed, same) = create_schema-parts h annotate fs ds xs s _ n m e in
      let keyed = ap key_in (new_schema-config h annotate (config_of n fs ds xs) parsed).2 in
      (
        absent,
        ap (λ (t : MemStore). has_schema t j) same
            ∙ (has_schema-add_schema s sc j
                ∙ ap (λ (k : SchemaKey). key_beq k j || has_schema s j) keyed),
      )

  deleted_lem :
      (s : MemStore) (n : SchemaName) (j : SchemaKey)
      → (deleted_in s (delete_schema s (some n))).0 ≡ ok tt
      → (has_schema s (request_key n) ≡ true)
        × (has_schema (deleted_in s (delete_schema s (some n))).1 j
            ≡ (has_schema s j && not (key_beq (request_key n) j)))
  deleted_lem s n j g =
      let (present, same) =
        delete_schema-parts s _ n (deleted_in_ok s (delete_schema s (some n)) g) in
      (present, has_schema_without s _ (request_key n) j same)

  pub memory-IsStore : IsStore memory key_beq
  memory-IsStore = record {
    drops_self = λ k. beq_refl k;
    has_schema-add_schema = λ s sc j _ _ _. has_schema-add_schema s sc j;
    add_schema_failed = λ s sc g. absurd (g refl);
    has_schema-create_schema = λ s n fs ds xs j _ _ g. created_lem s n fs ds xs j g;
    create_schema_failed = λ s r g. created_in_failed s (create_schema h annotate s r) g;
    has_schema-delete_schema = λ s n j _ _ g. deleted_lem s n j g;
    delete_schema_failed = λ s n g. deleted_in_failed s (delete_schema s n) g;
  }
