-- ===== src/Store/Mem/Overlap.antt =====
-- Two creations of one schema in the memory store, one between the two parts of the other.
use sdcio_schema_server.Base.{
  ◌≡◌, refl, sym, ap, subst, ◌∙◌, true, false, ◌||◌, List, Str, lookup, insert, lookup-insert,
  Result, ok, err, schema_exists, refuse, >>=-eq-ok, Bool-cases, inl, inr, beq_refl,
}
use sdcio_schema_server.Sdcpb.{SchemaName}
use sdcio_schema_server.Yang.{Entry}
use sdcio_schema_server.Schema.Element.{Annotations}
use sdcio_schema_server.Schema.Load.{Host, Schema, new_schema}
use sdcio_schema_server.Schema.Load.Named.{new_schema-config}
use sdcio_schema_server.Store.{
  SchemaKey, key_beq, key_eq, key_of, key_in, request_key, config_of, check_names, create_request,
}
use sdcio_schema_server.Store.Mem.{MemStore, has_schema, add_schema, create_schema, create_between}
use sdcio_schema_server.Store.Mem.Catalog.{has_schema-add_schema}

key_beq_same : (k : SchemaKey) → key_beq k k ≡ true
key_beq_same k = beq_refl k

-- A schema that was added twice is what it was the second time.
lookup-added_twice :
    (s : MemStore) (a b : Schema) (j : SchemaKey)
    → key_of a ≡ key_of b
    → lookup j (add_schema (add_schema s a) b).schemas ≡ lookup j (add_schema s b).schemas
unfolding add_schema
lookup-added_twice s a b j same = elim (Bool-cases (key_beq (key_of b) j)) [
  | inl here ↦
      rw
        (
          lookup-insert (key_of b) j b (insert (key_of a) a s.schemas),
          lookup-insert (key_of b) j b s.schemas,
          here,
        )
        refl
  | inr other ↦
      rw
        (
          lookup-insert (key_of b) j b (insert (key_of a) a s.schemas),
          lookup-insert (key_of b) j b s.schemas,
          other,
          lookup-insert (key_of a) j a s.schemas,
          subst (λ k. key_beq k j ≡ false) (sym same) other,
        )
        refl
]

lookup-second :
    (s s1 s2 : MemStore) (a b : Schema) (j : SchemaKey)
    → s1 ≡ add_schema s a
    → s2 ≡ add_schema s b
    → key_of a ≡ key_of b
    → lookup j (add_schema s1 b).schemas ≡ lookup j s2.schemas
lookup-second s s1 s2 a b j at1 at2 same = rw (at1, at2) (lookup-added_twice s a b j same)

has_schema-added :
    (s : MemStore) (a : Schema) (k : SchemaKey)
    → key_of a ≡ k
    → has_schema (add_schema s a) k ≡ true
has_schema-added s a k same =
    has_schema-add_schema s a k
    ∙ (ap (λ i. key_beq i k || has_schema s k) same
        ∙ ap (λ t. t || has_schema s k) (key_beq_same k))

module _ (h : Host) (annotate : Entry → Result Annotations) where
  -- A creation that succeeds, with the store in which it writes replaced.
  create_schema-elsewhere :
      (s s' t : MemStore) (n m : SchemaName) (fs ds xs : List Str)
      → create_schema h annotate s (create_request n fs ds xs) ≡ ok (m, s')
      → (sc : Schema) × (s' ≡ add_schema s sc)
        × (key_of sc ≡ request_key n)
        × (create_between h annotate s t (create_request n fs ds xs) ≡ ok (n, add_schema t sc))
  unfolding create_schema create_between
  create_schema-elsewhere s s' t n m fs ds xs e =
      let (u, e1, r1) = >>=-eq-ok (refuse (has_schema s (request_key n)) schema_exists) _ e in
      let (v, e2, r2) = >>=-eq-ok (check_names n) _ r1 in
      let (sc, e3, r3) = >>=-eq-ok (new_schema h annotate (config_of n fs ds xs)) _ r2 in
      (
        sc,
        store_eq r3,
        ap key_in (new_schema-config h annotate (config_of n fs ds xs) e3).2,
        rw (e1, e2, e3) refl,
      )
    where
      store_eq :
          {a b : SchemaName × MemStore}
          → ◌≡◌ {A = Result (SchemaName × MemStore)} (ok a) (ok b)
          → b.1 ≡ a.1
      store_eq k = cc

  -- A schema that was just added is not created again.
  create_schema-add_schema :
      (s s1 : MemStore) (a : Schema) (n : SchemaName) (fs ds xs : List Str)
      → s1 ≡ add_schema s a
      → key_of a ≡ request_key n
      → create_schema h annotate s1 (create_request n fs ds xs) ≡ err schema_exists
  unfolding create_schema create_between
  create_schema-add_schema s s1 a n fs ds xs at k =
      rw (at, has_schema-added s a (request_key n) k) refl

  -- Two requests create a schema of the same name, and either would succeed alone. Behind the first
  -- the second is refused; but if the first comes between the test and the write of the second, the
  -- second succeeds too, and the store then holds under each key what it would hold without the
  -- first.
  pub create_between-create_schema :
      (s s1 s2 : MemStore) (n m1 m2 : SchemaName) (fs ds xs gs es ys : List Str)
      → create_schema h annotate s (create_request n fs ds xs) ≡ ok (m1, s1)
      → create_schema h annotate s (create_request n gs es ys) ≡ ok (m2, s2)
      → (create_schema h annotate s1 (create_request n gs es ys) ≡ err schema_exists)
        × (s3 : MemStore) × (create_between h annotate s s1 (create_request n gs es ys)
            ≡ ok (n, s3))
        × ((j : SchemaKey) → lookup j s3.schemas ≡ lookup j s2.schemas)
  create_between-create_schema s s1 s2 n m1 m2 fs ds xs gs es ys e1 e2 =
      let (a, at1, key_a, first) = create_schema-elsewhere s s1 s n m1 fs ds xs e1 in
      let (b, at2, key_b, second) = create_schema-elsewhere s s2 s1 n m2 gs es ys e2 in
      (
        create_schema-add_schema s s1 a n gs es ys at1 key_a,
        add_schema s1 b,
        second,
        λ j. lookup-second s s1 s2 a b j at1 at2 (key_a ∙ sym key_b),
      )
