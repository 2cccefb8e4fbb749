-- ===== src/Store/Mem/Catalog.antt =====
-- The schemas of the memory store after each operation that changes them.
use sdcio_schema_server.Base.{
  ◌≡◌, refl, sym, ap, subst, ◌∙◌, Bool, true, false, ◌&&◌, ◌||◌, not, none, some, List, [], ◌∷◌,
  Str, lookup, insert, remove, Dict, lookup-insert, lookup-remove, All, Result, ok, schema_exists,
  refuse, refuse_ok, >>=-eq-ok, Bool-cases, inl, inr, arith,
}
use sdcio_schema_server.Sdcpb.{SchemaName}
use sdcio_schema_server.Yang.{Entry}
use sdcio_schema_server.Schema.Element.{Annotations}
use sdcio_schema_server.Schema.Load.{Host, Schema, new_schema}
use sdcio_schema_server.Schema.Load.Named.{new_schema-config}
use sdcio_schema_server.Store.{
  SchemaKey, key_beq, key_eq, key_of, key_in, request_key, config_of, check_names, create_request,
}
use sdcio_schema_server.Store.Mem.{
  MemStore, the_schema, has_schema, add_schema, create_schema, delete_schema,
}

-- Each schema stands under its own key.
abbrev pub IsKeyed : MemStore → Type 0
IsKeyed s = All (λ p. key_of p.1 ≡ p.0) s.schemas

All-insert :
    (k : SchemaKey) (sc : Schema) (m : Dict SchemaKey Schema)
    → key_of sc ≡ k
    → All (λ p. key_of p.1 ≡ p.0) m
    → All (λ p. key_of p.1 ≡ p.0) (insert k sc m)
unfolding insert
All-insert k sc [] e h = (e, tt)
All-insert k sc ((j, v) ∷ m) e (g, h) = elim (Bool-cases (key_beq j k)) [
  | inl b ↦ rw b (e, h)
  | inr b ↦ rw b (g, All-insert k sc m e h)
]

All-remove :
    (k : SchemaKey) (m : Dict SchemaKey Schema)
    → All (λ p. key_of p.1 ≡ p.0) m
    → All (λ p. key_of p.1 ≡ p.0) (remove k m)
unfolding remove
All-remove k [] h = tt
All-remove k ((j, v) ∷ m) (g, h) = elim (Bool-cases (key_beq j k)) [
  | inl b ↦ rw b (All-remove k m h)
  | inr b ↦ rw b (g, All-remove k m h)
]

pub key_of-lookup :
    (k : SchemaKey) (sc : Schema) (m : Dict SchemaKey Schema)
    → All (λ p. key_of p.1 ≡ p.0) m
    → lookup k m ≡ some sc
    → key_of sc ≡ k
unfolding lookup
key_of-lookup k sc [] h e = cc
key_of-lookup k sc ((j, v) ∷ m) (g, h) e =
    ground (arith, key_of-lookup k sc m h, key_eq.is_same_iff j k)

pub the_schema-lookup :
    (s : MemStore) (k : SchemaKey) {sc : Schema}
    → the_schema s k ≡ ok sc
    → lookup k s.schemas ≡ some sc
unfolding the_schema
the_schema-lookup s k e = ground arith

pub has_schema-add_schema :
    (s : MemStore) (sc : Schema) (j : SchemaKey)
    → has_schema (add_schema s sc) j ≡ (key_beq (key_of sc) j || has_schema s j)
unfolding has_schema add_schema
has_schema-add_schema s sc j = elim (Bool-cases (key_beq (key_of sc) j)) [
  | inl b ↦ rw (lookup-insert (key_of sc) j sc s.schemas, b, has_schema, add_schema)
  | inr b ↦ rw (lookup-insert (key_of sc) j sc s.schemas, b, has_schema, add_schema)
]

pub delete_schema-parts :
    (s s' : MemStore) (n : SchemaName)
    → delete_schema s (some n) ≡ ok s'
    → (has_schema s (request_key n) ≡ true) × (s'.schemas ≡ remove (request_key n) s.schemas)
unfolding delete_schema has_schema
delete_schema-parts s s' n e =
    let (u, e1, r1) = >>=-eq-ok (check_names n) _ e in
    let (sc, e2, r2) = >>=-eq-ok (the_schema s (request_key n)) _ r1 in
    (rw (the_schema-lookup s (request_key n) e2, has_schema), sym (schemas_eq r2))
  where
    schemas_eq : {a b : MemStore} → ◌≡◌ {A = Result MemStore} (ok a) (ok b) → a.schemas ≡ b.schemas
    schemas_eq h = cc

pub has_schema_without :
    (s s' : MemStore) (k j : SchemaKey)
    → s'.schemas ≡ remove k s.schemas
    → has_schema s' j ≡ (has_schema s j && not (key_beq k j))
unfolding has_schema
has_schema_without s s' k j e = elim (Bool-cases (key_beq k j)) [
  | inl b ↦
      rw (e, lookup-remove k j s.schemas, b, has_schema)
        (sym (and_false (elim (lookup j s.schemas) [ none ↦ false | some sc ↦ true ])))
  | inr b ↦
      rw (e, lookup-remove k j s.schemas, b, has_schema)
        (sym (and_true (elim (lookup j s.schemas) [ none ↦ false | some sc ↦ true ])))
]
  where
    and_false : (b : Bool) → (b && false) ≡ false
    and_false true = refl
    and_false false = refl

    and_true : (b : Bool) → (b && true) ≡ b
    and_true true = refl
    and_true false = refl

-- A deletion that succeeds removes the schema that the request names, which was there, and no other;
-- if each schema stood under its own key, each does so afterwards.
pub has_schema-delete_schema_mem :
    (s s' : MemStore) (n : SchemaName) (j : SchemaKey)
    → IsKeyed s
    → delete_schema s (some n) ≡ ok s'
    → IsKeyed s'
      × (has_schema s (request_key n) ≡ true)
      × (has_schema s' j ≡ (has_schema s j && not (key_beq (request_key n) j)))
has_schema-delete_schema_mem s s' n j g e =
    let (present, same) = delete_schema-parts s s' n e in
    (
      subst (All (λ p. key_of p.1 ≡ p.0)) (sym same) (All-remove (request_key n) s.schemas g),
      present,
      has_schema_without s s' (request_key n) j same,
    )

module _ (h : Host) (annotate : Entry → Result Annotations) (fs ds xs : List Str) where
  pub create_schema-parts :
      (s s' : MemStore) (n m : SchemaName)
      → create_schema h annotate s (create_request n fs ds xs) ≡ ok (m, s')
      → (has_schema s (request_key n) ≡ false)
        × (m ≡ n)
        × (sc : Schema) × (new_schema h annotate (config_of n fs ds xs) ≡ ok sc)
        × (s' ≡ add_schema s sc)
  unfolding create_schema
  create_schema-parts s s' n m e =
      let (u, e1, r1) = >>=-eq-ok (refuse (has_schema s (request_key n)) schema_exists) _ e in
      let (v, e2, r2) = >>=-eq-ok (check_names n) _ r1 in
      let (sc, e3, r3) = >>=-eq-ok (new_schema h annotate (config_of n fs ds xs)) _ r2 in
      (refuse_ok _ _ e1, ap (λ p. p.0) (pair_eq r3), sc, e3, ap (λ p. p.1) (pair_eq r3))
    where
      pair_eq :
          {a b : SchemaName × MemStore}
          → ◌≡◌ {A = Result (SchemaName × MemStore)} (ok a) (ok b)
          → b ≡ a
      pair_eq k = cc

  -- A creation that succeeds answers with the name of the request, whose schema was not there, adds
  -- that schema and no other; if each schema stood under its own key, each does so afterwards.
  pub has_schema-create_schema_mem :
      (s s' : MemStore) (n m : SchemaName) (j : SchemaKey)
      → IsKeyed s
      → create_schema h annotate s (create_request n fs ds xs) ≡ ok (m, s')
      → IsKeyed s'
        × (m ≡ n)
        × (has_schema s (request_key n) ≡ false)
        × (has_schema s' j ≡ (key_beq (request_key n) j || has_schema s j))
  has_schema-create_schema_mem s s' n m j g e =
      let (absent, named, sc, parsed, same) = create_schema-parts s s' n m e in
      let keyed = ap key_in (new_schema-config h annotate (config_of n fs ds xs) parsed).2 in
      (
        subst IsKeyed (sym same) (unfold add_schema in All-insert (key_of sc) sc s.schemas refl g),
        named,
        absent,
        ap (λ (t : MemStore). has_schema t j) same
            ∙ (has_schema-add_schema s sc j
                ∙ ap (λ (k : SchemaKey). key_beq k j || has_schema s j) keyed),
      )
