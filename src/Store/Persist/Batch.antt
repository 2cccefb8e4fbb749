-- ===== src/Store/Persist/Batch.antt =====
-- The batch that `AddSchema` writes: the entries, and the schema's own key.
use sdcio_schema_server.Base.{
  >>=-eq-ok, ◌≡◌, refl, sym, ap, subst, true, false, ◌||◌, none, some, List, [], ◌∷◌, ◌++◌, Str,
  str_eq, str_beq, ◌==◌, All, All-append, str_beq_iff, beq_refl, Result, ok, is_ok, Yields,
  Yields-ok, Yields-if, Yields-bind, Bool-cases, inl, inr, arith, if◌then◌else◌,
}
use sdcio_schema_server.Yang.{Entry, bare, node, Dir, end, child, dir, Goyang}
use sdcio_schema_server.Schema.Children.{is_hidden}
use sdcio_schema_server.Schema.Element.{Annotations}
use sdcio_schema_server.Schema.Container.{schema_elem_from}
use sdcio_schema_server.Schema.Load.{Schema}
use sdcio_schema_server.Store.{SchemaKey, key_beq, key_beq_iff, key_of}
use sdcio_schema_server.Store.Keys.{
  schema_objects_prefix, build_schema_key, build_entry_key, get_entry_path,
}
use sdcio_schema_server.Store.Keys.Injective.{IsSeparable, build_schema_key-injective}
use sdcio_schema_server.Store.Badger.{Libs, IsReliable, written}
use sdcio_schema_server.Store.Persist.{
  PersistStore, has_schema, set_elem, add_elem, add_dir, add_root, sources_of, batch, flushed,
  add_schema,
}
use sdcio_schema_server.Store.Persist.Delete.{commit_ok}

-- A key of the kind of entries.
abbrev pub IsObjectKey : Str × Str → Type 0
IsObjectKey w = (rest : Str) × (w.0 ≡ schema_objects_prefix ∷ rest)

build_entry_key-IsObjectKey :
    (k : SchemaKey) (path : List Str) (key b : Str)
    → build_entry_key k path ≡ ok key
    → IsObjectKey (key, b)
unfolding build_entry_key
build_entry_key-IsObjectKey k [] key b h = cc
build_entry_key-IsObjectKey k (p ∷ ps) key b h = (_, ok_eq h)
  where
    ok_eq : {s t : Str} → ◌≡◌ {A = Result Str} (ok s) (ok t) → t ≡ s
    ok_eq h = cc

-- No entry's key is a schema's key.
pub written-IsObjectKey :
    (k : SchemaKey) (ws : List (Str × Str))
    → All IsObjectKey ws
    → written (build_schema_key k) ws ≡ none
unfolding written build_schema_key
written-IsObjectKey k [] h = refl
written-IsObjectKey k ((j, v) ∷ ws) ((rest, e), h) = ground (arith, written-IsObjectKey k ws h)

module _ (l : Libs) (y : Goyang) where
  set_elem-IsObjectKey :
      (k : SchemaKey) (notes : Annotations) (above : List Entry) (e : Entry)
      (lower : Result (List (Str × Str)))
      → Yields (All IsObjectKey) lower
      → Yields (All IsObjectKey) (set_elem l y k notes above e lower)
  unfolding set_elem
  set_elem-IsObjectKey k notes above e lower h =
      Yields-bind (All IsObjectKey) (get_entry_path y (record { here = e; above = above })) _
        (λ path _. Yields-bind (All IsObjectKey) (build_entry_key k path) _ (λ key made.
          Yields-bind (All IsObjectKey)
            (schema_elem_from y notes true (record { here = e; above = above })) _
            (λ se _. Yields-bind (All IsObjectKey) (l.marshal se) _ (λ b _.
              Yields-bind (All IsObjectKey) lower _ (λ ws e'.
                Yields-ok (All IsObjectKey) _
                  (build_entry_key-IsObjectKey k path key b made, h.at ws e'))))))

  mutual
    unfolding add_elem

    add_elem-IsObjectKey :
        (e : Entry) (k : SchemaKey) (notes : Annotations) (above : List Entry)
        → Yields (All IsObjectKey) (add_elem l y k notes above e)
    add_elem-IsObjectKey (bare a) k notes above =
        Yields-if (All IsObjectKey) (is_hidden y (bare a)) _ _
          (λ _. Yields-ok (All IsObjectKey) [] tt)
          (λ _.
            set_elem-IsObjectKey k notes above (bare a) (ok []) (Yields-ok (All IsObjectKey) [] tt))
    add_elem-IsObjectKey (node a d) k notes above =
        Yields-if (All IsObjectKey) (is_hidden y (node a d)) _ _
          (λ _. add_dir-IsObjectKey d k notes (node a d ∷ above))
          (λ _.
            set_elem-IsObjectKey k notes above (node a d) _
              (add_dir-IsObjectKey d k notes (node a d ∷ above)))

    add_dir-IsObjectKey :
        (d : Dir) (k : SchemaKey) (notes : Annotations) (above : List Entry)
        → Yields (All IsObjectKey) (add_dir l y k notes above d)
    add_dir-IsObjectKey end k notes above = Yields-ok (All IsObjectKey) [] tt
    add_dir-IsObjectKey (child j e d) k notes above =
        Yields-bind (All IsObjectKey) (add_elem l y k notes above e) _ (λ ws e1.
          Yields-bind (All IsObjectKey) (add_dir l y k notes above d) _ (λ vs e2.
            Yields-ok (All IsObjectKey) (ws ++ vs) (
              All-append IsObjectKey ws vs ((add_elem-IsObjectKey e k notes above).at ws e1)
                ((add_dir-IsObjectKey d k notes above).at vs e2))))

  pub add_root-IsObjectKey :
      (k : SchemaKey) (sc : Schema) → Yields (All IsObjectKey) (add_root l y k sc)
  unfolding add_root
  add_root-IsObjectKey k sc =
      set_elem-IsObjectKey k sc.notes [] sc.root _ (add_dir-IsObjectKey (dir sc.root) k sc.notes [])

  -- What an addition that succeeded has written.
  pub record Added (s : PersistStore l) (sc : Schema) (s' : PersistStore l) : Type 0 where
    pub objects : List (Str × Str)
    pub walked : add_root l y (key_of sc) sc ≡ ok objects
    pub object_keys : All IsObjectKey objects
    pub sources : Str
    pub marshalled : l.marshal_sources (sources_of sc) ≡ ok sources
    pub flushed : l.flush (objects ++ (build_schema_key (key_of sc), sources) ∷ []) s.db ≡ ok s'.db

  pub batch-parts :
      (sc : Schema) (all_ : List (Str × Str))
      → batch l y sc ≡ ok all_
      → (ws : List (Str × Str)) × (b : Str) × (add_root l y (key_of sc) sc ≡ ok ws)
        × (l.marshal_sources (sources_of sc) ≡ ok b)
        × (all_ ≡ ws ++ (build_schema_key (key_of sc), b) ∷ [])
  unfolding batch
  batch-parts sc all_ h =
      let (ws, e1, r1) = >>=-eq-ok (add_root l y (key_of sc) sc) _ h in
      let (b, e2, r2) = >>=-eq-ok (l.marshal_sources (sources_of sc)) _ r1 in
      (ws, b, e1, e2, ok_list r2)
    where
      ok_list :
          {ps qs : List (Str × Str)} → ◌≡◌ {A = Result (List (Str × Str))} (ok ps) (ok qs) → qs ≡ ps
      ok_list g = cc

  flushed-Added :
      (s : PersistStore l) (sc : Schema) (d : l.Db)
      → flushed l y s (batch l y sc) ≡ ok d
      → Added s sc (record s { db = d })
  flushed-Added s sc d h =
      let (all_, made, done) = >>=-eq-ok (batch l y sc) (λ vs. l.flush vs s.db) h in
      let (ws, b, walked, marshalled, same) = batch-parts sc all_ made in
      record {
        objects = ws;
        walked = walked;
        object_keys = (add_root-IsObjectKey (key_of sc) sc).at ws walked;
        sources = b;
        marshalled = marshalled;
        flushed = subst (λ vs. l.flush vs s.db ≡ ok d) same done;
      }

  pub add_schema-Added :
      (s : PersistStore l) (sc : Schema)
      → (add_schema l y s sc).0 ≡ ok tt
      → Added s sc (add_schema l y s sc).1
  unfolding add_schema
  add_schema-Added s sc h =
      let (d, e, r) = commit_ok l s _ (flushed l y s (batch l y sc)) h in
      subst (Added s sc) (sym r) (flushed-Added s sc d e)

pub written-append :
    (k j v : Str) (ws : List (Str × Str))
    → written k (ws ++ (j, v) ∷ []) ≡ (if j == k then some v else written k ws)
unfolding written
written-append k j v [] = refl
written-append k j v ((i, w) ∷ ws) = ground (arith, written-append k j v ws)

written_last : (k v : Str) (ws : List (Str × Str)) → written k (ws ++ (k, v) ∷ []) ≡ some v
written_last k v ws = rw (written-append k k v ws, beq_refl k)

keys_differ :
    (j k : SchemaKey)
    → IsSeparable j
    → IsSeparable k
    → key_beq j k ≡ false
    → str_beq (build_schema_key j) (build_schema_key k) ≡ false
keys_differ j k hj hk e = elim (Bool-cases (str_beq (build_schema_key j) (build_schema_key k))) [
  | inl same ↦
      cc (e, (key_beq_iff j k).1 (build_schema_key-injective j k hj hk ((str_beq_iff _ _).0 same)))
  | inr other ↦ other
]

written_other :
    (j k : SchemaKey) (v : Str) (ws : List (Str × Str))
    → IsSeparable j
    → IsSeparable k
    → key_beq j k ≡ false
    → All IsObjectKey ws
    → written (build_schema_key k) (ws ++ (build_schema_key j, v) ∷ []) ≡ none
written_other j k v ws hj hk e h =
    rw (written-append (build_schema_key k) (build_schema_key j) v ws, keys_differ j k hj hk e)
      (written-IsObjectKey k ws h)

module _ (l : Libs) (y : Goyang) (r : IsReliable l) where
  -- The schema's own key is read back.
  pub get-Added :
      {s s' : PersistStore l} {sc : Schema}
      → (d : Added l y s sc s') → l.get s'.db (build_schema_key (key_of sc)) ≡ ok d.sources
  get-Added {s} {s'} {sc} d =
      r.get-flush_written _ s.db s'.db (build_schema_key (key_of sc)) d.sources d.flushed
        (written_last (build_schema_key (key_of sc)) d.sources d.objects)

  -- The schemas after an addition: those before, and the new one.
  pub has_schema-Added :
      {s s' : PersistStore l} {sc : Schema} (j : SchemaKey)
      → IsSeparable (key_of sc)
      → IsSeparable j
      → Added l y s sc s'
      → has_schema l s' j ≡ (key_beq (key_of sc) j || has_schema l s j)
  has_schema-Added {s} {s'} {sc} j hk hj d = elim (Bool-cases (key_beq (key_of sc) j)) [
    | inl e ↦ rw e (
        subst (λ (i : SchemaKey). has_schema l s' i ≡ true) ((key_beq_iff (key_of sc) j).0 e)
          (unfold has_schema in ap is_ok (get-Added d)))
    | inr e ↦ rw e (
        unfold has_schema in
        ap is_ok (
          r.get-flush_other _ s.db s'.db (build_schema_key j) d.flushed
            (written_other (key_of sc) j d.sources d.objects hk hj e d.object_keys)))
  ]
