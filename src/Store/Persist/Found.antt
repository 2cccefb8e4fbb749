-- ===== src/Store/Persist/Found.antt =====
-- What `getSchema` reads of a schema that was added: the entries of its data tree.
pub mod Named
pub mod Tests
use sdcio_schema_server.Base.{
  ℕ, Bool, ◌≡◌, ◌≢◌, refl, sym, ap, subst, ◌∙◌, inl, inr, true, false, none, some, List, [], ◌∷◌,
  ◌++◌, Str, str_eq, ◌==◌, Lacks, cut_at-append, cut_at, Result, ok, All, Bool-cases, if◌then◌else◌,
  ◌>>=◌, arith,
}
use sdcio_schema_server.Sdcpb.{SdcPath, SchemaElem}
use sdcio_schema_server.Yang.{Entry, Dir, dir, Node, Goyang}
use sdcio_schema_server.Schema.Children.{is_hidden}
use sdcio_schema_server.Schema.Element.{Annotations}
use sdcio_schema_server.Schema.Container.{schema_elem_from}
use sdcio_schema_server.Schema.Lookup.{query_of}
use sdcio_schema_server.Schema.BuildPath.{has_prefix_part}
use sdcio_schema_server.Schema.Load.{Schema}
use sdcio_schema_server.Schema.References.Kept.{InDir}
use sdcio_schema_server.Store.{SchemaKey, key_of}
use sdcio_schema_server.Store.Keys.{
  schema_objects_prefix, build_entry_key, build_schema_key, get_entry_path,
}
use sdcio_schema_server.Store.Badger.{Libs, IsReliable, written}
use sdcio_schema_server.Store.Persist.{PersistStore, add_schema, add_root}
use sdcio_schema_server.Store.Persist.Batch.{Added, add_schema-Added, IsObjectKey, written-append}
use sdcio_schema_server.Store.Persist.Cached.{add_schema-SameCache, cache_key, get_schema_at-miss}
use sdcio_schema_server.Store.Persist.Reads.{
  hit, module_key, first_value, lookup_elem, get_schema_at, with_cache,
}
use sdcio_schema_server.Store.Persist.Stored.{
  ok_inj, In, All-In, written-In, written-some, Made, set_elem_parts, Shown, Holds, Holds-add_dir,
  All-add_dir,
}
use sdcio_schema_server.Xpath.Strings.{to_strings}

-- Protobuf reads back the messages that it wrote.
pub record IsCodec (l : Libs) : Type 0 where
  pub unmarshal-marshal : (e : SchemaElem) (b : Str) → l.marshal e ≡ ok b → l.unmarshal b ≡ ok e

-- An entry of the data tree of a schema: the root, or one below it that is no choice and no case.
pub data InSchema (y : Goyang) (root : Entry) : Node → Type 0 where
  at_root : InSchema y root (record { here = root; above = [] })
  below_root : {m : Node} → InDir [] (dir root) m → is_hidden y m.here ≡ false → InSchema y root m

module _ (l : Libs) (y : Goyang) (k : SchemaKey) (sc : Schema) where
  -- A node of the data tree whose entry has the key, with its message.
  pub record Answer (key : Str) (e : SchemaElem) : Type 0 where
    pub at : Node
    pub inside : InSchema y sc.root at
    pub path : List Str
    pub named : get_entry_path y at ≡ ok path
    pub keyed : build_entry_key k path ≡ ok key
    pub converted : schema_elem_from y sc.notes true at ≡ ok e

  -- A write of the message of such a node.
  abbrev Told : Str × Str → Type 0
  Told w = (e : SchemaElem) × Answer w.0 e × (l.marshal e ≡ ok w.1)

  Made-Told : (m : Node) (w : Str × Str) → InSchema y sc.root m → Made l y k sc.notes m w → Told w
  Made-Told m w i d = (
    d.elem,
    record {
      at = m;
      inside = i;
      path = d.path;
      named = d.named;
      keyed = d.keyed;
      converted = d.converted;
    },
    d.marshalled,
  )

  add_root-Told : (ws : List (Str × Str)) → add_root l y k sc ≡ ok ws → All Told ws
  unfolding add_root
  add_root-Told ws h =
      let (w, vs, made, read, same) = set_elem_parts l y k sc.notes [] sc.root _ h in
      rw same (
        Made-Told _ w at_root made,
        All-add_dir l y k sc.notes Told (dir sc.root) [] vs
            (λ m i shown u d. Made-Told m u (below_root i shown) d) read,
      )

  add_root-Holds :
      (m : Node) (ws : List (Str × Str))
      → InSchema y sc.root m
      → add_root l y k sc ≡ ok ws
      → Holds l y k sc.notes m ws
  unfolding add_root
  add_root-Holds m ws at_root h =
      let (w, vs, made, read, same) = set_elem_parts l y k sc.notes [] sc.root _ h in
      (w, made, subst (In w) (sym same) (inl refl))
  add_root-Holds m ws (below_root i shown) h =
      let (w, vs, made, read, same) = set_elem_parts l y k sc.notes [] sc.root _ h in
      let (u, d, there) = Holds-add_dir l y k sc.notes (dir sc.root) [] m vs i shown read in
      (u, d, subst (In u) (sym same) (inr there))

own_key_differs :
    (k : SchemaKey) (rest : Str) → (build_schema_key k == schema_objects_prefix ∷ rest) ≡ false
unfolding build_schema_key
own_key_differs k rest = refl

-- The schema's own key, at the end of a batch, leaves the keys of entries as they are.
written-own :
    (k : SchemaKey) (key v b : Str) (ws : List (Str × Str))
    → IsObjectKey (key, b)
    → written key ws ≡ some b
    → written key (ws ++ (build_schema_key k, v) ∷ []) ≡ some b
written-own k key v b ws (rest, e) h = rw (written-append key (build_schema_key k) v ws) (
    subst (λ u. (if build_schema_key k == u then some v else written key ws) ≡ some b) (sym e)
      (rw (own_key_differs k rest) h))

has_prefix_part-append :
    (c : ℕ) (s p : Str) → Lacks b':' (c ∷ s) → has_prefix_part ((c ∷ s) ++ b':' ∷ p) ≡ true
has_prefix_part-append c s p h = rw (cut_at-append b':' (c ∷ s) p h, has_prefix_part)

query_of-append :
    (c : ℕ) (s p : Str) (ps : List Str)
    → Lacks b':' (c ∷ s)
    → query_of ((c ∷ s) ++ b':' ∷ p) ps ≡ record { first = c ∷ s; head = p; rest = p ∷ ps }
unfolding query_of
query_of-append c s p ps h = rw (cut_at-append b':' (c ∷ s) p h, query_of)

Made-key :
    (l : Libs) (y : Goyang) (k : SchemaKey) (notes : Annotations) (m : Node) (w : Str × Str)
    (key : Str)
    → Made l y k notes m w
    → get_entry_path y m >>= build_entry_key k ≡ ok key
    → w.0 ≡ key
Made-key l y k notes m w key d h = ok_inj (sym d.keyed ∙ (rw d.named at h))

module _ (l : Libs) (y : Goyang) (r : IsReliable l) (codec : IsCodec l) where
  -- The read of one entry of an added schema.
  get-stored :
      {s s' : PersistStore l} {sc : Schema} (key : Str) (m : Node)
      → (d : Added l y s sc s') → InSchema y sc.root m
      → get_entry_path y m >>= build_entry_key (key_of sc) ≡ ok key
      → (b : Str) × (l.get s'.db key ≡ ok b)
        × (e : SchemaElem) × Answer l y (key_of sc) sc key e
        × (l.unmarshal b ≡ ok e)
  get-stored {s} {s'} {sc} key m d i keyed =
      let k = key_of sc in
      let (w, made, there) = add_root-Holds l y k sc m d.objects i d.walked in
      let same = Made-key l y k sc.notes m w key made keyed in
      let shape =
        subst (λ u. IsObjectKey (u, [])) same
          (All-In IsObjectKey w d.objects d.object_keys there) in
      let (b, last) =
        written-In key w.1 d.objects (subst (λ u. In (u, w.1) d.objects) same there) in
      let (e, answer, marshalled) =
        All-In (Told l y k sc) (key, b) d.objects (add_root-Told l y k sc d.objects d.walked)
          (written-some key b d.objects last) in
      (
        b,
        r.get-flush_written _ s.db s'.db key b d.flushed
            (written-own k key d.sources b d.objects shape last),
        e,
        answer,
        codec.unmarshal-marshal e b marshalled,
      )

  first_value-found :
      (s : PersistStore l) (k : SchemaKey) (c p : Str) (ps : List Str) (key b : Str)
      → module_key l k c (p ∷ ps) ≡ ok key
      → l.get s.db key ≡ ok b
      → first_value l s k (p ∷ ps) (c ∷ []) ≡ ok b
  unfolding first_value
  first_value-found s k c p ps key b keyed found =
      rw (keyed, found, first_value) (r.value_copy_ok b)

  lookup_elem-prefixed :
      (s : PersistStore l) (k : SchemaKey) (p : Str) (ps : List Str)
      → has_prefix_part p ≡ true
      → lookup_elem l s k (p ∷ ps)
        ≡ first_value l s k (query_of p ps).rest ((query_of p ps).first ∷ []) >>= l.unmarshal
  unfolding lookup_elem
  lookup_elem-prefixed s k p ps h = rw (h, lookup_elem)

  lookup_elem-own :
      (s : PersistStore l) (k : SchemaKey) (c : ℕ) (cs p : Str) (ps : List Str) (key b : Str)
      → Lacks b':' (c ∷ cs)
      → (p == c ∷ cs) ≡ false
      → build_entry_key k ((c ∷ cs) ∷ (p ∷ ps)) ≡ ok key
      → l.get s.db key ≡ ok b
      → lookup_elem l s k (((c ∷ cs) ++ b':' ∷ p) ∷ ps) ≡ l.unmarshal b
  lookup_elem-own s k c cs p ps key b lacks other keyed found =
      lookup_elem-prefixed s k ((c ∷ cs) ++ b':' ∷ p) ps (has_prefix_part-append c cs p lacks)
      ∙ rw (query_of-append c cs p ps lacks) (
          ap (λ v. v >>= l.unmarshal)
            (first_value-found s k (c ∷ cs) p ps key b (rw other keyed) found))

build_entry_key_ok :
    (k : SchemaKey) (p : Str) (ps : List Str) → (key : Str) × (build_entry_key k (p ∷ ps) ≡ ok key)
unfolding build_entry_key
build_entry_key_ok k p ps = (_, refl)

module _ (l : Libs) (y : Goyang) (r : IsReliable l) (codec : IsCodec l) where
  -- A request for an entry below its module is answered from the database with the message of an
  -- entry that has the same key.
  pub get_schema_at-add_schema :
      (s : PersistStore l) (sc : Schema) (m : Node) (c : ℕ) (cs p : Str) (ps : List Str)
      (path : SdcPath) (with_desc : Bool)
      → (add_schema l y s sc).0 ≡ ok tt
      → InSchema y sc.root m
      → get_entry_path y m ≡ ok ((c ∷ cs) ∷ (p ∷ ps))
      → Lacks b':' (c ∷ cs)
      → (p == c ∷ cs) ≡ false
      → to_strings path false true ≡ ((c ∷ cs) ++ b':' ∷ p) ∷ ps
      → hit l s.cache (cache_key path (key_of sc)) ≡ none
      → (key : Str) × (build_entry_key (key_of sc) ((c ∷ cs) ∷ (p ∷ ps)) ≡ ok key)
        × (e : SchemaElem) × Answer l y (key_of sc) sc key e
        × ((get_schema_at l (add_schema l y s sc).1 path with_desc (key_of sc)).0 ≡ ok e)
  get_schema_at-add_schema s sc m c cs p ps path with_desc h i named lacks other asked absent =
      let k = key_of sc in
      let t = (add_schema l y s sc).1 in
      let (key, keyed) = build_entry_key_ok k (c ∷ cs) (p ∷ ps) in
      let (b, read, e, answer, decoded) =
        get-stored l y r codec key m (add_schema-Added l y s sc h) i (rw named keyed) in
      let found =
        lookup_elem-own l y r codec t k c cs p ps key b lacks other keyed read ∙ decoded in
      let missed =
        get_schema_at-miss l t path with_desc k (rw (add_schema-SameCache l y s sc).0 absent)
          (rw asked refl) in
      (key, keyed, e, answer, ap (λ v. v.0) missed ∙ rw (asked, found) refl)
