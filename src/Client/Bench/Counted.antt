-- ===== src/Client/Bench/Counted.antt =====
-- What the bench command counts, where the server answers from a finite tree.
use sdcio_schema_server.Base.{
  ℕ, zero, suc, ◌+◌, ◌<◌, ◌≤◌, ◌≡◌, refl, ap, ◌∙◌, All, List, [], ◌∷◌, Str, length, ok, arith,
}
use sdcio_schema_server.Sdcpb.{SdcPath, LeafSchema, ContainerSchema, SchemaElem, container}
use sdcio_schema_server.Xpath.Parse.{parse_path}
use sdcio_schema_server.Server.Io.{Io, continue, ◌>>=◌, lift}
use sdcio_schema_server.Client.Bench.{
  extend, leaf_names, query_leaves, query_children, query_schema_container, bench,
}

-- A container of a schema with the containers below it.
mutual
  pub data Tree : Type 0 where
    tree : ContainerSchema → Trees → Tree

  pub data Trees : Type 0 where
    none_left : Trees
    one_more : Tree → Trees → Trees

abbrev pub top : Tree → ContainerSchema
top (tree c ts) = c

-- The keys, the fields and the containers below a container.
unfoldable mutual
  pub count : Tree → ℕ
  count (tree c ts) = length c.keys + length c.fields + count_all ts

  pub count_all : Trees → ℕ
  count_all none_left = 0
  count_all (one_more t ts) = suc (count t + count_all ts)

module _ {S : Type 0} where
  -- A call that returns a value, whatever the state.
  abbrev Returns : {A : Type 0} → Io S A → A → Type 0
  Returns m a = (s : S) → (m s).0 ≡ ok a

  Returns-bind :
      {A B : Type 0} (m : Io S A) (next : A → Io S B) (a : A) (b : B)
      → Returns m a
      → Returns (next a) b
      → Returns (m >>= next) b
  Returns-bind m next a b h g s = ap (λ r. (continue (r, (m s).1) next).0) (h s) ∙ g (m s).1

  module _ (get : SdcPath → Io S SchemaElem) where
    -- The server has something at each of the names.
    abbrev Answers : SdcPath → List Str → Type 0
    Answers p ks = All (λ k. (e : SchemaElem) × Returns (get (extend p k)) e) ks

    -- The server answers from the tree: the containers by name, and something for keys and fields.
    unfoldable mutual
      pub Serves : Tree → SdcPath → Type 0
      Serves (tree c ts) p =
          Answers p (leaf_names c.keys)
          × Answers p (leaf_names c.fields)
          × ServesAll ts p c.children

      pub ServesAll : Trees → SdcPath → List Str → Type 0
      ServesAll none_left p [] = Unit
      ServesAll none_left p (k ∷ ks) = ⊥
      ServesAll (one_more t ts) p [] = ⊥
      ServesAll (one_more t ts) p (k ∷ ks) =
          Returns (get (extend p k)) (container (top t)) × Serves t (extend p k) × ServesAll ts p ks

    length-leaf_names : (ls : List LeafSchema) → length (leaf_names ls) ≡ length ls
    length-leaf_names [] = refl
    length-leaf_names (l ∷ ls) = ap suc (length-leaf_names ls)

    query_leaves_lem :
        (p : SdcPath) (ks : List Str) (n : ℕ)
        → Answers p ks
        → Returns (query_leaves get p ks n) (n + length ks)
    unfolding query_leaves
    query_leaves_lem p [] n h = λ s. ap ok (omega arith)
    query_leaves_lem p (k ∷ ks) n ((e, g), hs) =
        Returns-bind (get (extend p k)) _ e _ g
          (λ s. query_leaves_lem p ks (suc n) hs s ∙ ap ok (omega arith))

    -- Fuel is enough if it is more than there are objects.
    mutual
      unfolding query_schema_container query_children count Serves

      query_schema_container_lem :
          (t : Tree) (f : ℕ) (p : SdcPath)
          → count t < f
          → Serves t p
          → Returns (query_schema_container get f p (top t)) (count t)
      query_schema_container_lem t zero p less h = absurd (omega arith)
      query_schema_container_lem (tree c ts) (suc f) p less (keys, fields, below) =
          Returns-bind (query_leaves get p (leaf_names c.keys) 0) _ _ _
            (query_leaves_lem p (leaf_names c.keys) 0 keys)
            (Returns-bind (query_leaves get p (leaf_names c.fields) _) _ _ _
              (query_leaves_lem p (leaf_names c.fields) _ fields)
              (λ s.
                query_children_lem ts f p c.children _ (omega arith) below s
                ∙ ap ok (omega (arith, length-leaf_names c.keys, length-leaf_names c.fields))))

      query_children_lem :
          (ts : Trees) (f : ℕ) (p : SdcPath) (ks : List Str) (n : ℕ)
          → count_all ts ≤ f
          → ServesAll ts p ks
          → Returns (query_children get (query_schema_container get f) p ks n) (n + count_all ts)
      query_children_lem none_left f p [] n less h = λ s. ap ok (omega arith)
      query_children_lem none_left f p (k ∷ ks) n less h = absurd h
      query_children_lem (one_more t ts) f p [] n less h = absurd h
      query_children_lem (one_more t ts) f p (k ∷ ks) n less (here, deep, rest) =
          Returns-bind (get (extend p k)) _ _ _ here (
            Returns-bind (query_schema_container get f (extend p k) (top t)) _ _ _
              (query_schema_container_lem t f (extend p k) (omega arith) deep)
              (λ s. query_children_lem ts f p ks _ (omega arith) rest s ∙ ap ok (omega arith)))

    -- The bench command prints a number: if the server answers from a finite tree at the path that
    -- was given, a container, the number is that of the keys, the fields and the containers below
    -- it, however deep they stand; leaf-lists are not asked for. The fuel is more than that number.
    pub bench_counts :
        (t : Tree) (f : ℕ) (xpath : Str) (p : SdcPath)
        → parse_path xpath ≡ ok p
        → Returns (get p) (container (top t))
        → Serves t p
        → count t < f
        → (s : S) → (bench get f xpath s).0 ≡ ok (count t)
    unfolding bench
    bench_counts t f xpath p parsed here h less =
        Returns-bind (lift (parse_path xpath)) _ p _ (λ s. parsed)
          (Returns-bind (get p) _ _ _ here (query_schema_container_lem t f p less h))
