-- ===== src/Schema/Container/Members.antt =====
-- Which children of an entry become keys, fields, leaf-lists and children of its container.
use mathlib.Core.List.{Perm}
use sdcio_schema_server.Base.{
  ◌≡◌, refl, sym, ap, subst, ◌∙◌, Bool, true, false, ◌&&◌, not, List, [], ◌∷◌, ◌++◌, map,
  append-nil, append_assoc, Str, fields, sort_strings, sort_by-IsSorted, sort_by-perm, IsSorted,
  Yields, Yields-ok, Yields-bind, Yields-if, ok, if◌then◌else◌,
}
use sdcio_schema_server.Sdcpb.{LeafSchema, ContainerSchema}
use sdcio_schema_server.Yang.{attrs, name, Node, Goyang}
use sdcio_schema_server.Schema.Children.{get_children}
use sdcio_schema_server.Schema.Element.{Annotations, leaf_of, leaf_list_of}
use sdcio_schema_server.Schema.Element.Choice.{get_choice_info}
use sdcio_schema_server.Schema.Container.{
  in_set, Filled, nothing, add_leaf, add_child, add_children, container_of,
}

-- The name of a node, if it passes the test.
abbrev pub name_if : Bool → Node → List Str
name_if b n = if b then name n.here ∷ [] else []

-- The names of the nodes that pass a test.
abbrev pub names_of : (Node → Bool) → List Node → List Str
names_of p [] = []
names_of p (n ∷ ns) = name_if (p n) n ++ names_of p ns

map-snoc {ℓ κ} :
    {A : Type ℓ} {B : Type κ} (f : A → B) (xs : List A) (x : A)
    → map f (xs ++ x ∷ []) ≡ map f xs ++ f x ∷ []
map-snoc f [] x = refl
map-snoc f (y ∷ xs) x = rw (map-snoc f xs x)

append_trans {ℓ} :
    {A : Type ℓ} {ys zs : List A} (xs us vs : List A)
    → ys ≡ xs ++ us
    → zs ≡ ys ++ vs
    → zs ≡ xs ++ (us ++ vs)
append_trans xs us vs e g = g ∙ (ap (λ ws. ws ++ vs) e ∙ append_assoc xs us vs)

-- What a node is to the container around it: whether it is a directory, a leaf, a key, a leaf-list.
abbrev pub is_key_of : Bool → Bool → Bool → Bool
is_key_of d l k = not d && (l && k)

abbrev pub is_leaflist_of : Bool → Bool → Bool → Bool
is_leaflist_of d l ll = not d && (not l && ll)

module _ (y : Goyang) (notes : Annotations) (with_desc : Bool) (ks : List Str) where
  abbrev pub is_child : Node → Bool
  is_child n = y.is_dir n.here

  abbrev pub is_key : Node → Bool
  is_key n = is_key_of (y.is_dir n.here) (y.is_leaf n.here) (in_set (name n.here) ks)

  abbrev pub is_field : Node → Bool
  is_field n = is_key_of (y.is_dir n.here) (y.is_leaf n.here) (not (in_set (name n.here) ks))

  abbrev pub is_leaflist : Node → Bool
  is_leaflist n = is_leaflist_of (y.is_dir n.here) (y.is_leaf n.here) (y.is_leaf_list n.here)

  -- The four lists, with these names added to each.
  pub record Extends (f : Filled) (cs kn fs lls : List Str) (g : Filled) : Type 0 where
    pub children : g.children ≡ f.children ++ cs
    pub keys : map (λ l. l.name) g.keys ≡ map (λ l. l.name) f.keys ++ kn
    pub fields : map (λ l. l.name) g.fields ≡ map (λ l. l.name) f.fields ++ fs
    pub leaflists : map (λ l. l.name) g.leaflists ≡ map (λ l. l.name) f.leaflists ++ lls

  Extends-refl : (f : Filled) → Extends f [] [] [] [] f
  Extends-refl f = record {
    children = sym (append-nil _);
    keys = sym (append-nil _);
    fields = sym (append-nil _);
    leaflists = sym (append-nil _);
  }

  Extends-trans :
      {f g h : Filled} {cs kn fs lls cs' kn' fs' lls' : List Str}
      → Extends f cs kn fs lls g
      → Extends g cs' kn' fs' lls' h
      → Extends f (cs ++ cs') (kn ++ kn') (fs ++ fs') (lls ++ lls') h
  Extends-trans {f} {g} {h} {cs} {kn} {fs} {lls} {cs'} {kn'} {fs'} {lls'} p q = record {
    children = append_trans f.children cs cs' p.children q.children;
    keys = append_trans (map (λ l. l.name) f.keys) kn kn' p.keys q.keys;
    fields = append_trans (map (λ l. l.name) f.fields) fs fs' p.fields q.fields;
    leaflists = append_trans (map (λ l. l.name) f.leaflists) lls lls' p.leaflists q.leaflists;
  }

  -- A leaf's schema has the name of the leaf.
  leaf_of-name : (n : Node) → Yields (λ l. l.name ≡ name n.here) (leaf_of y notes with_desc n)
  unfolding leaf_of
  leaf_of-name n =
      Yields-bind (λ l. l.name ≡ name n.here) (get_choice_info y n) _
        (λ info _. Yields-ok (λ l. l.name ≡ name n.here) _ refl)

  leaf_list_of-name :
      (n : Node) → Yields (λ l. l.name ≡ name n.here) (leaf_list_of y notes with_desc n)
  unfolding leaf_list_of
  leaf_list_of-name n =
      Yields-bind (λ l. l.name ≡ name n.here) (get_choice_info y n) _
        (λ info _. Yields-ok (λ l. l.name ≡ name n.here) _ refl)

  Extends-add_leaf :
      (f : Filled) (n : Str) (l : LeafSchema)
      → l.name ≡ n
      → (b : Bool) → in_set n ks ≡ b
      → Extends f []
          (if b then n ∷ [] else [])
          (if not b then n ∷ [] else [])
          []
          (add_leaf ks n l f)
  Extends-add_leaf f n l e true h = rw h (record {
    children = sym (append-nil _);
    keys = map-snoc (λ l. l.name) f.keys l ∙ rw e;
    fields = sym (append-nil _);
    leaflists = sym (append-nil _);
  })
  Extends-add_leaf f n l e false h = rw h (record {
    children = sym (append-nil _);
    keys = sym (append-nil _);
    fields = map-snoc (λ l. l.name) f.fields l ∙ rw e;
    leaflists = sym (append-nil _);
  })

  -- The names that one node adds.
  abbrev Step : Filled → Node → Filled → Type 0
  Step f c g =
      Extends f (name_if (is_child c) c) (name_if (is_key c) c) (name_if (is_field c) c)
        (name_if (is_leaflist c) c) g

  add_child-Step : (f : Filled) (c : Node) → Yields (Step f c) (add_child y notes with_desc ks f c)
  unfolding add_child
  add_child-Step f c =
      Yields-if (Step f c) (y.is_dir c.here) _ _
        (λ d. Yields-ok (Step f c) _ (
          rw d (record {
            children = refl;
            keys = sym (append-nil _);
            fields = sym (append-nil _);
            leaflists = sym (append-nil _);
          })))
        (λ d.
          Yields-if (Step f c) (y.is_leaf c.here) _ _
            (λ e. Yields-bind (Step f c) (leaf_of y notes with_desc c) _ (λ l h.
              Yields-ok (Step f c) _ (
                rw (d, e)
                  (Extends-add_leaf f (name c.here) l ((leaf_of-name c).at l h)
                    (in_set (name c.here) ks) refl))))
            (λ e.
              Yields-if (Step f c) (y.is_leaf_list c.here) _ _
                (λ g. Yields-bind (Step f c) (leaf_list_of y notes with_desc c) _ (λ l h.
                  Yields-ok (Step f c) _ (
                    rw (d, e, g)
                      (record {
                        children = sym (append-nil _);
                        keys = sym (append-nil _);
                        fields = sym (append-nil _);
                        leaflists =
                            map-snoc (λ l. l.name) f.leaflists l
                            ∙ rw ((leaf_list_of-name c).at l h);
                      }))))
                (λ g. Yields-ok (Step f c) _ (rw (d, e, g) (Extends-refl f)))))

  -- The names that a list of nodes adds.
  abbrev Steps : Filled → List Node → Filled → Type 0
  Steps f cs g =
      Extends f (names_of is_child cs) (names_of is_key cs) (names_of is_field cs)
        (names_of is_leaflist cs) g

  add_children-Steps :
      (f : Filled) (cs : List Node) → Yields (Steps f cs) (add_children y notes with_desc ks f cs)
  unfolding add_children
  add_children-Steps f [] = Yields-ok (Steps f []) f (Extends-refl f)
  add_children-Steps f (c ∷ cs) =
      Yields-bind (Steps f (c ∷ cs)) (add_child y notes with_desc ks f c) _ (λ g e. record {
        at =
            λ h e'. Extends-trans ((add_child-Step f c).at g e) ((add_children-Steps g cs).at h e');
      })

module _ (y : Goyang) (notes : Annotations) (with_desc : Bool) where
  -- The members of the container of a node, by the names of the node's children in the data tree.
  pub record HasMembers (n : Node) (c : ContainerSchema) : Type 0 where
    pub unsorted_keys : List LeafSchema
    pub keys_perm : Perm c.keys unsorted_keys
    pub keys_sorted : IsSorted (λ l. l.name) c.keys
    pub key_names :
        map (λ l. l.name) unsorted_keys
        ≡ names_of (is_key y notes with_desc (fields (attrs n.here).key)) (get_children y n)
    pub field_names :
        map (λ l. l.name) c.fields
        ≡ names_of (is_field y notes with_desc (fields (attrs n.here).key)) (get_children y n)
    pub leaflist_names :
        map (λ l. l.name) c.leaflists
        ≡ names_of (is_leaflist y notes with_desc (fields (attrs n.here).key)) (get_children y n)
    pub children_perm :
        Perm c.children
          (names_of (is_child y notes with_desc (fields (attrs n.here).key)) (get_children y n))
    pub children_sorted : IsSorted (λ s. s) c.children

  -- The container of a node takes each child in the data tree for one thing: a directory is a child,
  -- a leaf is a key if the list names it and a field if not, a leaf-list is a leaf-list, by the names
  -- of the children in their order; keys and children are sorted by name.
  pub container_of-HasMembers :
      (n : Node) (c : ContainerSchema) → container_of y notes with_desc n ≡ ok c → HasMembers n c
  unfolding container_of sort_strings
  container_of-HasMembers n c h =
      (Yields-bind (HasMembers n) (get_choice_info y n) _ (λ info _.
          Yields-bind (HasMembers n)
            (add_children y notes with_desc (fields (attrs n.here).key) nothing (get_children y n))
            _
            (λ g e.
              let s =
                (add_children-Steps y notes with_desc (fields (attrs n.here).key) nothing
                    (get_children y n)).at
                  g e in
              Yields-ok (HasMembers n) _ (record {
                unsorted_keys = g.keys;
                keys_perm = sort_by-perm (λ l. l.name) g.keys;
                keys_sorted = sort_by-IsSorted (λ l. l.name) g.keys;
                key_names = s.keys;
                field_names = s.fields;
                leaflist_names = s.leaflists;
                children_perm =
                    subst (Perm (sort_strings g.children)) s.children
                      (sort_by-perm (λ s. s) g.children);
                children_sorted = sort_by-IsSorted (λ s. s) g.children;
              })))).at
        c h
