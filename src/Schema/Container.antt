-- ===== src/Schema/Container.antt =====
-- pkg/schema/container.go: `containerFromYEntry`, and `SchemaElemFromYEntry` of object.go.
pub mod Members
use sdcio_schema_server.Base.{
  Bool, false, ◌||◌, List, [], ◌∷◌, ◌++◌, Str, str_eq, str_beq, fields, sort_strings, sort_by,
  Result, ok, ◌>>=◌, if◌then◌else◌,
}
use sdcio_schema_server.Sdcpb.{
  LeafSchema, LeafListSchema, ContainerSchema, SchemaElem, container, field, leaflist,
}
use sdcio_schema_server.Yang.{attrs, name, Node, Goyang}
use sdcio_schema_server.Schema.Children.{get_children}
use sdcio_schema_server.Schema.Element.{
  Annotations, leaf_of, leaf_list_of, get_must_statement, get_if_feature, is_presence, is_state,
  or_empty, max_elements_of, min_elements_of, is_user_ordered_of,
}
use sdcio_schema_server.Schema.Element.Choice.{get_choice_info}

-- `_, ok := keys[k]`, for a set made of a list.
unfoldable pub in_set : Str → List Str → Bool
in_set k [] = false
in_set k (j ∷ js) = str_beq j k || in_set k js

-- The lists that the loop over the children fills.
pub record Filled : Type 0 where
  pub keys : List LeafSchema
  pub fields : List LeafSchema
  pub leaflists : List LeafListSchema
  pub children : List Str

abbrev pub nothing : Filled
nothing = record { keys = []; fields = []; leaflists = []; children = [] }

-- A leaf is a key or a field.
abbrev pub add_leaf : List Str → Str → LeafSchema → Filled → Filled
add_leaf key_names n l f =
    if in_set n key_names
    then record f { keys = f.keys ++ l ∷ [] }
    else record f { fields = f.fields ++ l ∷ [] }

module _ (y : Goyang) (notes : Annotations) (with_desc : Bool) where
  -- One round of the loop over `getChildren(e)`.
  unfoldable pub add_child : List Str → Filled → Node → Result Filled
  unfolding in_set
  add_child key_names f c =
      if y.is_dir c.here
      then ok (record f { children = f.children ++ name c.here ∷ [] })
      else if y.is_leaf c.here
      then (leaf_of y notes with_desc c >>= λ l. ok (add_leaf key_names (name c.here) l f))
      else if y.is_leaf_list c.here
      then (leaf_list_of y notes with_desc c >>= λ l.
          ok (record f { leaflists = f.leaflists ++ l ∷ [] }))
      else ok f

  unfoldable pub add_children : List Str → Filled → List Node → Result Filled
  add_children key_names f [] = ok f
  add_children key_names f (c ∷ cs) = add_child key_names f c >>= λ g. add_children key_names g cs

  unfoldable pub container_of : Node → Result ContainerSchema
  unfolding add_children add_child get_must_statement get_if_feature is_presence is_state
      sort_strings
  container_of n = do
    info ← get_choice_info y n
    filled ← add_children (fields (attrs n.here).key) nothing (get_children y n)
    ok (record {
      name = name n.here;
      namespace = (attrs n.here).namespace;
      prefix = or_empty (attrs n.here).prefix;
      description = if with_desc then (attrs n.here).description else [];
      keys = sort_by (λ l. l.name) filled.keys;
      fields = filled.fields;
      leaflists = filled.leaflists;
      children = sort_strings filled.children;
      must_statements = get_must_statement n.here;
      is_state = is_state n;
      is_presence = is_presence n.here;
      is_user_ordered = is_user_ordered_of (attrs n.here).list_attr;
      max_elements = max_elements_of (attrs n.here).list_attr;
      min_elements = min_elements_of (attrs n.here).list_attr;
      choice_info = info;
      if_feature = get_if_feature n.here;
    })

  unfoldable pub schema_elem_from : Node → Result SchemaElem
  unfolding container_of leaf_of leaf_list_of
  schema_elem_from n =
      if y.is_leaf n.here
      then (leaf_of y notes with_desc n >>= λ l. ok (field l))
      else if y.is_leaf_list n.here
      then (leaf_list_of y notes with_desc n >>= λ l. ok (leaflist l))
      else container_of n >>= λ c. ok (container c)
