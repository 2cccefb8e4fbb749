-- ===== src/Schema/Element.antt =====
-- pkg/schema/leaf.go, leaf_list.go, container.go and `SchemaElemFromYEntry` of object.go: an entry
-- as the message that clients receive.
pub mod Types
pub mod Choice
use mathlib.Core.List.{reverse}
use sdcio_schema_server.Base.{
  ℕ, ◌≡◌, Bool, true, false, ◌||◌, Option, none, some, List, [], ◌∷◌, ◌++◌, map, Str, codes, str_eq,
  ◌==◌, lookup, fields, sort_strings, sort_by, has_prefix, Result, ok, err, panic, ◌>>=◌, Dict,
  if◌then◌else◌,
}
use sdcio_schema_server.Sdcpb.{
  PathElem, SdcPath, MustStatement, LeafSchema, LeafListSchema, ContainerSchema, SchemaElem,
  container, field, leaflist,
}
use sdcio_schema_server.Sdcpb
use sdcio_schema_server.Yang.{
  TriState, ts_false, Extra, must, value, other, ListAttr, Entry, attrs, name, Node, Goyang,
}
use sdcio_schema_server.Schema.Children.{is_hidden, get_children, get_parent}
use sdcio_schema_server.Xpath.Strings.{to_xpath}
use Types.{to_schema_type}
use Choice.{get_choice_info}

-- `getMustStatement`: the `*yang.Must` values.
unfoldable pub must_statements_of : List Extra → List MustStatement
must_statements_of [] = []
must_statements_of (must n none ∷ ms) = record { statement = n; error = [] } ∷ must_statements_of ms
must_statements_of (must n (some e) ∷ ms) =
    record { statement = n; error = e } ∷ must_statements_of ms
must_statements_of (value n ∷ ms) = must_statements_of ms
must_statements_of (other ∷ ms) = must_statements_of ms

-- `e.Extra[k]`, nil where the key is missing.
abbrev pub extra_at : Str → Entry → List Extra
extra_at k e = elim (lookup k (attrs e).extra) [ none ↦ [] | some ms ↦ ms ]

unfoldable pub get_must_statement : Entry → List MustStatement
unfolding must_statements_of lookup
get_must_statement e = must_statements_of (extra_at (codes "must") e)

unfoldable pub features_of : List Extra → List Str
features_of [] = []
features_of (value n ∷ ms) = n ∷ features_of ms
features_of (must n m ∷ ms) = features_of ms
features_of (other ∷ ms) = features_of ms

unfoldable pub get_if_feature : Entry → List Str
unfolding features_of lookup
get_if_feature e = features_of (extra_at (codes "if-feature") e)

abbrev pub has_value : List Extra → Bool
has_value [] = false
has_value (value n ∷ ms) = true
has_value (must n m ∷ ms) = has_value ms
has_value (other ∷ ms) = has_value ms

unfoldable pub is_presence : Entry → Bool
unfolding lookup
is_presence e = has_value (extra_at (codes "presence") e)

abbrev pub is_ts_false : TriState → Bool
is_ts_false ts_false = true
is_ts_false _ = false

-- The recursion of `isState` along `Parent`.
unfoldable pub is_state_above : List Entry → Bool
is_state_above [] = false
is_state_above (e ∷ es) = if is_ts_false (attrs e).config then true else is_state_above es

unfoldable pub is_state : Node → Bool
unfolding is_state_above
is_state n = is_state_above (n.here ∷ n.above)

-- The value of an annotation: an entry of the schema, or something else.
pub data Note : Type 0 where
  ref : Node → Note
  remark : Note

-- The `Annotation` maps, which are written after the entries are made: by entry.
abbrev pub Annotations : Type 0
Annotations = Node → Dict Str Note

-- The loop of `buildPathUpFromEntry`: the names above, without choices and cases.
unfoldable pub names_above : Goyang → Entry → List Entry → List PathElem
unfolding get_parent
names_above y e [] = []
names_above y e (p ∷ ps) = elim (get_parent (record { here = e; above = p ∷ ps })) [
  | none ↦ []
  | some q ↦
      (if is_hidden y p then [] else record { name = name p; key = [] } ∷ []) ++ names_above y p ps
]

-- `buildPathUpFromEntry`.
unfoldable pub build_path_up : Goyang → Node → SdcPath
unfolding names_above
build_path_up y n = record {
  origin = [];
  target = [];
  elem = reverse (record { name = name n.here; key = [] } ∷ names_above y n.here n.above);
}

-- The loop of `leafFromYEntry` over the annotations.
unfoldable pub references_of : Goyang → Dict Str Note → List Str
unfolding build_path_up
references_of y [] = []
references_of y ((k, remark) ∷ ns) = references_of y ns
references_of y ((k, ref n) ∷ ns) =
    (if has_prefix (codes "REF_") k then to_xpath (build_path_up y n) true ∷ [] else [])
    ++ references_of y ns

abbrev pub or_empty : Option Str → Str
or_empty none = []
or_empty (some s) = s

abbrev pub max_elements_of : Option ListAttr → ℕ
max_elements_of none = 0
max_elements_of (some l) = l.max_elements

abbrev pub min_elements_of : Option ListAttr → ℕ
min_elements_of none = 0
min_elements_of (some l) = l.min_elements

abbrev pub is_user_ordered_of : Option ListAttr → Bool
is_user_ordered_of none = false
is_user_ordered_of (some l) = elim l.ordered_by [ none ↦ false | some s ↦ s == codes "user" ]

module _ (y : Goyang) (notes : Annotations) (with_desc : Bool) where
  unfoldable pub leaf_of : Node → Result LeafSchema
  unfolding get_must_statement get_if_feature is_state references_of
  leaf_of n = do
    info ← get_choice_info y n
    ok (record {
      name = name n.here;
      namespace = (attrs n.here).namespace;
      prefix = or_empty (attrs n.here).prefix;
      description = if with_desc then (attrs n.here).description else [];
      type = to_schema_type (attrs n.here).type;
      is_mandatory = (attrs n.here).mandatory;
      default = or_empty (attrs n.here).default;
      units = (attrs n.here).units;
      must_statements = get_must_statement n.here;
      is_state = is_state n;
      reference = references_of y (notes n);
      choice_info = info;
      if_feature = get_if_feature n.here;
    })

  unfoldable pub leaf_list_of : Node → Result LeafListSchema
  unfolding get_must_statement get_if_feature is_state
  leaf_list_of n = do
    info ← get_choice_info y n
    ok (record {
      name = name n.here;
      namespace = (attrs n.here).namespace;
      prefix = or_empty (attrs n.here).prefix;
      description = if with_desc then (attrs n.here).description else [];
      type = to_schema_type (attrs n.here).type;
      units = (attrs n.here).units;
      must_statements = get_must_statement n.here;
      is_state = is_state n;
      is_user_ordered = is_user_ordered_of (attrs n.here).list_attr;
      max_elements = max_elements_of (attrs n.here).list_attr;
      min_elements = min_elements_of (attrs n.here).list_attr;
      choice_info = info;
      if_feature = get_if_feature n.here;
    })
