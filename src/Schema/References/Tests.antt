-- ===== src/Schema/References/Tests.antt =====
-- Leafrefs of small schemas, and the theorems at them.
use sdcio_schema_server.Base.{
  ◌≡◌, refl, [], ◌∷◌, ◌++◌, Str, codes, ok, err, not_found, none, index_of, cut_at,
}
use sdcio_schema_server.Yang.{
  ts_unset, yang_type, Attrs, Entry, bare, node, Dir, end, child, name, dir, Node, root_name,
}
use sdcio_schema_server.Yang
use sdcio_schema_server.Schema.Children.{get_children}
use sdcio_schema_server.Schema.Element.{ref, Annotations, is_state}
use sdcio_schema_server.Schema.Load.{root_attrs}
use sdcio_schema_server.Schema.Tests.{kinds, leaf, interface_list}
use sdcio_schema_server.Schema.References.{
  annotate_at, referred, build_references_annotation, relative_to_abs_path, has_relative_path_elem,
}
use sdcio_schema_server.Schema.References.Kept.{first, self, deeper, IsSource}
use sdcio_schema_server.Schema.References.Annotated.{Holds, Justified}
use sdcio_schema_server.Schema.References.Exact.{build_references_annotation_exact}
use sdcio_schema_server.Schema.References.Relative.{
  plain, ups, climbed, relative_to_abs_path_climbs,
}

abbrev leafref_attrs : Str → Str → Attrs
leafref_attrs n p = record root_attrs {
  name = n;
  type =
      yang_type
        (record {
          kind = codes "leafref";
          range = [];
          length = [];
          enum = none;
          units = [];
          name = [];
          path = p;
          pattern = [];
          identity_base = [];
        })
        Yang.YangTypes.nil;
}

-- leaf main { type leafref { path "../interface/name"; } }
abbrev main_leaf : Entry
main_leaf = bare (leafref_attrs (codes "main") (codes "../if:interface/name"))

abbrev of_kind : Str → Str → Dir → Entry
of_kind n k d = node (record root_attrs { name = n; description = k }) d

abbrev if_module : Entry
if_module =
    of_kind (codes "if") []
      (child (codes "main") main_leaf (child (codes "interface") interface_list end))

abbrev root_of : Entry → Entry
root_of m = node root_attrs (child (name m) m end)

abbrev path_of : Node → Str
path_of n = codes "/" ++ name n.here

abbrev no_notes : Annotations
no_notes n = []

abbrev main_node : Node
main_node = record { here = main_leaf; above = if_module ∷ [] }

abbrev name_node : Node
name_node = record {
  here = leaf (codes "name") ts_unset;
  above = interface_list ∷ (if_module ∷ []);
}

abbrev main_noted : Annotations
main_noted = annotate_at name_node (codes "REF_/main") (ref main_node) no_notes

main_built : build_references_annotation kinds path_of (root_of if_module) no_notes ≡ ok main_noted
unfolding build_references_annotation get_children cut_at index_of is_state
main_built = refl

main-IsSource : IsSource main_node
unfolding is_state
main-IsSource = record { leafref = refl; configured = refl }

build_references_annotation_exact_example :
    ((t : Node) × (referred kinds path_of (root_of if_module) main_node ≡ ok t)
      × Holds kinds path_of (root_of if_module) main_node t main_noted)
    × Justified kinds path_of (root_of if_module) no_notes main_noted
build_references_annotation_exact_example =
    let (complete, sound) =
      build_references_annotation_exact kinds path_of (root_of if_module) no_notes main_noted
        main_built in
    (complete main_node (first (deeper (first self))) main-IsSource, sound)

relative_to_abs_path_climbs_example :
    relative_to_abs_path kinds name_node (ups 2 ++ plain (codes "main") ∷ [])
    ≡ ok (climbed (if_module ∷ []) (plain (codes "main") ∷ []))
unfolding has_relative_path_elem
relative_to_abs_path_climbs_example =
    relative_to_abs_path_climbs kinds 2 name_node (plain (codes "main") ∷ []) refl
      (refl, (refl, tt)) ((λ e. cc), ((λ e. cc), tt))

-- choice way { case by { leaf x { type leafref { path "../y"; } } leaf y; } }
abbrev choice_module : Entry
choice_module = of_kind (codes "m") [] (
    child (codes "way")
      (of_kind (codes "way") (codes "choice") (
        child (codes "by")
          (of_kind (codes "by") (codes "case") (
            child (codes "x") (bare (leafref_attrs (codes "x") (codes "../y")))
              (child (codes "y") (leaf (codes "y") ts_unset) end)))
          end))
      end)

-- The choice and the case stand in the path, which leads nowhere.
choice_not_built :
    build_references_annotation kinds path_of (root_of choice_module) no_notes
    ≡ err (not_found (codes "by"))
unfolding build_references_annotation get_children cut_at index_of is_state
choice_not_built = refl

-- A path that cannot be parsed refers to the root.
abbrev malformed_leaf : Node
malformed_leaf = record {
  here = bare (leafref_attrs (codes "x") (codes "a]"));
  above = if_module ∷ [];
}

malformed_refers :
    referred kinds path_of (root_of if_module) malformed_leaf
    ≡ ok (record { here = root_of if_module; above = [] })
unfolding referred index_of cut_at
malformed_refers = refl
