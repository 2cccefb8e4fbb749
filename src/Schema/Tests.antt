-- ===== src/Schema/Tests.antt =====
-- A small schema, runs of the operations on it, and the theorems at it. A description names the kind
-- of an entry that has children; the others are leaves.
use sdcio_schema_server.Base.{
  ◌≡◌, ◌≢◌, refl, Bool, false, ◌&&◌, not, [], ◌∷◌, Str, codes, str_eq, ◌==◌, ok, err, out_of_fuel,
  not_found, index_of, fields,
}
use sdcio_schema_server.Sdcpb.{all, config, state}
use sdcio_schema_server.Sdcpb
use sdcio_schema_server.Base.{none, true}
use sdcio_schema_server.Schema.Children.{get_children}
use sdcio_schema_server.Schema.Element.{leaf_of}
use sdcio_schema_server.Schema.Element.Types.{to_schema_type, values_of}
use sdcio_schema_server.Schema.Element.Choice.{get_choice_info}
use sdcio_schema_server.Sdcpb.{LeafSchema, leaf_type, ContainerSchema}
use sdcio_schema_server.Schema.Element.{Annotations}
use sdcio_schema_server.Schema.Container.{container_of}
use sdcio_schema_server.Schema.Container.Members.{HasMembers, container_of-HasMembers}
use sdcio_schema_server.Yang.{
  Node, TriState, ts_unset, ts_false, Attrs, Entry, bare, node, end, child, attrs, dir, dir_is_nil,
  Goyang,
}
use sdcio_schema_server.Schema.Load.{root_attrs}
use sdcio_schema_server.Schema.Lookup.{get_entry}
use sdcio_schema_server.Schema.BuildPath.{build_path}
use sdcio_schema_server.Schema.Expand.{elems_below}
use sdcio_schema_server.Schema.BuildPath.Total.{build_path-finishes}

abbrev is_kind : Str → Entry → Bool
is_kind k e = not (dir_is_nil e) && ((attrs e).description == k)

abbrev pub kinds : Goyang
kinds = record {
  is_leaf = dir_is_nil;
  is_leaf_list = λ e. false;
  is_list = is_kind (codes "list");
  is_container = is_kind [];
  is_choice = is_kind (codes "choice");
  is_case = is_kind (codes "case");
  is_dir = λ e. not (dir_is_nil e);
}

abbrev named_attrs : Str → Str → Str → TriState → Attrs
named_attrs n kind key c = record root_attrs { name = n; description = kind; key = key; config = c }

abbrev pub leaf : Str → TriState → Entry
leaf n c = bare (named_attrs n [] [] c)

-- list interface { key name; leaf name; leaf mtu; leaf counters { config false } }
abbrev pub interface_list : Entry
interface_list = node (named_attrs (codes "interface") (codes "list") (codes "name") ts_unset) (
    child (codes "name") (leaf (codes "name") ts_unset) (
      child (codes "mtu") (leaf (codes "mtu") ts_unset)
        (child (codes "counters") (leaf (codes "counters") ts_false) end)))

abbrev pub if_module : Entry
if_module =
    node (named_attrs (codes "if") [] [] ts_unset) (child (codes "interface") interface_list end)

abbrev pub if_root : Entry
if_root = node root_attrs (child (codes "if") if_module end)

build_path_interface :
    build_path kinds if_root (codes "interface" ∷ (codes "e1" ∷ (codes "mtu" ∷ []))) []
    ≡ ok (
        record { name = codes "interface"; key = (codes "name", codes "e1") ∷ [] }
        ∷ (record { name = codes "mtu"; key = [] } ∷ []))
unfolding build_path index_of fields
build_path_interface = refl

get_entry_unknown :
    get_entry kinds if_root (codes "interface" ∷ (codes "speed" ∷ []))
    ≡ err (not_found (codes "speed"))
unfolding get_entry index_of
get_entry_unknown = refl

elems_of_state :
    elems_below kinds state [] (codes "name" ∷ []) (dir interface_list)
    ≡ (record { name = codes "counters"; key = [] } ∷ []) ∷ []
unfolding elems_below
elems_of_state = refl

build_path-finishes_example :
    build_path kinds if_root (codes "interface" ∷ (codes "e1" ∷ (codes "mtu" ∷ []))) []
    ≢ err out_of_fuel
build_path-finishes_example =
    build_path-finishes kinds if_root (codes "interface" ∷ (codes "e1" ∷ (codes "mtu" ∷ []))) []

abbrev interface_node : Node
interface_node = record { here = interface_list; above = [] }

abbrev no_notes : Annotations
no_notes n = []

abbrev leaf_schema : Str → Bool → LeafSchema
leaf_schema n st = record {
  name = n;
  namespace = [];
  prefix = [];
  description = [];
  type = leaf_type [] [] [] [] [] [] [] [] Sdcpb.UnionTypes.nil;
  is_mandatory = false;
  default = [];
  units = [];
  must_statements = [];
  is_state = st;
  reference = [];
  choice_info = none;
  if_feature = [];
}

abbrev interface_container : ContainerSchema
interface_container = record {
  name = codes "interface";
  namespace = [];
  prefix = [];
  description = [];
  keys = leaf_schema (codes "name") false ∷ [];
  fields = leaf_schema (codes "mtu") false ∷ (leaf_schema (codes "counters") true ∷ []);
  leaflists = [];
  children = [];
  must_statements = [];
  is_state = false;
  is_presence = false;
  is_user_ordered = false;
  max_elements = 0;
  min_elements = 0;
  choice_info = none;
  if_feature = [];
}

interface_contained : container_of kinds no_notes false interface_node ≡ ok interface_container
unfolding container_of get_choice_info get_children leaf_of fields to_schema_type values_of
interface_contained = refl

container_of-HasMembers_example : HasMembers kinds no_notes false interface_node interface_container
container_of-HasMembers_example =
    container_of-HasMembers kinds no_notes false interface_node interface_container
      interface_contained
