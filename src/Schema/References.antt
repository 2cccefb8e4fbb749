-- ===== src/Schema/References.antt =====
-- pkg/schema/references.go: the paths of leafrefs, and the annotations of the entries that they refer
-- to. `e.Path()` of goyang is the parameter `path_of`. A nil entry or a nil path is `none`.
pub mod Kept
pub mod Annotated
pub mod Exact
pub mod Relative
mod Tests
use mathlib.Core.List.{reverse}
use sdcio_schema_server.Base.{
  is_nil, Bool, true, false, ◌&&◌, ◌||◌, not, Option, none, some, List, [], ◌∷◌, ◌++◌, map, Str,
  codes, str_eq, ◌==◌, Dict, insert, cut_at, contains, trim_left, trim_space, Result, ok, err,
  panic, ◌>>=◌, if◌then◌else◌,
}
use sdcio_schema_server.Sdcpb.{PathElem, SdcPath}
use sdcio_schema_server.Yang.{
  TypeAttrs, YangType, yang_type, Entry, bare, node, Dir, end, child, attrs, name, dir, find, Node,
  below, Goyang, root_name,
}
use sdcio_schema_server.Schema.Children.{is_hidden, parent}
use sdcio_schema_server.Schema.Element.{is_state, Note, ref, remark, Annotations}
use sdcio_schema_server.Schema.Lookup.{get_entry}
use sdcio_schema_server.Xpath.Parse.{parse_path}
use sdcio_schema_server.Xpath.Strings.{to_strings}

abbrev pub dot_dot : Str
dot_dot = codes ".."

abbrev pub current_call : Str
current_call = codes "current()"

-- `strings.SplitN(s, ":", 2)`: the part behind the colon, or the whole where there is none.
unfoldable pub local_name : Str → Str
unfolding cut_at
local_name s = elim (cut_at b':' s) [ none ↦ s | some p ↦ p.1 ]

-- `hasRelativePathElem`
unfoldable pub has_relative_path_elem : List PathElem → Bool
has_relative_path_elem [] = false
has_relative_path_elem (pe ∷ pes) = pe.name == dot_dot || has_relative_path_elem pes

-- A value of a key that refers to the entry of the leafref.
abbrev pub is_relative_value : Str → Bool
is_relative_value v = contains current_call v || contains dot_dot v

abbrev pub any_relative : Dict Str Str → Bool
any_relative [] = false
any_relative ((k, v) ∷ m) = is_relative_value v || any_relative m

-- `hasRelativeKeys`
unfoldable pub has_relative_keys : List PathElem → Bool
unfolding contains
has_relative_keys [] = false
has_relative_keys (pe ∷ pes) = any_relative pe.key || has_relative_keys pes

-- `for (ce.IsCase() || ce.IsChoice()) && ce.Parent != nil { ce = ce.Parent }`
unfoldable pub visible_from : Goyang → Entry → List Entry → Node
visible_from y e [] = record { here = e; above = [] }
visible_from y e (p ∷ ps) =
    if is_hidden y e then visible_from y p ps else record { here = e; above = p ∷ ps }

-- `ce.Dir[name]`
abbrev pub child_named : Str → Node → Option Node
child_named s n = elim (find s (dir n.here)) [ none ↦ none | some e ↦ some (below n e) ]

-- The switch of `relativeToAbsPathKeys` on an element of a key's path.
unfoldable pub key_path_step : Goyang → Node → Str → Option Node
unfolding visible_from local_name find
key_path_step y n s =
    if s == current_call
    then some (visible_from y n.here n.above)
    else if s == dot_dot
    then parent (visible_from y n.here n.above)
    else child_named (local_name s) n

-- The loop over the elements of a key's path. A method of a nil entry is a panic, `ce.Path()` at the
-- end too.
unfoldable pub key_entry : Goyang → Option Node → List PathElem → Result Node
unfolding key_path_step
key_entry y none pes = panic
key_entry y (some n) [] = ok n
key_entry y (some n) (pe ∷ pes) = key_entry y (key_path_step y n pe.name) pes

-- What `ParsePath` returned: a path, or nil beside an error that is only logged.
abbrev pub elems_or_panic : Result SdcPath → Result (List PathElem)
elems_or_panic (ok p) = ok p.elem
elems_or_panic (err e) = panic
elems_or_panic panic = panic

module _ (y : Goyang) (path_of : Node → Str) where
  abbrev pub absolute_value : Node → Str → Result Str
  absolute_value n v =
      if is_relative_value v
      then (elems_or_panic (parse_path (trim_space v)) >>= λ pes.
          key_entry y (some n) pes >>= λ m. ok (path_of m))
      else ok v

  -- The inner loop of `relativeToAbsPathKeys`, which writes to the map that it walks.
  unfoldable pub absolute_keys : Node → Dict Str Str → Result (Dict Str Str)
  unfolding contains trim_left parse_path key_entry
  absolute_keys n [] = ok []
  absolute_keys n ((k, v) ∷ m) =
      absolute_value n v >>= λ w. absolute_keys n m >>= λ rest. ok ((k, w) ∷ rest)

  -- `relativeToAbsPathKeys`
  unfoldable pub relative_to_abs_path_keys : Node → List PathElem → Result (List PathElem)
  unfolding absolute_keys
  relative_to_abs_path_keys n [] = ok []
  relative_to_abs_path_keys n (pe ∷ pes) = absolute_keys n pe.key >>= λ m.
      relative_to_abs_path_keys n pes >>= λ rest. ok (record pe { key = m } ∷ rest)

-- `for (ce.IsCase() || ce.IsChoice()) && ce.Parent != nil { ce = ce.Parent.Parent }`
unfoldable pub skip_pairs : Goyang → Entry → List Entry → Result Node
skip_pairs y e [] = ok (record { here = e; above = [] })
skip_pairs y e (p ∷ []) = if is_hidden y e then panic else ok (record { here = e; above = p ∷ [] })
skip_pairs y e (p ∷ (q ∷ qs)) =
    if is_hidden y e then skip_pairs y q qs else ok (record { here = e; above = p ∷ (q ∷ qs) })

-- Where the loop of `relativeToAbsPath` is, and the elements that it has taken.
pub record Walk : Type 0 where
  pub at : Option Node
  pub taken : List PathElem

unfoldable pub walk_relative : Goyang → Walk → List PathElem → Result Walk
unfolding skip_pairs
walk_relative y w [] = ok w
walk_relative y w (pe ∷ pes) = elim w.at [
  | none ↦ ok w
  | some n ↦
      if pe.name == dot_dot
      then (skip_pairs y n.here n.above >>= λ m. walk_relative y (record w { at = parent m }) pes)
      else walk_relative y (record { at = some n; taken = w.taken ++ pe ∷ [] }) pes
]

-- The last loop of `relativeToAbsPath`: the names from below the module to the entry stand in front.
unfoldable pub prepend_names : Entry → List Entry → List PathElem → List PathElem
prepend_names e [] pes = pes
prepend_names e (p ∷ ps) pes =
    if name p == root_name
    then pes
    else prepend_names p ps (record { name = name e; key = [] } ∷ pes)

abbrev pub from_root : Walk → List PathElem
from_root w = elim w.at [ none ↦ w.taken | some n ↦ prepend_names n.here n.above w.taken ]

-- `relativeToAbsPath`
unfoldable pub relative_to_abs_path : Goyang → Node → List PathElem → Result (List PathElem)
unfolding walk_relative prepend_names
relative_to_abs_path y n pes =
    walk_relative y (record { at = some n; taken = [] }) pes >>= λ w. ok (from_root w)

abbrev pub strip_prefix : PathElem → PathElem
strip_prefix pe = record pe { name = local_name pe.name }

module _ (y : Goyang) (path_of : Node → Str) where
  -- `normalizePath` behind the call of `ParsePath`.
  unfoldable pub normalize_elems : Node → List PathElem → Result (List Str)
  unfolding has_relative_path_elem has_relative_keys relative_to_abs_path relative_to_abs_path_keys
      local_name to_strings
  normalize_elems n pes = do
    abs ← if has_relative_path_elem pes then relative_to_abs_path y n pes else ok pes
    keyed ← if has_relative_keys abs then relative_to_abs_path_keys y path_of n abs else ok abs
    ok (to_strings (record { origin = []; target = []; elem = map strip_prefix keyed }) false true)

  -- `normalizePath`: the error of `ParsePath` is dropped, and a nil path has no elements.
  unfoldable pub normalize_path : Str → Node → Result (List Str)
  unfolding parse_path normalize_elems
  normalize_path p n = elim (parse_path p) [
    | ok path ↦ normalize_elems n path.elem
    | err e ↦ ok []
    | panic ↦ panic
  ]

abbrev pub type_attrs : YangType → TypeAttrs
type_attrs (yang_type a us) = a

-- `e.Type != nil` and its kind is `leafref`; the kind of a nil type is empty here.
abbrev pub is_leafref : Entry → Bool
is_leafref e = (type_attrs (attrs e).type).kind == codes "leafref"

-- The names of an entry and its ancestors, which tell entries apart: `Dir` holds an entry under its
-- name.
abbrev pub position : Node → List Str
position n = map name (n.here ∷ n.above)

abbrev pub same_names : List Str → List Str → Bool
same_names [] [] = true
same_names [] (t ∷ ts) = false
same_names (s ∷ ss) [] = false
same_names (s ∷ ss) (t ∷ ts) = s == t && same_names ss ts

abbrev pub same_entry : Node → Node → Bool
same_entry n m = same_names (position n) (position m)

-- `refEntry.Annotation[k] = e`
unfoldable pub annotate_at : Node → Str → Note → Annotations → Annotations
unfolding insert
annotate_at t k v notes n = if same_entry t n then insert k v (notes n) else notes n

module _ (y : Goyang) (path_of : Node → Str) (root : Entry) where
  -- `"REF_"+e.Path()`
  abbrev pub ref_key : Node → Str
  ref_key n = codes "REF_" ++ path_of n

  -- The entry that a leafref refers to.
  unfoldable pub referred : Node → Result Node
  unfolding normalize_path get_entry
  referred n = normalize_path y path_of (type_attrs (attrs n.here).type).path n >>= get_entry y root

  unfoldable pub annotate_leafref : Node → Annotations → Result Annotations
  unfolding referred annotate_at
  annotate_leafref n notes =
      if is_leafref n.here
      then (referred n >>= λ t. ok (annotate_at t (ref_key n) (ref n) notes))
      else ok notes

  -- `buildReferences` at one entry; `lower` is its loop over the children.
  unfoldable pub refer :
      Node → (Annotations → Result Annotations) → Annotations → Result Annotations
  unfolding annotate_leafref
  refer n lower notes = if is_state n then ok notes else (annotate_leafref n notes >>= lower)

  -- A child in that loop: the entries below a choice or a case, which come first, are visited again
  -- by the call for the child.
  abbrev pub visit_child :
      Node → (each lower : Annotations → Result Annotations) → Annotations → Result Annotations
  visit_child n each lower notes =
      if is_hidden y n.here then (each notes >>= refer n lower) else refer n lower notes

  unfoldable mutual
    unfolding refer

    -- `buildReferences`
    pub build_references : List Entry → Entry → Annotations → Result Annotations
    build_references above (bare a) = refer (record { here = bare a; above = above }) ok
    build_references above (node a d) =
        refer (record { here = node a d; above = above }) (build_children (node a d ∷ above) d)

    pub build_child : List Entry → Entry → Annotations → Result Annotations
    build_child above (bare a) = visit_child (record { here = bare a; above = above }) ok ok
    build_child above (node a d) =
        visit_child (record { here = node a d; above = above }) (build_each (node a d ∷ above) d)
          (build_children (node a d ∷ above) d)

    pub build_children : List Entry → Dir → Annotations → Result Annotations
    build_children above end notes = ok notes
    build_children above (child k e d) notes = build_child above e notes >>= build_children above d

    pub build_each : List Entry → Dir → Annotations → Result Annotations
    build_each above end notes = ok notes
    build_each above (child k e d) notes = build_references above e notes >>= build_each above d

  -- `buildReferencesAnnotation`, over the modules, which have no parent.
  unfoldable pub build_references_annotation : Annotations → Result Annotations
  unfolding build_references
  build_references_annotation = build_each [] (dir root)

-- The annotations of the root that `NewSchema` makes; goyang sets none.
abbrev pub root_notes : Annotations
root_notes n =
    if is_nil n.above && name n.here == root_name
    then (codes "schemapath", remark) ∷ ((codes "root", remark) ∷ [])
    else []

-- The annotations of a schema that is made, as `NewSchema` takes them.
unfoldable pub annotate_references : Goyang → (Node → Str) → Entry → Result Annotations
unfolding build_references_annotation
annotate_references y path_of root = build_references_annotation y path_of root root_notes
