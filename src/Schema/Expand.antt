-- ===== src/Schema/Expand.antt =====
-- pkg/schema/expand.go: `ExpandPath`, `getPathElems` and `populatePathKeys`.
use mathlib.Core.List.{reverse}
use sdcio_schema_server.Base.{
  Bool, true, false, ◌||◌, not, none, some, List, [], ◌∷◌, ◌++◌, map, Str, codes, str_eq, ◌==◌,
  Dict, lookup, insert, fields, sort_strings, Result, ok, panic, ◌>>=◌, if◌then◌else◌,
}
use sdcio_schema_server.Sdcpb.{PathElem, SdcPath, DataType, all, config, state}
use sdcio_schema_server.Yang.{
  Entry, bare, node, Dir, end, child, attrs, name, dir, Node, Goyang, root_name,
}
use sdcio_schema_server.Schema.Element.{is_state}
use sdcio_schema_server.Schema.Container.{in_set}
use sdcio_schema_server.Schema.Lookup.{get_entry}
use sdcio_schema_server.Xpath.Strings.{to_strings}

-- The switch on the data type at a leaf or a leaf-list: whether it is listed.
unfoldable pub is_wanted : DataType → Bool → Bool
is_wanted all st = true
is_wanted config st = not st
is_wanted state st = st

-- The keys of a list, each with the value `*`.
unfoldable pub wildcards : List Str → Dict Str Str → Dict Str Str
unfolding insert
wildcards [] m = m
wildcards (k ∷ ks) m = wildcards ks (insert k (codes "*") m)

abbrev pub prefix_all : PathElem → List (List PathElem) → List (List PathElem)
prefix_all pe bs = map (λ b. pe ∷ b) bs

abbrev pub name_alone : Entry → List PathElem
name_alone e = record { name = name e; key = [] } ∷ []

-- The switch of `getPathElems`, over what stands below the entry.
unfoldable pub own_elems : Goyang → DataType → Node → List (List PathElem) → List (List PathElem)
unfolding is_wanted wildcards is_state
own_elems y dt n lower =
    if y.is_case n.here || y.is_choice n.here
    then lower
    else if y.is_leaf n.here || y.is_leaf_list n.here
    then (if is_wanted dt (is_state n) then name_alone n.here ∷ [] else [])
    else if y.is_list n.here
    then prefix_all (record { name = name n.here; key = wildcards (fields (attrs n.here).key) [] })
        lower
    else if y.is_container n.here
    then prefix_all (record { name = name n.here; key = [] }) lower
    else []

-- The children that the loop skips: the keys of a list.
unfoldable pub skipped : Goyang → Entry → List Str
skipped y e =
    if y.is_case e || y.is_choice e || y.is_leaf e || y.is_leaf_list e
    then []
    else if y.is_list e
    then fields (attrs e).key
    else []

unfoldable mutual
  unfolding own_elems skipped in_set

  -- `getPathElems`, for an entry with its ancestors.
  pub path_elems : Goyang → DataType → List Entry → Entry → List (List PathElem)
  path_elems y dt above (bare a) = own_elems y dt (record { here = bare a; above = above }) []
  path_elems y dt above (node a d) =
      own_elems y dt (record { here = node a d; above = above })
        (elems_below y dt (node a d ∷ above) (skipped y (node a d)) d)

  -- The loop over `e.Dir`, without the children whose names are in `skip`.
  pub elems_below : Goyang → DataType → List Entry → List Str → Dir → List (List PathElem)
  elems_below y dt above skip end = []
  elems_below y dt above skip (child k e d) =
      (if in_set (name e) skip then [] else path_elems y dt above e)
      ++ elems_below y dt above skip d

-- The loop of `populatePathElemKeys`.
unfoldable pub add_missing : List Str → Dict Str Str → Dict Str Str
unfolding insert lookup
add_missing [] m = m
add_missing (k ∷ ks) m =
    add_missing ks (elim (lookup k m) [ none ↦ insert k (codes "*") m | some v ↦ m ])

unfoldable pub populate_elem : Goyang → Entry → PathElem → PathElem
unfolding add_missing sort_strings
populate_elem y e pe =
    if y.is_list e
    then record pe { key = add_missing (sort_strings (fields (attrs e).key)) pe.key }
    else pe

abbrev pub is_below_root : List Entry → Bool
is_below_root [] = false
is_below_root (e ∷ es) = name e == root_name

-- The loop of `populatePathKeys`, over the elements from the last and the entries upwards. A read
-- through a nil `Parent` is a panic.
unfoldable pub populate_up : Goyang → List Entry → List PathElem → Result (List PathElem)
unfolding populate_elem
populate_up y es [] = ok []
populate_up y [] (pe ∷ pes) = panic
populate_up y (e ∷ es) (pe ∷ pes) =
    if is_below_root es
    then ok (pe ∷ pes)
    else (populate_up y es pes >>= λ rest. ok (populate_elem y e pe ∷ rest))

unfoldable pub populate_path_keys : Goyang → Node → List PathElem → Result (List PathElem)
unfolding populate_up
populate_path_keys y n pes =
    populate_up y (n.here ∷ n.above) (reverse pes) >>= λ up. ok (reverse up)

-- `ExpandPath`. A path that is built from others has no origin and no target.
unfoldable pub expand_path : Goyang → Entry → SdcPath → DataType → Result (List SdcPath)
unfolding to_strings get_entry populate_path_keys path_elems
expand_path y root p dt = do
  n ← get_entry y root (to_strings p false true)
  pes ← populate_path_keys y n p.elem
  if y.is_leaf n.here
      then ok (record p { elem = pes } ∷ [])
      else ok (
          map (λ b. record { origin = []; target = []; elem = pes ++ b })
            (elems_below y dt (n.here ∷ n.above) (fields (attrs n.here).key) (dir n.here)))
