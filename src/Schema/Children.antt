-- ===== src/Schema/Children.antt =====
-- pkg/schema/object.go: `getChildren` and `getParent`.
use sdcio_schema_server.Base.{
  Bool, ◌||◌, Option, none, some, List, [], ◌∷◌, ◌++◌, str_eq, ◌==◌, if◌then◌else◌,
}
use sdcio_schema_server.Yang.{Entry, bare, node, Dir, end, child, name, Node, Goyang, root_name}

-- An entry of a choice or a case does not exist in the data tree.
abbrev pub is_hidden : Goyang → Entry → Bool
is_hidden y e = y.is_choice e || y.is_case e

-- The kinds whose children `getChildren` lists.
abbrev pub has_children : Goyang → Entry → Bool
has_children y e = y.is_choice e || y.is_case e || y.is_container e || y.is_list e

unfoldable mutual
  -- The data-tree children of an entry, each with its ancestors.
  pub children_of : Goyang → List Entry → Entry → List Node
  children_of y above (bare a) = []
  children_of y above (node a d) =
      if has_children y (node a d) then gather y (node a d ∷ above) d else []

  pub gather : Goyang → List Entry → Dir → List Node
  gather y above end = []
  gather y above (child k e d) =
      (if is_hidden y e then children_of y above e else record { here = e; above = above } ∷ [])
      ++ gather y above d

-- `getChildren(e)`.
unfoldable pub get_children : Goyang → Node → List Node
unfolding children_of
get_children y n = children_of y n.above n.here

-- `e.Parent` and its ancestors.
abbrev pub parent : Node → Option Node
parent n = elim n.above [ [] ↦ none | p ∷ ps ↦ some (record { here = p; above = ps }) ]

-- `getParent(e)`, which stops below the root.
unfoldable pub get_parent : Node → Option Node
get_parent n = elim (parent n) [
  | none ↦ none
  | some p ↦ if name p.here == root_name then none else some p
]
