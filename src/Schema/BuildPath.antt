-- ===== src/Schema/BuildPath.antt =====
-- pkg/schema/object.go: `BuildPath`, `buildPath` and `findChoiceCase`. A path under construction is
-- the list of its elements; on an error it is dropped, as the callers do.
pub mod Total
use Prim.Native.Nat.{max}
use sdcio_schema_server.Base.{
  ℕ, zero, suc, ◌≡◌, Bool, true, false, ◌&&◌, ◌||◌, not, Option, none, some, List, [], ◌∷◌, ◌++◌,
  Str, codes, str_eq, ◌==◌, Dict, insert, fields, sort_strings, cut_at, Result, ok, err, panic,
  module_not_found, not_found, unknown_element, out_of_fuel, ◌>>=◌, if◌then◌else◌,
}
use sdcio_schema_server.Sdcpb.{PathElem}
use sdcio_schema_server.Yang.{Entry, bare, node, Dir, end, child, attrs, name, dir, find, Goyang}
use sdcio_schema_server.Schema.Lookup.{Query, query_of}

-- The inner loop of `findChoiceCase`: the cases of a choice.
unfoldable pub in_cases : Goyang → Str → Dir → Option Entry
unfolding find
in_cases y n end = none
in_cases y n (child k e d) =
    if y.is_case e
    then elim (find n (dir e)) [ none ↦ in_cases y n d | some f ↦ some f ]
    else in_cases y n d

-- One choice: a child with the name that is no case, or a child of a case.
unfoldable pub in_choice : Goyang → Str → Entry → Option Entry
unfolding in_cases find
in_choice y n c = elim (find n (dir c)) [
  | none ↦ in_cases y n (dir c)
  | some e ↦ if y.is_case e then in_cases y n (dir c) else some e
]

-- The outer loop of `findChoiceCase`.
unfoldable pub in_choices : Goyang → Str → Dir → Option Entry
unfolding in_choice
in_choices y n end = none
in_choices y n (child k e d) =
    if y.is_choice e
    then elim (in_choice y n e) [ none ↦ in_choices y n d | some f ↦ some f ]
    else in_choices y n d

-- `findChoiceCase`, which reads `pe[1]`.
unfoldable pub find_choice_case : Goyang → Entry → List Str → Result Entry
unfolding in_choices
find_choice_case y e [] = ok e
find_choice_case y e (p ∷ []) = panic
find_choice_case y e (p ∷ (n ∷ ps)) = elim (in_choices y n (dir e)) [
  | none ↦ err (unknown_element n)
  | some f ↦ ok f
]

-- The loop over the keys of a list: the `Key` map, and the path that is left.
unfoldable pub fill_keys : List Str → List Str → Dict Str Str → Dict Str Str × List Str
unfolding insert
fill_keys [] vs m = (m, vs)
fill_keys (k ∷ ks) [] m = (m, [])
fill_keys (k ∷ ks) (v ∷ vs) m = fill_keys ks vs (insert k v m)

abbrev pub Walk : Type 0
Walk = List Str → List PathElem → Entry → Result (List PathElem)

abbrev pub plain : Entry → PathElem
plain e = record { name = name e; key = [] }

module _ (y : Goyang) (rec : Walk) where
  -- The list case behind its keys; `used` is the path element before `pe[count]`.
  unfoldable pub at_list_rest : List PathElem → Entry → Str → List Str → Result (List PathElem)
  unfolding find find_choice_case
  at_list_rest p e used [] = ok p
  at_list_rest p e used (n ∷ more) = elim (find n (dir e)) [
    | some ee ↦ rec (n ∷ more) p ee
    | none ↦ find_choice_case y e (used ∷ (n ∷ more)) >>= λ ee. rec (n ∷ more) p ee
  ]

  unfoldable pub at_list : List PathElem → Entry → Str → List Str → Result (List PathElem)
  unfolding at_list_rest fill_keys sort_strings
  at_list p e pe0 ps =
      let filled = fill_keys (sort_strings (fields (attrs e).key)) ps [] in
      at_list_rest (p ++ record { name = name e; key = filled.0 } ∷ []) e pe0 filled.1

  unfoldable pub at_choice : List PathElem → Entry → Str → List Str → Result (List PathElem)
  unfolding find
  at_choice p e pe0 ps = elim (find pe0 (dir e)) [
    | some ee ↦ rec ps (p ++ plain e ∷ []) ee
    | none ↦ err (unknown_element pe0)
  ]

  unfoldable pub at_case : List PathElem → Entry → Str → List Str → Result (List PathElem)
  unfolding find
  at_case p e pe0 ps = elim (find pe0 (dir e)) [
    | some ee ↦ rec ps p ee
    | none ↦ elim (find (name e) (dir e)) [
      | some ee ↦ rec (pe0 ∷ ps) p ee
      | none ↦ err (unknown_element pe0)
    ]
  ]

  -- The container case with no child named `pe[0]`.
  unfoldable pub at_container_rest : List PathElem → Entry → Str → List Str → Result (List PathElem)
  unfolding find find_choice_case
  at_container_rest p e pe0 [] = ok p
  at_container_rest p e pe0 (n ∷ more) = elim (find n (dir e)) [
    | some ee ↦ rec (n ∷ more) p ee
    | none ↦ find_choice_case y e (pe0 ∷ (n ∷ more)) >>= λ ee. rec (n ∷ more) p ee
  ]

  unfoldable pub at_container : List PathElem → Entry → Str → List Str → Result (List PathElem)
  unfolding find at_container_rest
  at_container p e pe0 ps = elim (find pe0 (dir e)) [
    | some ee ↦ if y.is_choice ee then rec ps p ee else rec (pe0 ∷ ps) (p ++ plain e ∷ []) ee
    | none ↦ at_container_rest (p ++ plain e ∷ []) e pe0 ps
  ]

  unfoldable pub at_leaf : List PathElem → Entry → Str → List Str → Result (List PathElem)
  at_leaf p e pe0 [] = ok (p ++ plain e ∷ [])
  at_leaf p e pe0 (q ∷ ps) = err (unknown_element pe0)

  unfoldable pub at_leaf_list : List PathElem → Entry → List Str → Result (List PathElem)
  at_leaf_list p e [] = ok (p ++ plain e ∷ [])
  at_leaf_list p e (v ∷ []) = ok (p ++ record { name = name e; key = (name e, v) ∷ [] } ∷ [])
  at_leaf_list p e (v ∷ (u ∷ ps)) = err (unknown_element u)

  -- The body of `buildPath`.
  unfoldable pub build_step : List Str → List PathElem → Entry → Result (List PathElem)
  unfolding at_list at_choice at_case at_container at_leaf at_leaf_list
  build_step [] p e = ok (p ++ plain e ∷ [])
  build_step (pe0 ∷ ps) p e =
      if y.is_list e
      then at_list p e pe0 ps
      else if y.is_choice e
      then at_choice p e pe0 ps
      else if y.is_case e
      then at_case p e pe0 ps
      else if y.is_container e
      then at_container p e pe0 ps
      else if y.is_leaf e
      then at_leaf p e pe0 ps
      else if y.is_leaf_list e
      then at_leaf_list p e ps
      else ok p

-- `buildPath`, on fuel for the entries that it goes down.
unfoldable pub build_path_from : Goyang → ℕ → Walk
unfolding build_step
build_path_from y zero pe p e = err out_of_fuel
build_path_from y (suc f) pe p e = build_step y (build_path_from y f) pe p e

unfoldable mutual
  -- The entries on the longest way down.
  pub height : Entry → ℕ
  height (bare a) = 1
  height (node a d) = suc (height_dir d)

  pub height_dir : Dir → ℕ
  height_dir end = 0
  height_dir (child k e d) = max (height e) (height_dir d)

abbrev pub prefix_first : Str → List PathElem → Result (List PathElem)
prefix_first first [] = panic
prefix_first first (pe ∷ pes) = ok (record pe { name = first ++ b':' ∷ pe.name } ∷ pes)

-- The first module with a child named `n`.
unfoldable pub find_in_modules : Str → Dir → Option Entry
unfolding find
find_in_modules n end = none
find_in_modules n (child k e d) = elim (find n (dir e)) [
  | none ↦ find_in_modules n d
  | some c ↦ some c
]

abbrev pub has_prefix_part : Str → Bool
has_prefix_part p = elim (cut_at b':' p) [
  | none ↦ false
  | some q ↦ elim q.0 [ [] ↦ false | c ∷ s ↦ true ]
]

-- `pe` with the module name cut off its head.
abbrev pub strip_first : Str → List Str → List Str
strip_first p ps = if has_prefix_part p then (query_of p ps).rest else p ∷ ps

-- `e.Dir[pe[0]]` in the named module, and in all modules.
unfoldable pub build_in_module :
    Goyang → Str → Entry → List Str → List PathElem → Result (List PathElem)
unfolding find build_path_from height
build_in_module y first e [] p = ok p
build_in_module y first e (pe0 ∷ ps) p = elim (find pe0 (dir e)) [
  | some ee ↦ build_path_from y (height ee) (pe0 ∷ ps) p ee >>= prefix_first first
  | none ↦ err (not_found pe0)
]

unfoldable pub build_in_modules : Goyang → Entry → List Str → List PathElem → Result (List PathElem)
unfolding find_in_modules build_path_from height
build_in_modules y root [] p = ok p
build_in_modules y root (pe0 ∷ ps) p = elim (find_in_modules pe0 (dir root)) [
  | some ee ↦ build_path_from y (height ee) (pe0 ∷ ps) p ee
  | none ↦ ok p
]

-- `BuildPath`
unfoldable pub build_path : Goyang → Entry → List Str → List PathElem → Result (List PathElem)
unfolding build_in_module build_in_modules query_of find
build_path y root [] p = ok p
build_path y root (pe0 ∷ ps) p =
    let first = (query_of pe0 ps).first in
    elim (find first (dir root)) [
      | some e ↦ build_in_module y first e (strip_first pe0 ps) p
      | none ↦ build_in_modules y root (strip_first pe0 ps) p
    ]
