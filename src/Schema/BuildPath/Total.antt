-- ===== src/Schema/BuildPath/Total.antt =====
-- The height of the entry is fuel enough for `buildPath`.
use sdcio_schema_server.Base.{
  ℕ, zero, suc, ◌≡◌, ◌≢◌, ◌≤◌, refl, Bool, true, false, not, some, List, [], ◌∷◌, ◌++◌, Str, str_eq,
  Result, Error, ok, err, panic, out_of_fuel, ◌>>=◌, if◌then◌else◌, Option-cases, ap, Bool-cases,
  inl, inr, arith,
}
use sdcio_schema_server.Sdcpb.{PathElem}
use sdcio_schema_server.Yang.{Entry, bare, node, Dir, end, child, name, dir, find, Goyang}
use sdcio_schema_server.Schema.BuildPath.{
  in_cases, in_choice, in_choices, find_choice_case, Walk, plain, at_list_rest, at_list, at_choice,
  at_case, at_container_rest, at_container, at_leaf, at_leaf_list, build_step, build_path_from,
  height, height_dir, find_in_modules, build_in_module, build_in_modules, build_path, prefix_first,
  strip_first,
}
use sdcio_schema_server.Schema.Lookup.{query_of}

abbrev is_out_of_fuel : Error → Bool
is_out_of_fuel out_of_fuel = true
is_out_of_fuel _ = false

-- The model's fuel did not run out.
abbrev finishes {ℓ} : {A : Type ℓ} → Result A → Bool
finishes (ok a) = true
finishes (err e) = not (is_out_of_fuel e)
finishes panic = true

height-dir : (e : Entry) → suc (height_dir (dir e)) ≤ height e
unfolding height
height-dir (bare a) = omega arith
height-dir (node a d) = omega arith

height-find : (k : Str) (d : Dir) (e : Entry) → find k d ≡ some e → height e ≤ height_dir d
unfolding find height
height-find k end f h = cc
height-find k (child j e d) f h = ground (arith, height-find k d f)

height-in_cases :
    (y : Goyang) (n : Str) (d : Dir) (f : Entry) → in_cases y n d ≡ some f → height f ≤ height_dir d
unfolding in_cases height
height-in_cases y n end f h = cc
height-in_cases y n (child k e d) f h =
    ground (arith, height-find n (dir e) f, height-dir e, height-in_cases y n d f)

height-in_choice :
    (y : Goyang) (n : Str) (c f : Entry) → in_choice y n c ≡ some f → height f ≤ height_dir (dir c)
unfolding in_choice
height-in_choice y n c f h = ground (arith, height-find n (dir c) f, height-in_cases y n (dir c) f)

height-in_choices :
    (y : Goyang) (n : Str) (d : Dir) (f : Entry)
    → in_choices y n d ≡ some f
    → height f ≤ height_dir d
unfolding in_choices height
height-in_choices y n end f h = cc
height-in_choices y n (child k e d) f h =
    ground (arith, height-in_choice y n e f, height-dir e, height-in_choices y n d f)

height-find_choice_case :
    (y : Goyang) (e : Entry) (p n : Str) (ps : List Str) (f : Entry)
    → find_choice_case y e (p ∷ (n ∷ ps)) ≡ ok f
    → height f ≤ height_dir (dir e)
unfolding find_choice_case
height-find_choice_case y e p n ps f h = ground (arith, height-in_choices y n (dir e) f)

finishes-find_choice_case :
    (y : Goyang) (e : Entry) (p n : Str) (ps : List Str)
    → finishes (find_choice_case y e (p ∷ (n ∷ ps))) ≡ true
unfolding find_choice_case
finishes-find_choice_case y e p n ps = ground arith

finishes-bind {ℓ κ} :
    {A : Type ℓ} {B : Type κ} (m : Result A) (f : A → Result B)
    → finishes m ≡ true
    → ((a : A) → m ≡ ok a → finishes (f a) ≡ true)
    → finishes (m >>= f) ≡ true
finishes-bind (ok a) f h g = g a refl
finishes-bind (err e) f h g = h
finishes-bind panic f h g = refl

height-positive : (e : Entry) → 1 ≤ height e
height-positive e = omega (arith, height-dir e)

module _ (y : Goyang) (f : ℕ) (rec : Walk)
    (good : (ps : List Str) (p : List PathElem) (e : Entry)
      → height e ≤ f
      → finishes (rec ps p e) ≡ true) where
  finishes_child :
      (e ee : Entry) (k : Str) (ps : List Str) (p : List PathElem)
      → height e ≤ suc f
      → find k (dir e) ≡ some ee
      → finishes (rec ps p ee) ≡ true
  finishes_child e ee k ps p h g =
      good ps p ee (omega (arith, height-find k (dir e) ee g, height-dir e))

  finishes_choice :
      (e : Entry) (used n : Str) (more : List Str) (p : List PathElem)
      → height e ≤ suc f
      → finishes (find_choice_case y e (used ∷ (n ∷ more)) >>= λ ee. rec (n ∷ more) p ee) ≡ true
  finishes_choice e used n more p h =
      finishes-bind (find_choice_case y e (used ∷ (n ∷ more))) (λ ee. rec (n ∷ more) p ee)
        (finishes-find_choice_case y e used n more)
        (λ ee g.
          good (n ∷ more) p ee
            (omega (arith, height-find_choice_case y e used n more ee g, height-dir e)))

  finishes-at_list_rest :
      (p : List PathElem) (e : Entry) (used : Str) (ps : List Str)
      → height e ≤ suc f
      → finishes (at_list_rest y rec p e used ps) ≡ true
  unfolding at_list_rest
  finishes-at_list_rest p e used [] h = refl
  finishes-at_list_rest p e used (n ∷ more) h = elim (Option-cases (find n (dir e))) [
    | inl g ↦ rw (g, at_list_rest) (finishes_choice e used n more p h)
    | inr (ee, g) ↦ rw (g, at_list_rest) (finishes_child e ee n (n ∷ more) p h g)
  ]

  finishes-at_container_rest :
      (p : List PathElem) (e : Entry) (used : Str) (ps : List Str)
      → height e ≤ suc f
      → finishes (at_container_rest y rec p e used ps) ≡ true
  unfolding at_container_rest
  finishes-at_container_rest p e used [] h = refl
  finishes-at_container_rest p e used (n ∷ more) h = elim (Option-cases (find n (dir e))) [
    | inl g ↦ rw (g, at_container_rest) (finishes_choice e used n more p h)
    | inr (ee, g) ↦ rw (g, at_container_rest) (finishes_child e ee n (n ∷ more) p h g)
  ]

  finishes-at_choice :
      (p : List PathElem) (e : Entry) (pe0 : Str) (ps : List Str)
      → height e ≤ suc f
      → finishes (at_choice y rec p e pe0 ps) ≡ true
  unfolding at_choice
  finishes-at_choice p e pe0 ps h = elim (Option-cases (find pe0 (dir e))) [
    | inl g ↦ rw (g, at_choice)
    | inr (ee, g) ↦ rw (g, at_choice) (finishes_child e ee pe0 ps (p ++ plain e ∷ []) h g)
  ]

  finishes-at_case :
      (p : List PathElem) (e : Entry) (pe0 : Str) (ps : List Str)
      → height e ≤ suc f
      → finishes (at_case y rec p e pe0 ps) ≡ true
  unfolding at_case
  finishes-at_case p e pe0 ps h = elim (Option-cases (find pe0 (dir e))) [
    | inr (ee, g) ↦ rw (g, at_case) (finishes_child e ee pe0 ps p h g)
    | inl g ↦ elim (Option-cases (find (name e) (dir e))) [
      | inl k ↦ rw (g, k, at_case)
      | inr (ee, k) ↦ rw (g, k, at_case) (finishes_child e ee (name e) (pe0 ∷ ps) p h k)
    ]
  ]

  finishes-at_container :
      (p : List PathElem) (e : Entry) (pe0 : Str) (ps : List Str)
      → height e ≤ suc f
      → finishes (at_container y rec p e pe0 ps) ≡ true
  unfolding at_container
  finishes-at_container p e pe0 ps h = elim (Option-cases (find pe0 (dir e))) [
    | inl g ↦ rw (g, at_container) (finishes-at_container_rest (p ++ plain e ∷ []) e pe0 ps h)
    | inr (ee, g) ↦ elim (Bool-cases (y.is_choice ee)) [
      | inl b ↦ rw (g, b, at_container) (finishes_child e ee pe0 ps p h g)
      | inr b ↦ rw (g, b, at_container) (finishes_child e ee pe0 (pe0 ∷ ps) (p ++ plain e ∷ []) h g)
    ]
  ]

  finishes-at_list :
      (p : List PathElem) (e : Entry) (pe0 : Str) (ps : List Str)
      → height e ≤ suc f
      → finishes (at_list y rec p e pe0 ps) ≡ true
  unfolding at_list
  finishes-at_list p e pe0 ps h = finishes-at_list_rest _ e pe0 _ h

  finishes-at_leaf :
      (p : List PathElem) (e : Entry) (pe0 : Str) (ps : List Str)
      → finishes (at_leaf y rec p e pe0 ps) ≡ true
  unfolding at_leaf
  finishes-at_leaf p e pe0 [] = refl
  finishes-at_leaf p e pe0 (q ∷ ps) = refl

  finishes-at_leaf_list :
      (p : List PathElem) (e : Entry) (ps : List Str) → finishes (at_leaf_list y rec p e ps) ≡ true
  unfolding at_leaf_list
  finishes-at_leaf_list p e [] = refl
  finishes-at_leaf_list p e (v ∷ []) = refl
  finishes-at_leaf_list p e (v ∷ (u ∷ ps)) = refl

  finishes_if :
      (b : Bool) (m n : Result (List PathElem))
      → finishes m ≡ true
      → finishes n ≡ true
      → finishes (if b then m else n) ≡ true
  finishes_if true m n h g = h
  finishes_if false m n h g = g

  finishes-build_step :
      (ps : List Str) (p : List PathElem) (e : Entry)
      → height e ≤ suc f
      → finishes (build_step y rec ps p e) ≡ true
  unfolding build_step
  finishes-build_step [] p e h = refl
  finishes-build_step (pe0 ∷ ps) p e h =
      finishes_if (y.is_list e) _ _ (finishes-at_list p e pe0 ps h) (
        finishes_if (y.is_choice e) _ _ (finishes-at_choice p e pe0 ps h) (
          finishes_if (y.is_case e) _ _ (finishes-at_case p e pe0 ps h) (
            finishes_if (y.is_container e) _ _ (finishes-at_container p e pe0 ps h) (
              finishes_if (y.is_leaf e) _ _ (finishes-at_leaf p e pe0 ps)
                (finishes_if (y.is_leaf_list e) _ _ (finishes-at_leaf_list p e ps) refl)))))

finishes-build_path_from :
    (y : Goyang) (f : ℕ) (ps : List Str) (p : List PathElem) (e : Entry)
    → height e ≤ f
    → finishes (build_path_from y f ps p e) ≡ true
unfolding build_path_from
finishes-build_path_from y zero ps p e h = absurd (omega (arith, height-positive e))
finishes-build_path_from y (suc f) ps p e h =
    finishes-build_step y f (build_path_from y f) (finishes-build_path_from y f) ps p e h

finishes-prefix_first : (first : Str) (p : List PathElem) → finishes (prefix_first first p) ≡ true
finishes-prefix_first first [] = refl
finishes-prefix_first first (pe ∷ p) = refl

finishes-build_in_module :
    (y : Goyang) (first : Str) (e : Entry) (ps : List Str) (p : List PathElem)
    → finishes (build_in_module y first e ps p) ≡ true
unfolding build_in_module
finishes-build_in_module y first e [] p = refl
finishes-build_in_module y first e (pe0 ∷ ps) p = elim (Option-cases (find pe0 (dir e))) [
  | inl g ↦ rw (g, build_in_module)
  | inr (ee, g) ↦
      rw (g, build_in_module)
        (finishes-bind (build_path_from y (height ee) (pe0 ∷ ps) p ee) (prefix_first first)
          (finishes-build_path_from y (height ee) (pe0 ∷ ps) p ee (omega arith))
          (λ a _. finishes-prefix_first first a))
]

finishes-build_in_modules :
    (y : Goyang) (root : Entry) (ps : List Str) (p : List PathElem)
    → finishes (build_in_modules y root ps p) ≡ true
unfolding build_in_modules
finishes-build_in_modules y root [] p = refl
finishes-build_in_modules y root (pe0 ∷ ps) p =
    elim (Option-cases (find_in_modules pe0 (dir root))) [
      | inl g ↦ rw (g, build_in_modules)
      | inr (ee, g) ↦
          rw (g, build_in_modules)
            (finishes-build_path_from y (height ee) (pe0 ∷ ps) p ee (omega arith))
    ]

finishes-build_path :
    (y : Goyang) (root : Entry) (ps : List Str) (p : List PathElem)
    → finishes (build_path y root ps p) ≡ true
unfolding build_path
finishes-build_path y root [] p = refl
finishes-build_path y root (pe0 ∷ ps) p =
    elim (Option-cases (find (query_of pe0 ps).first (dir root))) [
      | inl g ↦ rw (g, build_path) (finishes-build_in_modules y root (strip_first pe0 ps) p)
      | inr (e, g) ↦
          rw (g, build_path)
            (finishes-build_in_module y (query_of pe0 ps).first e (strip_first pe0 ps) p)
    ]

-- `BuildPath` ends on every schema and path: the height of the entry is fuel enough.
pub build_path-finishes :
    (y : Goyang) (root : Entry) (ps : List Str) (p : List PathElem)
    → build_path y root ps p ≢ err out_of_fuel
build_path-finishes y root ps p h = absurd (cc (finishes-build_path y root ps p, ap finishes h))
