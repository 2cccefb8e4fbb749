-- ===== src/Schema/References/Relative.antt =====
-- What `relativeToAbsPath` makes of a path that climbs first.
use sdcio_schema_server.Base.{
  ℕ, zero, suc, ◌≡◌, ◌≢◌, ◌∙◌, ap, refl, false, List, [], ◌∷◌, ◌++◌, append-nil, append_assoc, Str,
  str_eq, ◌==◌, All, take, drop, none, some, ok, Bool-cases, inl, inr, ◌>>=◌,
}
use sdcio_schema_server.Sdcpb.{PathElem}
use sdcio_schema_server.Yang.{Entry, name, Node, Goyang, root_name}
use sdcio_schema_server.Schema.Children.{is_hidden}
use sdcio_schema_server.Schema.References.{
  dot_dot, has_relative_path_elem, skip_pairs, walk_relative, prepend_names, from_root,
  relative_to_abs_path,
}

abbrev pub plain : Str → PathElem
plain n = record { name = n; key = [] }

-- `../` as often as that.
abbrev pub ups : ℕ → List PathElem
ups zero = []
ups (suc k) = plain dot_dot ∷ ups k

-- The names of an entry and its ancestors, from the top, without the module, which stands last.
abbrev pub below_module : List Entry → List PathElem
below_module [] = []
below_module (e ∷ []) = []
below_module (e ∷ (p ∷ ps)) = below_module (p ∷ ps) ++ plain (name e) ∷ []

-- The path from an entry with its ancestors; beyond the module nothing is left, of the rest either.
abbrev pub climbed : List Entry → List PathElem → List PathElem
climbed [] rest = []
climbed (e ∷ es) rest = below_module (e ∷ es) ++ rest

prepend_names-below_module :
    (e : Entry) (es : List Entry) (pes : List PathElem)
    → All (λ p. name p ≢ root_name) es
    → prepend_names e es pes ≡ below_module (e ∷ es) ++ pes
unfolding prepend_names
prepend_names-below_module e [] pes h = refl
prepend_names-below_module e (p ∷ ps) pes (h, hs) = elim (Bool-cases (name p == root_name)) [
  | inl b ↦ absurd (h ((str_eq.is_same_iff (name p) root_name).0 b))
  | inr b ↦ rw (b, prepend_names-below_module p ps (plain (name e) ∷ pes) hs, append_assoc)
]

module _ (y : Goyang) where
  walk_relative_plain :
      (n : Node) (taken rest : List PathElem)
      → has_relative_path_elem rest ≡ false
      → walk_relative y (record { at = some n; taken = taken }) rest
        ≡ ok (record { at = some n; taken = taken ++ rest })
  unfolding walk_relative has_relative_path_elem
  walk_relative_plain n taken [] h = rw append-nil
  walk_relative_plain n taken (pe ∷ pes) h = elim (Bool-cases (pe.name == dot_dot)) [
    | inl b ↦ cc
    | inr b ↦
        rw (b, walk_relative)
          (walk_relative_plain n (taken ++ pe ∷ []) pes (rw b at h) ∙ rw append_assoc)
  ]

  skip_pairs_plain :
      (e : Entry) (es : List Entry)
      → is_hidden y e ≡ false
      → skip_pairs y e es ≡ ok (record { here = e; above = es })
  unfolding skip_pairs
  skip_pairs_plain e [] h = refl
  skip_pairs_plain e (p ∷ []) h = rw h
  skip_pairs_plain e (p ∷ (q ∷ qs)) h = rw h

  drop_nil : (k : ℕ) → drop {A = Entry} k [] ≡ []
  drop_nil zero = refl
  drop_nil (suc k) = refl

  walk_relative_nowhere :
      (taken pes : List PathElem)
      → walk_relative y (record { at = none; taken = taken }) pes
        ≡ ok (record { at = none; taken = taken })
  unfolding walk_relative
  walk_relative_nowhere taken [] = refl
  walk_relative_nowhere taken (pe ∷ pes) = refl

  walked :
      (k : ℕ) (e : Entry) (es : List Entry) (rest : List PathElem)
      → has_relative_path_elem rest ≡ false
      → All (λ p. is_hidden y p ≡ false) (take k (e ∷ es))
      → All (λ p. name p ≢ root_name) es
      → (walk_relative y
            (record { at = some (record { here = e; above = es }); taken = [] })
            (ups k ++ rest)
          >>= λ w. ok (from_root w))
        ≡ ok (climbed (drop k (e ∷ es)) rest)
  unfolding walk_relative
  walked zero e es rest h g r =
      rw (walk_relative_plain (record { here = e; above = es }) [] rest h)
        (ap ok (prepend_names-below_module e es rest r))
  walked (suc k) e [] rest h (g, gs) r = rw (walk_relative_nowhere [] (ups k ++ rest), drop_nil k)
  walked (suc k) e (p ∷ ps) rest h (g, gs) (_, r) =
      rw (skip_pairs_plain e (p ∷ ps) g, walk_relative) (walked k p ps rest h gs r)

  -- A relative path that climbs a number of times to entries none of which is a choice or a case, and
  -- goes on with elements that are not `..`, is the path of the names from below the module to the
  -- entry where it arrives, those of choices and cases included, and the elements behind. If it
  -- climbs beyond the module it is empty. No ancestor has the name of the root.
  pub relative_to_abs_path_climbs :
      (k : ℕ) (n : Node) (rest : List PathElem)
      → has_relative_path_elem rest ≡ false
      → All (λ p. is_hidden y p ≡ false) (take k (n.here ∷ n.above))
      → All (λ p. name p ≢ root_name) n.above
      → relative_to_abs_path y n (ups k ++ rest) ≡ ok (climbed (drop k (n.here ∷ n.above)) rest)
  unfolding relative_to_abs_path
  relative_to_abs_path_climbs k n rest h g r = walked k n.here n.above rest h g r
