-- ===== src/Schema/References/Exact.antt =====
-- The annotations that a schema gets: those of its leafrefs, and no others.
use sdcio_schema_server.Base.{
  ◌≡◌, subst, inl, inr, false, List, [], ◌∷◌, Str, str_eq, Result, ok, ◌>>=◌, >>=-eq-ok, Bool-cases,
  arith,
}
use sdcio_schema_server.Yang.{Entry, bare, node, Dir, end, child, dir, Node, Goyang}
use sdcio_schema_server.Schema.Children.{is_hidden}
use sdcio_schema_server.Schema.Element.{is_state, is_state_above, Annotations}
use sdcio_schema_server.Schema.References.{
  referred, annotate_leafref, refer, visit_child, build_references, build_child, build_children,
  build_each, build_references_annotation,
}
use sdcio_schema_server.Schema.References.Kept.{
  InTree, self, deeper, InDir, first, later, IsSource, Keeps, Keeps-ok, Keeps-children, Keeps-each,
}
use sdcio_schema_server.Schema.References.Annotated.{
  annotated, Justified, Holds, Justified-kept, Holds-kept, Holds-here,
}

-- What stands above an entry that is not state is not state.
mutual
  unfolding is_state is_state_above

  configured_above :
      {above : List Entry} {e : Entry} {m : Node}
      → InTree above e m
      → is_state m ≡ false
      → is_state (record { here = e; above = above }) ≡ false
  configured_above self h = h
  configured_above (deeper i) h = configured_dir i h

  configured_dir :
      {above : List Entry} {d : Dir} {m : Node}
      → InDir above d m
      → is_state m ≡ false
      → is_state_above above ≡ false
  configured_dir (first i) h = ground (arith, configured_above i h)
  configured_dir (later i) h = configured_dir i h

no_end : {above : List Entry} {m : Node} → InDir above end m → ⊥
no_end i = elim i [ ]

module _ (y : Goyang) (path_of : Node → Str) (root : Entry) where
  abbrev Held : Node → Node → Annotations → Type 0
  Held = Holds y path_of root

  -- A step behind which the leafref `m` has its annotation.
  abbrev Reaches : Node → (Annotations → Result Annotations) → Type 0
  Reaches m f =
      (a b : Annotations)
      → f a ≡ ok b
      → (t : Node) × (referred y path_of root m ≡ ok t) × Held m t b

  Reaches-annotate : (m : Node) → IsSource m → Reaches m (annotate_leafref y path_of root m)
  Reaches-annotate m s a b h =
      let (t, found, written) = annotated y path_of root m a b s.leafref h in
      (t, found, subst (Held m t) written (Holds-here y path_of root m t a))

  -- A later step keeps the annotation.
  Reaches-before :
      (m : Node) (f g : Annotations → Result Annotations)
      → Reaches m f
      → ((t : Node) → Keeps (Held m t) g)
      → Reaches m (λ a. f a >>= g)
  Reaches-before m f g r k a b h =
      let (c, hf, hg) = >>=-eq-ok (f a) g h in
      let (t, found, held) = r a c hf in (t, found, k t c b held hg)

  Reaches-after :
      (m : Node) (f g : Annotations → Result Annotations) → Reaches m g → Reaches m (λ a. f a >>= g)
  Reaches-after m f g r a b h = let (c, hf, hg) = >>=-eq-ok (f a) g h in r c b hg

  Reaches-refer :
      (m n : Node) (lower : Annotations → Result Annotations)
      → is_state n ≡ false
      → Reaches m (λ a. annotate_leafref y path_of root n a >>= lower)
      → Reaches m (refer y path_of root n lower)
  unfolding refer
  Reaches-refer m n lower e r a b h = r a b (rw (e, refer) at h)

  Reaches-visit :
      (m n : Node) (each lower : Annotations → Result Annotations)
      → Reaches m (refer y path_of root n lower)
      → Reaches m (visit_child y path_of root n each lower)
  Reaches-visit m n each lower r a b h = elim (Bool-cases (is_hidden y n.here)) [
    | inl e ↦ Reaches-after m each (refer y path_of root n lower) r a b (rw e at h)
    | inr e ↦ r a b (rw e at h)
  ]

  -- The call at an entry, whose loop over the children is `lower`.
  Reaches-entry :
      (m : Node) (above : List Entry) (e : Entry) (lower : Annotations → Result Annotations)
      → IsSource m
      → (i : InTree above e m) → (InDir (e ∷ above) (dir e) m → Reaches m lower)
      → ((t : Node) → Keeps (Held m t) lower)
      → Reaches m (refer y path_of root (record { here = e; above = above }) lower)
  Reaches-entry m above e lower s self r k =
      Reaches-refer m m lower s.configured
        (Reaches-before m (annotate_leafref y path_of root m) lower (Reaches-annotate m s) k)
  Reaches-entry m above e lower s (deeper i) r k =
      Reaches-refer m _ lower (configured_above (deeper i) s.configured)
        (Reaches-after m (annotate_leafref y path_of root _) lower (r i))

  mutual
    unfolding build_references

    Reaches-child :
        (e : Entry) (above : List Entry) (m : Node)
        → IsSource m
        → InTree above e m
        → Reaches m (build_child y path_of root above e)
    Reaches-child (bare b) above m s i =
        Reaches-visit m _ ok ok (
          Reaches-entry m above (bare b) ok s i (λ j. absurd (no_end j)) (λ t. Keeps-ok (Held m t)))
    Reaches-child (node b d) above m s i = Reaches-visit m _ _ _ (
        Reaches-entry m above (node b d) _ s i (Reaches-children d (node b d ∷ above) m s) (λ t.
          Keeps-children y path_of root (Held m t) d _ (λ n j. Holds-kept y path_of root m t n)))

    Reaches-children :
        (d : Dir) (above : List Entry) (m : Node)
        → IsSource m
        → InDir above d m
        → Reaches m (build_children y path_of root above d)
    Reaches-children end above m s i = absurd (no_end i)
    Reaches-children (child k e d) above m s (first i) =
        Reaches-before m _ _ (Reaches-child e above m s i) (λ t.
          Keeps-children y path_of root (Held m t) d above (λ n j. Holds-kept y path_of root m t n))
    Reaches-children (child k e d) above m s (later i) =
        Reaches-after m _ _ (Reaches-children d above m s i)

  Reaches-references :
      (e : Entry) (above : List Entry) (m : Node)
      → IsSource m
      → InTree above e m
      → Reaches m (build_references y path_of root above e)
  unfolding build_references
  Reaches-references (bare b) above m s i =
      Reaches-entry m above (bare b) ok s i (λ j. absurd (no_end j)) (λ t. Keeps-ok (Held m t))
  Reaches-references (node b d) above m s i =
      Reaches-entry m above (node b d) _ s i (Reaches-children d (node b d ∷ above) m s)
        (λ t. Keeps-children y path_of root (Held m t) d _ (λ n j. Holds-kept y path_of root m t n))

  Reaches-each :
      (d : Dir) (above : List Entry) (m : Node)
      → IsSource m
      → InDir above d m
      → Reaches m (build_each y path_of root above d)
  unfolding build_references
  Reaches-each end above m s i = absurd (no_end i)
  Reaches-each (child k e d) above m s (first i) =
      Reaches-before m _ _ (Reaches-references e above m s i)
        (λ t. Keeps-each y path_of root (Held m t) d above (λ n j. Holds-kept y path_of root m t n))
  Reaches-each (child k e d) above m s (later i) = Reaches-after m _ _ (Reaches-each d above m s i)

  -- If the annotations are built, each leafref of the schema that is not state, hidden entries and
  -- what stands below them included, refers to an entry, which has an annotation under the key of
  -- the leafref, a leafref with the same path; and each annotation was there before, or is that of
  -- such a leafref at the entry that it refers to.
  pub build_references_annotation_exact :
      (old new : Annotations)
      → build_references_annotation y path_of root old ≡ ok new
      → ((m : Node)
          → InDir [] (dir root) m
          → IsSource m
          → (t : Node) × (referred y path_of root m ≡ ok t) × Holds y path_of root m t new)
        × Justified y path_of root old new
  unfolding build_references_annotation
  build_references_annotation_exact old new h = (
    λ m i s. Reaches-each (dir root) [] m s i old new h,
    Keeps-each y path_of root (Justified y path_of root old) (dir root) []
        (Justified-kept y path_of root old) old new (λ t k v e. inl e) h,
  )
