-- ===== src/Schema/References/Kept.antt =====
-- What the walk of `buildReferences` keeps, if each leafref that it annotates keeps it.
use sdcio_schema_server.Base.{
  ◌≡◌, subst, inl, inr, true, false, Bool-cases, List, ◌∷◌, Str, Result, ok, ◌>>=◌, >>=-eq-ok,
}
use sdcio_schema_server.Yang.{Entry, bare, node, Dir, end, child, dir, Node, Goyang}
use sdcio_schema_server.Schema.Children.{is_hidden}
use sdcio_schema_server.Schema.Element.{is_state, Annotations}
use sdcio_schema_server.Schema.References.{
  is_leafref, annotate_leafref, refer, visit_child, build_references, build_child, build_children,
  build_each,
}

-- A node of the tree below an entry, and below a directory, with the ancestors that it has there.
mutual
  pub data InTree : List Entry → Entry → Node → Type 0 where
    self : {above : List Entry} {e : Entry} → InTree above e (record { here = e; above = above })
    deeper :
        {above : List Entry} {e : Entry} {m : Node} → InDir (e ∷ above) (dir e) m → InTree above e m

  pub data InDir : List Entry → Dir → Node → Type 0 where
    first :
        {above : List Entry} {k : Str} {e : Entry} {d : Dir} {m : Node}
        → InTree above e m
        → InDir above (child k e d) m
    later :
        {above : List Entry} {k : Str} {e : Entry} {d : Dir} {m : Node}
        → InDir above d m
        → InDir above (child k e d) m

-- A leafref that is annotated: a state entry is not.
pub record IsSource (m : Node) : Type 0 where
  pub leafref : is_leafref m.here ≡ true
  pub configured : is_state m ≡ false

-- A step that keeps a property of the annotations, where it succeeds.
abbrev pub Keeps : (Annotations → Type 0) → (Annotations → Result Annotations) → Type 0
Keeps P f = (a b : Annotations) → P a → f a ≡ ok b → P b

pub Keeps-ok : (P : Annotations → Type 0) → Keeps P ok
Keeps-ok P a b p h = subst P (ok_inj h) p
  where
    ok_inj : {c d : Annotations} → ◌≡◌ {A = Result Annotations} (ok c) (ok d) → c ≡ d
    ok_inj g = cc

pub Keeps-bind :
    (P : Annotations → Type 0) (f g : Annotations → Result Annotations)
    → Keeps P f
    → Keeps P g
    → Keeps P (λ a. f a >>= g)
Keeps-bind P f g kf kg a b p h = let (c, hf, hg) = >>=-eq-ok (f a) g h in kg c b (kf a c p hf) hg

module _ (y : Goyang) (path_of : Node → Str) (root : Entry) (P : Annotations → Type 0) where
  abbrev pub KeptAt : Node → Type 0
  KeptAt m = IsSource m → Keeps P (annotate_leafref y path_of root m)

  Keeps-annotate :
      (m : Node) → KeptAt m → is_state m ≡ false → Keeps P (annotate_leafref y path_of root m)
  unfolding annotate_leafref
  Keeps-annotate m kept configured a b p h = elim (Bool-cases (is_leafref m.here)) [
    | inl e ↦ kept (record { leafref = e; configured = configured }) a b p h
    | inr e ↦ Keeps-ok P a b p (rw (e, annotate_leafref) at h)
  ]

  Keeps-refer :
      (m : Node) (lower : Annotations → Result Annotations)
      → KeptAt m
      → Keeps P lower
      → Keeps P (refer y path_of root m lower)
  unfolding refer
  Keeps-refer m lower kept kl a b p h = elim (Bool-cases (is_state m)) [
    | inl e ↦ Keeps-ok P a b p (rw (e, refer) at h)
    | inr e ↦
        Keeps-bind P (annotate_leafref y path_of root m) lower (Keeps-annotate m kept e) kl a b p
          (rw (e, refer) at h)
  ]

  Keeps-visit :
      (m : Node) (each lower : Annotations → Result Annotations)
      → KeptAt m
      → Keeps P each
      → Keeps P lower
      → Keeps P (visit_child y path_of root m each lower)
  Keeps-visit m each lower kept ke kl a b p h = elim (Bool-cases (is_hidden y m.here)) [
    | inl e ↦
        Keeps-bind P each (refer y path_of root m lower) ke (Keeps-refer m lower kept kl) a b p
          (rw e at h)
    | inr e ↦ Keeps-refer m lower kept kl a b p (rw e at h)
  ]

  mutual
    unfolding build_references

    pub Keeps-references :
        (e : Entry) (above : List Entry)
        → ((m : Node) → InTree above e m → KeptAt m)
        → Keeps P (build_references y path_of root above e)
    Keeps-references (bare b) above kept = Keeps-refer _ ok (kept _ self) (Keeps-ok P)
    Keeps-references (node b d) above kept =
        Keeps-refer _ _ (kept _ self) (Keeps-children d _ (λ m i. kept m (deeper i)))

    pub Keeps-child :
        (e : Entry) (above : List Entry)
        → ((m : Node) → InTree above e m → KeptAt m)
        → Keeps P (build_child y path_of root above e)
    Keeps-child (bare b) above kept = Keeps-visit _ ok ok (kept _ self) (Keeps-ok P) (Keeps-ok P)
    Keeps-child (node b d) above kept =
        Keeps-visit _ _ _ (kept _ self) (Keeps-each d _ (λ m i. kept m (deeper i)))
          (Keeps-children d _ (λ m i. kept m (deeper i)))

    pub Keeps-children :
        (d : Dir) (above : List Entry)
        → ((m : Node) → InDir above d m → KeptAt m)
        → Keeps P (build_children y path_of root above d)
    Keeps-children end above kept = Keeps-ok P
    Keeps-children (child k e d) above kept =
        Keeps-bind P _ _ (Keeps-child e above (λ m i. kept m (first i)))
          (Keeps-children d above (λ m i. kept m (later i)))

    pub Keeps-each :
        (d : Dir) (above : List Entry)
        → ((m : Node) → InDir above d m → KeptAt m)
        → Keeps P (build_each y path_of root above d)
    Keeps-each end above kept = Keeps-ok P
    Keeps-each (child k e d) above kept =
        Keeps-bind P _ _ (Keeps-references e above (λ m i. kept m (first i)))
          (Keeps-each d above (λ m i. kept m (later i)))
