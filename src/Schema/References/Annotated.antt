-- ===== src/Schema/References/Annotated.antt =====
-- What one leafref writes to the annotations.
use sdcio_schema_server.Base.{
  ◌≡◌, subst, refl, ◌⊎◌, inl, inr, true, some, List, [], ◌∷◌, Str, str_eq, beq_refl, lookup,
  lookup-insert, Result, ok, >>=-eq-ok, Bool-cases, if◌then◌else◌, ◌==◌, arith,
}
use sdcio_schema_server.Yang.{Entry, dir, Node, Goyang}
use sdcio_schema_server.Schema.Element.{Note, ref, Annotations}
use sdcio_schema_server.Schema.References.{
  is_leafref, same_names, same_entry, position, annotate_at, ref_key, referred, annotate_leafref,
}
use sdcio_schema_server.Schema.References.Kept.{InDir, IsSource, KeptAt}

same_names_refl : (ss : List Str) → same_names ss ss ≡ true
same_names_refl [] = refl
same_names_refl (s ∷ ss) = rw (beq_refl s) (same_names_refl ss)

ok_inj : {c d : Annotations} → ◌≡◌ {A = Result Annotations} (ok c) (ok d) → c ≡ d
ok_inj h = cc

lookup-annotate_at :
    (t n : Node) (j k : Str) (v : Note) (a : Annotations)
    → lookup k (annotate_at t j v a n)
      ≡ (if same_entry t n then (if j == k then some v else lookup k (a n)) else lookup k (a n))
unfolding annotate_at
lookup-annotate_at t n j k v a = elim (Bool-cases (same_entry t n)) [
  | inl e ↦ rw (e, annotate_at) (lookup-insert j k v (a n))
  | inr e ↦ rw (e, annotate_at)
]

lookup-annotate_at_cases :
    (t n : Node) (j k : Str) (v w : Note) (a : Annotations)
    → lookup k (annotate_at t j v a n) ≡ some w
    → (lookup k (a n) ≡ some w) ⊎ ((same_entry t n ≡ true) × (k ≡ j) × (w ≡ v))
lookup-annotate_at_cases t n j k v w a h =
    ground (arith, lookup-annotate_at t n j k v a, str_eq.is_same_iff j k)

module _ (y : Goyang) (path_of : Node → Str) (root : Entry) where
  -- What the annotation of a leafref writes, where it succeeds.
  pub annotated :
      (m : Node) (a b : Annotations)
      → is_leafref m.here ≡ true
      → annotate_leafref y path_of root m a ≡ ok b
      → (t : Node) × (referred y path_of root m ≡ ok t)
        × (annotate_at t (ref_key y path_of root m) (ref m) a ≡ b)
  unfolding annotate_leafref
  annotated m a b l h =
      let (t, found, written) =
        >>=-eq-ok (referred y path_of root m) _ (rw (l, annotate_leafref) at h) in
      (t, found, ok_inj written)

  -- An annotation that stands for a leafref of the schema.
  pub record Explained (t : Node) (k : Str) (v : Note) : Type 0 where
    pub leafref : Node
    pub inside : InDir [] (dir root) leafref
    pub source : IsSource leafref
    pub keyed : k ≡ ref_key y path_of root leafref
    pub noted : v ≡ ref leafref
    pub target : Node
    pub found : referred y path_of root leafref ≡ ok target
    pub same : same_entry target t ≡ true

  abbrev pub Justified : Annotations → Annotations → Type 0
  Justified old new =
      (t : Node) (k : Str) (v : Note)
      → lookup k (new t) ≡ some v
      → (lookup k (old t) ≡ some v) ⊎ Explained t k v

  -- `refEntry` holds an annotation under the key of `m`, that of a leafref with its path.
  abbrev pub Holds : Node → Node → Annotations → Type 0
  Holds m t a =
      (e : Node) × (lookup (ref_key y path_of root m) (a t) ≡ some (ref e))
      × (path_of e ≡ path_of m)

  pub Justified-kept :
      (old : Annotations) (m : Node)
      → InDir [] (dir root) m
      → KeptAt y path_of root (Justified old) m
  Justified-kept old m i s a b p h t k v e =
      let (target, found, written) = annotated m a b s.leafref h in
      elim (lookup-annotate_at_cases target t (ref_key y path_of root m) k (ref m) v a
        (rw written e)) [
          | inl before ↦ p t k v before
          | inr (same, keyed, noted) ↦ inr (record {
            leafref = m;
            inside = i;
            source = s;
            keyed = keyed;
            noted = noted;
            target = target;
            found = found;
            same = same;
          })
        ]

  ref_key-injective :
      (m n : Node) → ref_key y path_of root n ≡ ref_key y path_of root m → path_of n ≡ path_of m
  ref_key-injective m n h = cc

  Holds-annotate_at :
      (m t u n : Node) (a : Annotations)
      → Holds m t a
      → Holds m t (annotate_at u (ref_key y path_of root n) (ref n) a)
  Holds-annotate_at m t u n a (w, e, q) = elim (Bool-cases (same_entry u t)) [
    | inr other ↦ (
      w,
      rw
          (
            lookup-annotate_at u t (ref_key y path_of root n) (ref_key y path_of root m) (ref n) a,
            other,
          )
          e,
      q,
    )
    | inl same ↦ elim (Bool-cases (ref_key y path_of root n == ref_key y path_of root m)) [
      | inr other ↦ (
        w,
        rw
            (
              lookup-annotate_at u t (ref_key y path_of root n) (ref_key y path_of root m) (ref n)
                  a,
              same,
              other,
            )
            e,
        q,
      )
      | inl keyed ↦ (
        n,
        rw
            (
              lookup-annotate_at u t (ref_key y path_of root n) (ref_key y path_of root m) (ref n)
                  a,
              same,
              keyed,
            )
            refl,
        ref_key-injective m n ((str_eq.is_same_iff _ _).0 keyed),
      )
    ]
  ]

  pub Holds-kept : (m t n : Node) → KeptAt y path_of root (Holds m t) n
  Holds-kept m t n s a b w h =
      let (u, found, written) = annotated n a b s.leafref h in
      subst (Holds m t) written (Holds-annotate_at m t u n a w)

  pub Holds-here :
      (m t : Node) (a : Annotations)
      → Holds m t (annotate_at t (ref_key y path_of root m) (ref m) a)
  Holds-here m t a = (
    m,
    rw
        (
          lookup-annotate_at t t (ref_key y path_of root m) (ref_key y path_of root m) (ref m) a,
          same_names_refl (position t),
          beq_refl (ref_key y path_of root m),
        )
        refl,
    refl,
  )
