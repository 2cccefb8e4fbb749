-- ===== src/Store/Persist/Stored.antt =====
-- What the batch of `AddSchema` holds: the message of each entry of the data tree under its key.
use sdcio_schema_server.Base.{
  Option-cases, ◌≡◌, refl, sym, ap, subst, ◌∙◌, ◌⊎◌, inl, inr, true, false, some, List, [], ◌∷◌,
  ◌++◌, Str, str_eq, ◌==◌, All, All-append, Result, ok, >>=-eq-ok, Bool-cases, if◌then◌else◌, arith,
}
use sdcio_schema_server.Sdcpb.{SchemaElem}
use sdcio_schema_server.Yang.{Entry, bare, node, Dir, end, child, dir, Node, Goyang}
use sdcio_schema_server.Schema.Children.{is_hidden}
use sdcio_schema_server.Schema.Element.{Annotations}
use sdcio_schema_server.Schema.Container.{schema_elem_from}
use sdcio_schema_server.Schema.References.Kept.{InTree, self, deeper, InDir, first, later}
use sdcio_schema_server.Store.{SchemaKey}
use sdcio_schema_server.Store.Keys.{build_entry_key, get_entry_path}
use sdcio_schema_server.Store.Badger.{Libs, written}
use sdcio_schema_server.Store.Persist.{set_elem, add_elem, add_dir}

abbrev pub In : {A : Type 0} → A → List A → Type 0
In x [] = ⊥
In x (y ∷ ys) = (y ≡ x) ⊎ In x ys

In-left : {A : Type 0} (x : A) (xs ys : List A) → In x xs → In x (xs ++ ys)
In-left x [] ys h = absurd h
In-left x (z ∷ xs) ys (inl e) = inl e
In-left x (z ∷ xs) ys (inr h) = inr (In-left x xs ys h)

In-right : {A : Type 0} (x : A) (xs ys : List A) → In x ys → In x (xs ++ ys)
In-right x [] ys h = h
In-right x (z ∷ xs) ys h = inr (In-right x xs ys h)

pub All-In : {A : Type 0} (P : A → Type 0) (x : A) (xs : List A) → All P xs → In x xs → P x
All-In P x [] h i = absurd i
All-In P x (y ∷ ys) (p, ps) (inl e) = subst P e p
All-In P x (y ∷ ys) (p, ps) (inr i) = All-In P x ys ps i

pub written-some : (k v : Str) (ws : List (Str × Str)) → written k ws ≡ some v → In (k, v) ws
unfolding written
written-some k v [] h = cc
written-some k v ((j, u) ∷ ws) h = elim (Option-cases (written k ws)) [
  | inr (w, e) ↦ inr (written-some k v ws (e ∙ (rw (e, written) at h)))
  | inl e ↦ elim (Bool-cases (j == k)) [
    | inl b ↦ inl (ground (arith, str_eq.is_same_iff j k, h, e))
    | inr b ↦ absurd (ground (arith, h, e))
  ]
]

-- A key of the batch is written.
pub written-In :
    (k b : Str) (ws : List (Str × Str)) → In (k, b) ws → (v : Str) × (written k ws ≡ some v)
unfolding written
written-In k b [] h = absurd h
written-In k b ((j, u) ∷ ws) h = elim (Option-cases (written k ws)) [
  | inr (w, e) ↦ (w, rw (e, written))
  | inl e ↦ elim h [
    | inl same ↦ (u, rw (e, (str_eq.is_same_iff j k).1 (ap (λ p. p.0) same), written))
    | inr i ↦ let (w, f) = written-In k b ws i in absurd (cc)
  ]
]

-- The write of the entry at a node.
pub record Made (l : Libs) (y : Goyang) (k : SchemaKey) (notes : Annotations) (m : Node)
    (w : Str × Str) : Type 0 where
  pub path : List Str
  pub named : get_entry_path y m ≡ ok path
  pub keyed : build_entry_key k path ≡ ok w.0
  pub elem : SchemaElem
  pub converted : schema_elem_from y notes true m ≡ ok elem
  pub marshalled : l.marshal elem ≡ ok w.1

pub ok_inj {ℓ} : {A : Type ℓ} {a b : A} → ◌≡◌ {A = Result A} (ok a) (ok b) → a ≡ b
ok_inj h = cc

module _ (l : Libs) (y : Goyang) (k : SchemaKey) (notes : Annotations) where
  pub set_elem_parts :
      (above : List Entry) (e : Entry) (lower : Result (List (Str × Str))) {out : List (Str × Str)}
      → set_elem l y k notes above e lower ≡ ok out
      → (w : Str × Str) × (ws : List (Str × Str)) × Made l y k notes
          (record { here = e; above = above })
          w
        × (lower ≡ ok ws)
        × (out ≡ w ∷ ws)
  unfolding set_elem
  set_elem_parts above e lower h =
      let n : Node = record { here = e; above = above } in
      let (path, e1, r1) = >>=-eq-ok (get_entry_path y n) _ h in
      let (key, e2, r2) = >>=-eq-ok (build_entry_key k path) _ r1 in
      let (se, e3, r3) = >>=-eq-ok (schema_elem_from y notes true n) _ r2 in
      let (b, e4, r4) = >>=-eq-ok (l.marshal se) _ r3 in
      let (ws, e5, r5) = >>=-eq-ok lower _ r4 in
      (
        (key, b),
        ws,
        record { path = path; named = e1; keyed = e2; elem = se; converted = e3; marshalled = e4 },
        e5,
        sym (ok_inj r5),
      )

  -- A node of the data tree.
  abbrev pub Shown : Node → Type 0
  Shown m = is_hidden y m.here ≡ false

  -- The batch at an entry, over the batch of what stands below it.
  abbrev entry_batch : List Entry → Entry → Result (List (Str × Str)) → Result (List (Str × Str))
  entry_batch above e lower = if is_hidden y e then lower else set_elem l y k notes above e lower

  -- A batch that holds the write of a node.
  abbrev pub Holds : Node → List (Str × Str) → Type 0
  Holds m ws = (w : Str × Str) × Made l y k notes m w × In w ws

  Holds-entry :
      (m : Node) (above : List Entry) (e : Entry) (lower : Result (List (Str × Str)))
      (out : List (Str × Str))
      → InTree above e m
      → Shown m
      → (InDir (e ∷ above) (dir e) m → (ws : List (Str × Str)) → lower ≡ ok ws → Holds m ws)
      → entry_batch above e lower ≡ ok out
      → Holds m out
  Holds-entry m above e lower out self s r h =
      let (w, ws, made, _, same) = set_elem_parts above e lower (rw s at h) in
      (w, made, subst (In w) (sym same) (inl refl))
  Holds-entry m above e lower out (deeper i) s r h = elim (Bool-cases (is_hidden y e)) [
    | inl b ↦ r i out (rw b at h)
    | inr b ↦
        let (v, ws, _, read, same) = set_elem_parts above e lower (rw b at h) in
        let (w, made, there) = r i ws read in (w, made, subst (In w) (sym same) (inr there))
  ]

  no_end : {above : List Entry} {m : Node} → InDir above end m → ⊥
  no_end i = elim i [ ]

  mutual
    unfolding add_elem

    Holds-add_elem :
        (e : Entry) (above : List Entry) (m : Node) (ws : List (Str × Str))
        → InTree above e m
        → Shown m
        → add_elem l y k notes above e ≡ ok ws
        → Holds m ws
    Holds-add_elem (bare a) above m ws i s h =
        Holds-entry m above (bare a) (ok []) ws i s (λ j. absurd (no_end j)) h
    Holds-add_elem (node a d) above m ws i s h =
        Holds-entry m above (node a d) (add_dir l y k notes (node a d ∷ above) d) ws i s
          (λ j vs g. Holds-add_dir d (node a d ∷ above) m vs j s g) h

    pub Holds-add_dir :
        (d : Dir) (above : List Entry) (m : Node) (ws : List (Str × Str))
        → InDir above d m
        → Shown m
        → add_dir l y k notes above d ≡ ok ws
        → Holds m ws
    Holds-add_dir end above m ws i s h = absurd (no_end i)
    Holds-add_dir (child j e d) above m out (first i) s h =
        let (ws, e1, r1) = >>=-eq-ok (add_elem l y k notes above e) _ h in
        let (vs, e2, r2) = >>=-eq-ok (add_dir l y k notes above d) _ r1 in
        let (w, made, there) = Holds-add_elem e above m ws i s e1 in
        (w, made, subst (In w) (ok_inj r2) (In-left w ws vs there))
    Holds-add_dir (child j e d) above m out (later i) s h =
        let (ws, e1, r1) = >>=-eq-ok (add_elem l y k notes above e) _ h in
        let (vs, e2, r2) = >>=-eq-ok (add_dir l y k notes above d) _ r1 in
        let (w, made, there) = Holds-add_dir d above m vs i s e2 in
        (w, made, subst (In w) (ok_inj r2) (In-right w ws vs there))

  module _ (P : Str × Str → Type 0) where
    -- The write of a node has the property.
    abbrev pub WrittenAt : Node → Type 0
    WrittenAt m = Shown m → (w : Str × Str) → Made l y k notes m w → P w

    All-entry :
        (above : List Entry) (e : Entry) (lower : Result (List (Str × Str)))
        (out : List (Str × Str))
        → WrittenAt (record { here = e; above = above })
        → ((ws : List (Str × Str)) → lower ≡ ok ws → All P ws)
        → entry_batch above e lower ≡ ok out
        → All P out
    All-entry above e lower out at r h = elim (Bool-cases (is_hidden y e)) [
      | inl b ↦ r out (rw b at h)
      | inr b ↦
          let (w, ws, made, read, same) = set_elem_parts above e lower (rw b at h) in
          rw same (at b w made, r ws read)
    ]

    ok_nil :
        (ws : List (Str × Str)) → ◌≡◌ {A = Result (List (Str × Str))} (ok []) (ok ws) → All P ws
    ok_nil ws h = subst (All P) (ok_inj h) tt

    mutual
      unfolding add_elem

      All-add_elem :
          (e : Entry) (above : List Entry) (ws : List (Str × Str))
          → ((m : Node) → InTree above e m → WrittenAt m)
          → add_elem l y k notes above e ≡ ok ws
          → All P ws
      All-add_elem (bare a) above ws at h = All-entry above (bare a) (ok []) ws (at _ self) ok_nil h
      All-add_elem (node a d) above ws at h =
          All-entry above (node a d) (add_dir l y k notes (node a d ∷ above) d) ws (at _ self)
            (λ vs g. All-add_dir d (node a d ∷ above) vs (λ m i. at m (deeper i)) g) h

      pub All-add_dir :
          (d : Dir) (above : List Entry) (ws : List (Str × Str))
          → ((m : Node) → InDir above d m → WrittenAt m)
          → add_dir l y k notes above d ≡ ok ws
          → All P ws
      All-add_dir end above ws at h = ok_nil ws h
      All-add_dir (child j e d) above out at h =
          let (ws, e1, r1) = >>=-eq-ok (add_elem l y k notes above e) _ h in
          let (vs, e2, r2) = >>=-eq-ok (add_dir l y k notes above d) _ r1 in
          rw (← ok_inj r2) (
            All-append P ws vs (All-add_elem e above ws (λ m i. at m (first i)) e1)
              (All-add_dir d above vs (λ m i. at m (later i)) e2))
