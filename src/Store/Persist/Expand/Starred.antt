-- ===== src/Store/Persist/Expand/Starred.antt =====
-- What `ExpandPath` makes of the keys in the last element of the request's path.
use sdcio_schema_server.Base.{
  ℕ, zero, suc, ◌≡◌, refl, ap, sym, subst, ◌∙◌, Bool, true, false, if◌then◌else◌, some, List, [],
  ◌∷◌, ◌++◌, append_assoc, Str, codes, str_eq, beq_refl, lookup, insert, lookup-insert, All,
  All-append, Result, ok, err, panic, arith,
}
use sdcio_schema_server.Sdcpb.{
  PathElem, SdcPath, DataType, SchemaName, LeafSchema, LeafListSchema, ContainerSchema, SchemaElem,
  container, field, leaflist, ExpandPathResponse,
}
use sdcio_schema_server.Schema.Expand.{is_wanted}
use sdcio_schema_server.Store.Badger.{Libs}
use sdcio_schema_server.Store.Persist.{PersistStore}
use sdcio_schema_server.Store.Persist.Reads.{get_schema}
use sdcio_schema_server.Store.Persist.Expand.{
  star_last, star_keys, extended, add_path, add_fields, add_leaflists, Call, then_call, both,
  expand_children, expand_elem, expand_path_at, no_paths,
}
use sdcio_schema_server.Xpath.Strings.{to_xpath}

-- The path begins with the elements.
abbrev pub Under : List PathElem → SdcPath → Type 0
Under pes q = (rest : List PathElem) × (q.elem ≡ pes ++ rest)

abbrev pub UnderText : List PathElem → Str → Type 0
UnderText pes t = (q : SdcPath) × Under pes q × (t ≡ to_xpath q false)

-- Each path of the response, and each text, begins with the elements.
abbrev pub Lists : List PathElem → ExpandPathResponse → Type 0
Lists pes rsp = All (Under pes) rsp.path × All (UnderText pes) rsp.xpath

Under-shorter : (pes qes : List PathElem) (q : SdcPath) → Under (pes ++ qes) q → Under pes q
Under-shorter pes qes q (rest, e) = (qes ++ rest, e ∙ rw append_assoc)

All-map {ℓ} :
    {A : Type ℓ} (P Q : A → Type 0) (xs : List A) → ((x : A) → P x → Q x) → All P xs → All Q xs
All-map P Q [] h g = tt
All-map P Q (x ∷ xs) h (p, ps) = (h x p, All-map P Q xs h ps)

Lists-shorter :
    (pes qes : List PathElem) (rsp : ExpandPathResponse) → Lists (pes ++ qes) rsp → Lists pes rsp
Lists-shorter pes qes rsp (h, g) = (
  All-map (Under (pes ++ qes)) (Under pes) rsp.path (Under-shorter pes qes) h,
  All-map (UnderText (pes ++ qes)) (UnderText pes) rsp.xpath
      (λ t u. (u.0, Under-shorter pes qes u.0 u.1, u.2)) g,
)

Lists-add_path :
    (pes : List PathElem) (dt : DataType) (xpath : Bool) (p : SdcPath) (st : Bool)
    (rsp : ExpandPathResponse)
    → Under pes p
    → Lists pes rsp
    → Lists pes (add_path dt xpath p st rsp)
unfolding add_path
Lists-add_path pes dt xpath p st rsp u (h, g) = added (is_wanted dt st) xpath
  where
    added :
        (wanted x : Bool)
        → Lists pes (
            if wanted
            then (if x
                then record rsp { xpath = rsp.xpath ++ to_xpath p false ∷ [] }
                else record rsp { path = rsp.path ++ p ∷ [] })
            else rsp)
    added false x = (h, g)
    added true true =
        (h, All-append (UnderText pes) rsp.xpath (to_xpath p false ∷ []) g ((p, u, refl), tt))
    added true false = (All-append (Under pes) rsp.path (p ∷ []) h (u, tt), g)

module _ (dt : DataType) (xpath : Bool) (p : SdcPath) (pes : List PathElem) where
  Lists-add_fields :
      (fs : List LeafSchema) (rsp : ExpandPathResponse)
      → Lists pes rsp
      → Lists pes (add_fields dt xpath p pes fs rsp)
  unfolding add_fields
  Lists-add_fields [] rsp h = h
  Lists-add_fields (f ∷ fs) rsp h =
      Lists-add_fields fs _
        (Lists-add_path pes dt xpath (extended p pes f.name) f.is_state rsp (_, refl) h)

  Lists-add_leaflists :
      (fs : List LeafListSchema) (rsp : ExpandPathResponse)
      → Lists pes rsp
      → Lists pes (add_leaflists dt xpath p pes fs rsp)
  unfolding add_leaflists
  Lists-add_leaflists [] rsp h = h
  Lists-add_leaflists (f ∷ fs) rsp h =
      Lists-add_leaflists fs _
        (Lists-add_path pes dt xpath (extended p pes f.name) f.is_state rsp (_, refl) h)

abbrev star : Str → PathElem → PathElem
star k pe = record pe { key = insert k (codes "*") pe.key }

-- The last element with `*` for each of the keys.
abbrev starred : List LeafSchema → PathElem → PathElem
starred [] pe = pe
starred (k ∷ ks) pe = starred ks (star k.name pe)

star_last_lem :
    (k : Str) (pes : List PathElem) (pe : PathElem)
    → star_last k (pes ++ pe ∷ []) ≡ ok (pes ++ star k pe ∷ [])
unfolding star_last
star_last_lem k [] pe = refl
star_last_lem k (qe ∷ []) pe = refl
star_last_lem k (qe ∷ (re ∷ pes)) pe = rw (star_last_lem k (re ∷ pes) pe)

star_keys_lem :
    (ks : List LeafSchema) (pes : List PathElem) (pe : PathElem)
    → star_keys ks (pes ++ pe ∷ []) ≡ ok (pes ++ starred ks pe ∷ [])
unfolding star_keys
star_keys_lem [] pes pe = refl
star_keys_lem (k ∷ ks) pes pe =
    rw (star_last_lem k.name pes pe) (star_keys_lem ks pes (star k.name pe))

starred_name : (ks : List LeafSchema) (pe : PathElem) → (starred ks pe).name ≡ pe.name
starred_name [] pe = refl
starred_name (k ∷ ks) pe = starred_name ks (star k.name pe)

abbrev IsStarred : PathElem → Str → Type 0
IsStarred pe k = lookup k pe.key ≡ some (codes "*")

star-IsStarred : (k j : Str) (pe : PathElem) → IsStarred pe j → IsStarred (star k pe) j
star-IsStarred k j pe h = ground (arith, lookup-insert k j (codes "*") pe.key)

starred-IsStarred :
    (ks : List LeafSchema) (pe : PathElem) (j : Str) → IsStarred pe j → IsStarred (starred ks pe) j
starred-IsStarred [] pe j h = h
starred-IsStarred (k ∷ ks) pe j h =
    starred-IsStarred ks (star k.name pe) j (star-IsStarred k.name j pe h)

starred_all :
    (ks : List LeafSchema) (pe : PathElem) → All (λ k. IsStarred (starred ks pe) k.name) ks
starred_all [] pe = tt
starred_all (k ∷ ks) pe = (
  starred-IsStarred ks (star k.name pe) k.name
      (rw (lookup-insert k.name k.name (codes "*") pe.key, beq_refl k.name)),
  starred_all ks (star k.name pe),
)

then_call-eq-ok :
    (l : Libs) {A B : Type 0} (r : Result A × PersistStore l) (next : A → Call l B) {b : B}
    → (then_call l r next).0 ≡ ok b
    → (a : A) × (r.0 ≡ ok a) × ((next a r.1).0 ≡ ok b)
then_call-eq-ok l (ok a, s) next h = (a, refl, h)
then_call-eq-ok l (err e, s) next h = cc
then_call-eq-ok l (panic, s) next h = cc

ok_inj {ℓ} : {A : Type ℓ} {a b : A} → ◌≡◌ {A = Result A} (ok a) (ok b) → a ≡ b
ok_inj h = cc

module _ (l : Libs) (n : SchemaName) (dt : DataType) (xpath : Bool) where
  -- An expansion whose paths all begin with the elements before the last.
  abbrev Passes : (SdcPath → Call l ExpandPathResponse) → Type 0
  Passes expand =
      (s : PersistStore l) (p : SdcPath) (pes : List PathElem) (pe : PathElem)
      (rsp : ExpandPathResponse)
      → p.elem ≡ pes ++ pe ∷ []
      → (expand p s).0 ≡ ok rsp
      → Lists pes rsp

  Lists-expand_children :
      (expand : SdcPath → Call l ExpandPathResponse)
      → Passes expand
      → (p : SdcPath) (pes : List PathElem) (cs : List Str) (rsp out : ExpandPathResponse)
        (s : PersistStore l)
      → Lists pes rsp
      → (expand_children l expand p pes cs rsp s).0 ≡ ok out
      → Lists pes out
  unfolding expand_children
  Lists-expand_children expand ih p pes [] rsp out s h e = subst (Lists pes) (ok_inj e) h
  Lists-expand_children expand ih p pes (c ∷ cs) rsp out s (h, g) e =
      let (below, read, rest) = then_call-eq-ok l (expand (extended p pes c) s) _ e in
      let (h', g') = ih s (extended p pes c) pes _ below refl read in
      Lists-expand_children expand ih p pes cs (both l rsp below) out _
        (
          All-append (Under pes) rsp.path below.path h h',
          All-append (UnderText pes) rsp.xpath below.xpath g g',
        )
        rest

  Lists-container :
      (expand : SdcPath → Call l ExpandPathResponse)
      → Passes expand
      → (s : PersistStore l) (p : SdcPath) (pes : List PathElem) (pe : PathElem)
        (c : ContainerSchema) (rsp : ExpandPathResponse)
      → p.elem ≡ pes ++ pe ∷ []
      → (expand_elem l expand dt xpath p (container c) s).0 ≡ ok rsp
      → Lists (pes ++ starred c.keys pe ∷ []) rsp
  unfolding expand_elem
  Lists-container expand ih s p pes pe c rsp e h =
      let (found, keyed, rest) = then_call-eq-ok l (star_keys c.keys p.elem, s) _ h in
      let same : found ≡ pes ++ starred c.keys pe ∷ [] =
        ok_inj (sym keyed ∙ ap (star_keys c.keys) e ∙ star_keys_lem c.keys pes pe) in
      subst (λ qes. Lists qes rsp) same
        (Lists-expand_children expand ih p found c.children _ rsp s
          (Lists-add_leaflists dt xpath p found c.leaflists _
            (Lists-add_fields dt xpath p found c.fields no_paths (tt, tt)))
          rest)

  Passes-elem :
      (expand : SdcPath → Call l ExpandPathResponse)
      → Passes expand
      → (e : SchemaElem) → Passes (λ p. expand_elem l expand dt xpath p e)
  unfolding expand_elem
  Passes-elem expand ih (container c) s p pes pe rsp e h =
      Lists-shorter pes (starred c.keys pe ∷ []) rsp
        (Lists-container expand ih s p pes pe c rsp e h)
  Passes-elem expand ih (field f) s p pes pe rsp e h =
      subst (Lists pes) (ok_inj h)
        (Lists-add_path pes dt xpath p f.is_state no_paths (pe ∷ [], e) (tt, tt))
  Passes-elem expand ih (leaflist f) s p pes pe rsp e h =
      subst (Lists pes) (ok_inj h)
        (Lists-add_path pes dt xpath p f.is_state no_paths (pe ∷ [], e) (tt, tt))

  Passes-expand : (f : ℕ) → Passes (expand_path_at l f n dt xpath)
  unfolding expand_path_at
  Passes-expand zero s p pes pe rsp e h = cc
  Passes-expand (suc f) s p pes pe rsp e h =
      let (found, _, rest) = then_call-eq-ok l (get_schema l s n p false) _ h in
      Passes-elem (expand_path_at l f n dt xpath) (Passes-expand f) found _ p pes pe rsp e rest

  -- An expansion at a container or a list that succeeds lists only paths that begin with the elements
  -- of the request before the last, and with an element of the last one's name that has `*` for each
  -- key of the list, whatever value the request gave it; the same holds of the paths that are
  -- written as text.
  pub expand_path_at_starred :
      (f : ℕ) (s : PersistStore l) (p : SdcPath) (pes : List PathElem) (pe : PathElem)
      (c : ContainerSchema) (rsp : ExpandPathResponse)
      → p.elem ≡ pes ++ pe ∷ []
      → (get_schema l s n p false).0 ≡ ok (container c)
      → (expand_path_at l f n dt xpath p s).0 ≡ ok rsp
      → (qe : PathElem) × (qe.name ≡ pe.name)
        × All (λ k. lookup k.name qe.key ≡ some (codes "*")) c.keys
        × Lists (pes ++ qe ∷ []) rsp
  unfolding expand_path_at
  expand_path_at_starred zero s p pes pe c rsp e read h = cc
  expand_path_at_starred (suc f) s p pes pe c rsp e read h =
      let (found, r, rest) = then_call-eq-ok l (get_schema l s n p false) _ h in
      let same : found ≡ container c = ok_inj (sym r ∙ read) in
      (
        starred c.keys pe,
        starred_name c.keys pe,
        starred_all c.keys pe,
        Lists-container (expand_path_at l f n dt xpath) (Passes-expand f) _ p pes pe c rsp e
            (rw same at rest),
      )
